-- ===== src/Server/Codec.antt =====
-- internal/server/command_codec.go and the two loops of internal/server/service.go over log entries.
use go_raft_kv.Prelude.{ℕ, ◌≡◌, refl, List, [], ◌∷◌, map, All}
use go_raft_kv.Storage.Types.{Command}
use go_raft_kv.Storage.Types
use go_raft_kv.Api

-- `encodeCommand` and `decodeCommand` are encoding/json, less its errors.
pub record CommandCodec : Type 0 where
  pub encode : Command → List ℕ
  pub decode : List ℕ → Command

-- The commands of the entries are read back from what was written of them.
abbrev pub Decodes : CommandCodec → List Types.LogEntry → Type 0
Decodes codec entries =
    All (λ (e : Types.LogEntry). codec.decode (codec.encode e.command) ≡ e.command) entries

module _ (codec : CommandCodec) where
  abbrev pub to_api_entry : Types.LogEntry → Api.LogEntry
  to_api_entry e = record { index = e.index; term = e.term; command = codec.encode e.command }

  abbrev pub from_api_entry : Api.LogEntry → Types.LogEntry
  from_api_entry e = record { index = e.index; term = e.term; command = codec.decode e.command }

  unfoldable pub log_entries_to_api : List Types.LogEntry → List Api.LogEntry
  log_entries_to_api entries = map to_api_entry entries

  unfoldable pub api_to_log_entries : List Api.LogEntry → List Types.LogEntry
  api_to_log_entries entries = map from_api_entry entries

  pub api_to_log_entries-log_entries_to_api :
      (entries : List Types.LogEntry)
      → Decodes codec entries
      → api_to_log_entries (log_entries_to_api entries) ≡ entries
  unfolding api_to_log_entries log_entries_to_api
  api_to_log_entries-log_entries_to_api [] law = refl
  api_to_log_entries-log_entries_to_api (e ∷ entries) (here, law) =
      cc (here, api_to_log_entries-log_entries_to_api entries law)
