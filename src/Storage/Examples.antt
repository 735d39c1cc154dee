-- ===== src/Storage/Examples.antt =====
-- A codec whose bytes are whole lines and newlines, and the theorems on internal/storage/wal.go at a
-- short log with it.
use go_raft_kv.Prelude.{
  ℕ, ◌≤◌, ◌≡◌, refl, Bool, true, false, Option, none, some, List, [], ◌∷◌, ◌++◌, arith, length,
  take, inl, inr,
}
use go_raft_kv.Storage.Types.{op_put, LogEntry, Snapshot}
use go_raft_kv.Storage.Wal.{
  WalLine, Codec, not_after_base, content, encode_wal, encode_wal_entries, read_wal,
}
use go_raft_kv.Storage.Wal.ReadBack.{IsLawful, based}
use go_raft_kv.Storage.Wal.Crash.{read_wal-encode_wal, torn_append}
use go_raft_kv.Storage.Store.{holds, Files, replaced, replace_entries, load, zero_hard_state}
use go_raft_kv.Storage.Load.{Loaded, load-Loaded}
use go_raft_kv.Storage.Unreadable.{replace_entries_below}

pub data Token : Type 0 where
  whole : WalLine → Token
  line_end : Token

ends_line : Token → Bool
ends_line (whole l) = false
ends_line line_end = true

parse : List Token → Option WalLine
parse (whole l ∷ []) = some l
parse tokens = none

unfoldable pub token_codec : Codec Token
unfolding ends_line parse
token_codec = record {
  newline = line_end;
  is_newline = ends_line;
  marshal = λ l. whole l ∷ [];
  unmarshal = parse;
  trim = λ tokens. tokens;
  crc32 = length;
}

token_codec-IsLawful : IsLawful token_codec
unfolding token_codec
token_codec-IsLawful = record {
  breaks = refl;
  reads = λ l. refl;
  one_line = λ l. (refl, tt);
  visible = λ l. refl;
}

abbrev put_at : ℕ → LogEntry
put_at i = record {
  index = i;
  term = 2;
  command = record { op = op_put; key = "x"; value = "one"; expected = "" };
}

abbrev two : List LogEntry
two = put_at 5 ∷ put_at 6 ∷ []

read_wal-encode_wal_example :
    read_wal token_codec none (content (encode_wal token_codec 4 1 two))
    ≡ (inr (based 4 1 two), content (encode_wal token_codec 4 1 two))
read_wal-encode_wal_example =
    read_wal-encode_wal token_codec token_codec-IsLawful none 4 1 two (refl, (refl, tt))
      (omega arith)

torn_append_example :
    (j : ℕ) × (j ≤ 1)
    × (length (encode_wal_entries token_codec (put_at 7 ∷ [])) ≤ 1 → j ≡ 1)
    × ((read_wal token_codec none (
          content (
            encode_wal token_codec 4 1 two
            ++ take 1 (encode_wal_entries token_codec (put_at 7 ∷ []))))).0
        ≡ inr (based 4 1 (two ++ take j (put_at 7 ∷ []))))
torn_append_example =
    torn_append token_codec token_codec-IsLawful 4 1 1 two (put_at 7 ∷ []) (refl, (refl, tt))
      (refl, tt) (omega arith)

-- A snapshot at the log's first entry.
abbrev snapshot : Snapshot
snapshot = record { last_included_index = 5; last_included_term = 2; contents = some [] }

abbrev files : Files Token
files = record {
  hard_state = holds zero_hard_state;
  wal = content (encode_wal token_codec 4 1 two);
  snapshot = holds snapshot;
}

load-Loaded_example : Loaded 4 1 two zero_hard_state snapshot (load token_codec none replaced files)
load-Loaded_example =
    load-Loaded token_codec token_codec-IsLawful none zero_hard_state snapshot 4 1 two
      (refl, (refl, tt)) (omega arith) (omega arith)

replace_entries_below_example :
    ((replace_entries token_codec replaced two files).1 ≡ none)
    × ((read_wal token_codec none (replace_entries token_codec replaced two files).0.wal).0
        ≡ inl (not_after_base 5 5))
replace_entries_below_example =
    replace_entries_below token_codec token_codec-IsLawful none snapshot (put_at 5) (put_at 6 ∷ [])
      files refl (omega arith) (omega arith)
