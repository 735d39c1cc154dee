-- ===== src/Raft/Errors.antt =====
-- internal/raft/types.go: the texts of the errors and what is wrapped in them.
use Prim.Native.String.{◌++◌}
use go_raft_kv.Prelude.{
  ℕ, zero, suc, ◌/◌, ◌%◌, String, Bool, true, false, Option, none, some, List, [], ◌∷◌, ltb,
  if◌then◌else◌, get_elem?, str_eq,
}
use go_raft_kv.Raft.Types.{Error, not_leader, node_stopped, proposal_unknown, context_done, message}
use go_raft_kv.Raft.Node.{or_empty}

digits : List String
digits = "0" ∷ "1" ∷ "2" ∷ "3" ∷ "4" ∷ "5" ∷ "6" ∷ "7" ∷ "8" ∷ "9" ∷ []

-- `%d`: a uint64 has at most 20 digits.
unfoldable pub decimal : ℕ → ℕ → String
unfolding digits
decimal zero n = ""
decimal (suc fuel) n =
    let high = decimal fuel (n / 10) in
    let low = or_empty (get_elem? digits (n % 10)) in if ltb n 10 then low else high ++ low

-- `err.Error()`. Which of its two errors a context has is an argument.
unfoldable pub error_text : String → Error → String
unfolding decimal
error_text ctx (not_leader id address) =
    if str_eq address ""
    then "not leader"
    else "not leader: leader=" ++ (id ++ (" addr=" ++ address))
error_text ctx node_stopped = "node stopped"
error_text ctx (proposal_unknown index e) =
    "proposal accepted at log index "
    ++ (decimal 20 index ++ (" but result unknown: " ++ error_text ctx e))
error_text ctx context_done = ctx
error_text ctx (message s) = s

-- `Unwrap`
unfoldable pub unwrap : Error → Option Error
unwrap (not_leader id address) = none
unwrap node_stopped = none
unwrap (proposal_unknown index e) = some e
unwrap context_done = none
unwrap (message s) = none

-- `errors.As` with a NotLeaderError as its target: the first one that is wrapped.
unfoldable pub as_not_leader : Error → Option (String × String)
as_not_leader (not_leader id address) = some (id, address)
as_not_leader (proposal_unknown index e) = as_not_leader e
as_not_leader node_stopped = none
as_not_leader context_done = none
as_not_leader (message s) = none

-- No error of the model is the value ErrNotLeader itself, which no function returns.
unfoldable pub is_not_leader : Option Error → Bool
unfolding as_not_leader
is_not_leader none = false
is_not_leader (some e) = elim (as_not_leader e) [ none ↦ false | some target ↦ true ]
