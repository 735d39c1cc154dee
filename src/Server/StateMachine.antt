-- ===== src/Server/StateMachine.antt =====
-- internal/server/state_machine.go: the key-value state machine. Each method runs under the
-- machine's lock from start to end, so it is a function of the map.

pub mod Laws
pub mod Examples
use go_raft_kv.Prelude.{
  String, Bool, true, false, ◌&&◌, ◌||◌, not, Option, none, some, List, [], ◌∷◌, str_eq,
  if◌then◌else◌, is_some,
}
use go_raft_kv.Prelude.Dict
use go_raft_kv.Prelude.Dict.{Dict}
use go_raft_kv.Storage.Types.{
  Operation, op_put, op_delete, op_cas, op_noop, other, Command, ApplyResult,
}

pub record KvStateMachine : Type 0 where
  pub entries : Dict String

abbrev pub new_kv_state_machine : KvStateMachine
new_kv_state_machine = record { entries = [] }

-- The value of a missing key is the zero value of its type.
abbrev pub or_empty : Option String → String
or_empty none = ""
or_empty (some v) = v

apply_cas : KvStateMachine → Command → KvStateMachine × ApplyResult
apply_cas sm c =
    let current = Dict.get sm.entries c.key in
    if not (is_some current) || not (str_eq (or_empty current) c.expected)
    then (
      sm,
      record {
        ok = true;
        found = is_some current;
        value = or_empty current;
        swapped = false;
        error = "";
      },
    )
    else (
      record { entries = Dict.put sm.entries c.key c.value },
      record { ok = true; found = true; value = c.value; swapped = true; error = "" },
    )

apply_op : Operation → KvStateMachine → Command → KvStateMachine × ApplyResult
unfolding apply_cas
apply_op op_put sm c = (
  record { entries = Dict.put sm.entries c.key c.value },
  record { ok = true; found = true; value = c.value; swapped = false; error = "" },
)
apply_op op_delete sm c =
    let previous = Dict.get sm.entries c.key in
    (
      record { entries = Dict.remove sm.entries c.key },
      record {
        ok = true;
        found = is_some previous;
        value = or_empty previous;
        swapped = false;
        error = "";
      },
    )
apply_op op_cas sm c = apply_cas sm c
apply_op op_noop sm c =
    (sm, record { ok = true; found = false; value = ""; swapped = false; error = "" })
apply_op (other s) sm c = (
  sm,
  record { ok = false; found = false; value = ""; swapped = false; error = "unknown command" },
)

unfoldable pub apply : KvStateMachine → Command → KvStateMachine × ApplyResult
unfolding apply_op
apply sm c = apply_op c.op sm c

-- `for key, value := range src { dst[key] = value }`
unfoldable pub copy_into : Dict String → Dict String → Dict String
copy_into [] dst = dst
copy_into ((k, v) ∷ src) dst = copy_into src (Dict.put dst k v)

unfoldable pub snapshot : KvStateMachine → Dict String
unfolding copy_into
snapshot sm = copy_into sm.entries []

-- Ranging over a nil map does nothing.
unfoldable pub restore : Option (Dict String) → KvStateMachine
unfolding copy_into
restore none = record { entries = [] }
restore (some d) = record { entries = copy_into d [] }

unfoldable pub get : KvStateMachine → String → Option String
get sm k = Dict.get sm.entries k
