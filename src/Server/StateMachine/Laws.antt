-- ===== src/Server/StateMachine/Laws.antt =====
-- The key-value state machine of internal/server/state_machine.go against an abstract map, a function
-- from keys to values that may be missing.
use go_raft_kv.Prelude.{
  String, ◌≡◌, refl, ◌∙◌, Bool, true, false, not, ◌||◌, Option, none, some, [], ◌∷◌, arith, str_eq,
  eq_iff, if◌then◌else◌, is_some,
}
use go_raft_kv.Prelude.Dict
use go_raft_kv.Prelude.Dict.{Dict, get_cons, get-put, get-remove}
use go_raft_kv.Storage.Types.{
  Operation, op_put, op_delete, op_cas, op_noop, other, Command, ApplyResult,
}
use go_raft_kv.Server.StateMachine.{
  KvStateMachine, or_empty, apply, apply_op, copy_into, snapshot, restore, get,
}

abbrev pub View : Type 0
View = String → Option String

abbrev pub view : KvStateMachine → View
view sm k = get sm k

abbrev pub assign : View → String → Option String → View
assign v k x j = if str_eq k j then x else v j

-- Whether a compare-and-swap finds the value that it expects.
abbrev pub expects : Option String → String → Bool
expects none e = false
expects (some v) e = str_eq v e

-- What each operation means, and what it answers.
abbrev pub meaning : Operation → Command → View → View
meaning op_put c v = assign v c.key (some c.value)
meaning op_delete c v = assign v c.key none
meaning op_cas c v = if expects (v c.key) c.expected then assign v c.key (some c.value) else v
meaning op_noop c v = v
meaning (other s) c v = v

abbrev pub reply : Bool → Bool → String → Bool → String → ApplyResult
reply ok found value swapped error = record {
  ok = ok;
  found = found;
  value = value;
  swapped = swapped;
  error = error;
}

abbrev pub answer : Operation → Command → View → ApplyResult
answer op_put c v = reply true true c.value false ""
answer op_delete c v = reply true (is_some (v c.key)) (or_empty (v c.key)) false ""
answer op_cas c v =
    if expects (v c.key) c.expected
    then reply true true c.value true ""
    else reply true (is_some (v c.key)) (or_empty (v c.key)) false ""
answer op_noop c v = reply true false "" false ""
answer (other s) c v = reply false false "" false "unknown command"

cas_test :
    (o : Option String) (e : String)
    → (not (is_some o) || not (str_eq (or_empty o) e)) ≡ not (expects o e)
cas_test none e = refl
cas_test (some v) e = refl

apply_op-meaning :
    (op : Operation) (sm : KvStateMachine) (c : Command) (k : String)
    → view (apply_op op sm c).0 k ≡ meaning op c (view sm) k
unfolding apply_op get
apply_op-meaning op_put sm c k = get-put sm.entries c.key k c.value
apply_op-meaning op_delete sm c k = get-remove sm.entries c.key k
apply_op-meaning op_cas sm c k =
    ground
      (arith, cas_test (Dict.get sm.entries c.key) c.expected, get-put sm.entries c.key k c.value)
apply_op-meaning op_noop sm c k = refl
apply_op-meaning (other s) sm c k = refl

apply_op-answer :
    (op : Operation) (sm : KvStateMachine) (c : Command)
    → (apply_op op sm c).1 ≡ answer op c (view sm)
unfolding apply_op get
apply_op-answer op_put sm c = refl
apply_op-answer op_delete sm c = refl
apply_op-answer op_cas sm c = ground (arith, cas_test (Dict.get sm.entries c.key) c.expected)
apply_op-answer op_noop sm c = refl
apply_op-answer (other s) sm c = refl

-- After a command every key reads as the command's meaning says, and the result is its answer.
pub apply-refines :
    (sm : KvStateMachine) (c : Command)
    → ((k : String) → view (apply sm c).0 k ≡ meaning c.op c (view sm) k)
      × ((apply sm c).1 ≡ answer c.op c (view sm))
unfolding apply
apply-refines sm c = (apply_op-meaning c.op sm c, apply_op-answer c.op sm c)

-- No key stands twice.
abbrev pub IsUnique : Dict String → Type 0
IsUnique [] = Unit
IsUnique ((k, v) ∷ d) = (Dict.get d k ≡ none) × IsUnique d

IsUnique-remove : (d : Dict String) (k : String) → IsUnique d → IsUnique (Dict.remove d k)
unfolding Dict.remove
IsUnique-remove [] k u = tt
IsUnique-remove ((j, v) ∷ d) k u =
    ground (arith, IsUnique-remove d k u.1, get-remove d k j, eq_iff j k)

pub IsUnique-put : (d : Dict String) (k v : String) → IsUnique d → IsUnique (Dict.put d k v)
unfolding Dict.put
IsUnique-put d k v u = (ground (arith, get-remove d k k, eq_iff k k), IsUnique-remove d k u)

-- Copying a map over another one gives its values, and those of the other where it has none.
copy_into_lem :
    (src dst : Dict String) (k : String)
    → IsUnique src
    → Dict.get (copy_into src dst) k
      ≡ (if is_some (Dict.get src k) then Dict.get src k else Dict.get dst k)
unfolding copy_into
copy_into_lem [] dst k u = unfold Dict.get in refl
copy_into_lem ((j, v) ∷ src) dst k u =
    copy_into_lem src (Dict.put dst j v) k u.1
    ∙ ground (arith, get_cons src j k v, get-put dst j k v, eq_iff j k, u.0)

copy_into-IsUnique : (src dst : Dict String) → IsUnique dst → IsUnique (copy_into src dst)
unfolding copy_into
copy_into-IsUnique [] dst u = u
copy_into-IsUnique ((j, v) ∷ src) dst u =
    copy_into-IsUnique src (Dict.put dst j v) (IsUnique-put dst j v u)

copy_lem : (d : Dict String) (k : String) → IsUnique d → Dict.get (copy_into d []) k ≡ Dict.get d k
copy_lem d k u = copy_into_lem d [] k u ∙ rest (Dict.get d k)
  where
    rest : (o : Option String) → (if is_some o then o else Dict.get [] k) ≡ o
    rest none = unfold Dict.get in refl
    rest (some v) = refl

apply_op-IsUnique :
    (op : Operation) (sm : KvStateMachine) (c : Command)
    → IsUnique sm.entries
    → IsUnique (apply_op op sm c).0.entries
unfolding apply_op
apply_op-IsUnique op_put sm c u = IsUnique-put sm.entries c.key c.value u
apply_op-IsUnique op_delete sm c u = IsUnique-remove sm.entries c.key u
apply_op-IsUnique op_cas sm c u = ground (arith, IsUnique-put sm.entries c.key c.value u)
apply_op-IsUnique op_noop sm c u = u
apply_op-IsUnique (other s) sm c u = u

-- A machine whose map has each key once keeps it so under every command; and restoring its snapshot,
-- into any machine, gives one that reads the same at every key and has each key once.
pub snapshot-restore :
    (sm : KvStateMachine)
    → IsUnique sm.entries
    → ((c : Command) → IsUnique (apply sm c).0.entries)
      × ((k : String) → view (restore (some (snapshot sm))) k ≡ view sm k)
      × IsUnique (restore (some (snapshot sm))).entries
unfolding apply snapshot restore get
snapshot-restore sm u =
    let once = copy_into-IsUnique sm.entries [] tt in
    (
      λ c. apply_op-IsUnique c.op sm c u,
      λ k. copy_lem (copy_into sm.entries []) k once ∙ copy_lem sm.entries k u,
      copy_into-IsUnique (copy_into sm.entries []) [] tt,
    )
