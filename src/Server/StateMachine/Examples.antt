-- ===== src/Server/StateMachine/Examples.antt =====
-- The theorems on the state machine of internal/server/state_machine.go at a map with one key.
use go_raft_kv.Prelude.{String, ◌≡◌, refl, Option, some, [], ◌∷◌}
use go_raft_kv.Storage.Types.{op_cas, Command}
use go_raft_kv.Server.StateMachine.{KvStateMachine, apply, snapshot, restore}
use go_raft_kv.Server.StateMachine.Laws.{
  IsUnique, view, meaning, answer, apply-refines, snapshot-restore,
}

abbrev machine : KvStateMachine
machine = record { entries = ("x", "one") ∷ ("y", "two") ∷ [] }

abbrev swap : Command
swap = record { op = op_cas; key = "x"; value = "three"; expected = "one" }

apply-refines_example :
    ((k : String) → view (apply machine swap).0 k ≡ meaning op_cas swap (view machine) k)
    × ((apply machine swap).1 ≡ answer op_cas swap (view machine))
apply-refines_example = apply-refines machine swap

snapshot-restore_example :
    ((c : Command) → IsUnique (apply machine c).0.entries)
    × ((k : String) → view (restore (some (snapshot machine))) k ≡ view machine k)
    × IsUnique (restore (some (snapshot machine))).entries
unfolding go_raft_kv.Prelude.Dict.get
snapshot-restore_example = snapshot-restore machine (refl, (refl, tt))
