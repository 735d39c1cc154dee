-- ===== src/Raft/Examples/Reading.antt =====
-- The theorems on reads and on snapshot transfers of internal/raft/node.go at a node that leads.
use go_raft_kv.Prelude.{
  ℕ, ◌≡◌, inl, ◌⊎◌, refl, arith, true, false, none, some, List, [], ◌∷◌, ◌++◌, get_elem?, Result,
}
use go_raft_kv.Prelude.Dict.{get}
use go_raft_kv.Server.StateMachine.{KvStateMachine, apply as kv_apply}
use go_raft_kv.Raft.Types.{leader}
use go_raft_kv.Raft.Log.{last_index, entry_at}
use go_raft_kv.Raft.Node.{Node, quorum}
use go_raft_kv.Raft.Barrier.{
  counted, signalled, quorum_reached, all_answered, BarrierRun, ensure_quorum,
}
use go_raft_kv.Raft.Read.{linearizable_get}
use go_raft_kv.Raft.Progress.{IsValid}
use go_raft_kv.Raft.SendSnapshot.{transfer, send_chunks, send_snapshot}
use go_raft_kv.Raft.Guarantees.Counters.{answers}
use go_raft_kv.Raft.Guarantees.Barrier.{
  Confirms, WakesBy, ensure_quorum-Confirms, ensure_quorum_wakes,
}
use go_raft_kv.Raft.Guarantees.Read.{Observed, InOrder, Reads, linearizable_get-Reads}
use go_raft_kv.Raft.Guarantees.Serving.{stays, moves, run, finish}
use go_raft_kv.Raft.Apply.{next_ready, run_entry, still_next, record_applied}
use go_raft_kv.Raft.Examples.Handlers.{node-IsValid}
use go_raft_kv.Storage.Types.{ApplyResult}
use go_raft_kv.Prelude.Word.{inc64}
use go_raft_kv.Raft.Guarantees.Deliver.{to_follower}
use go_raft_kv.Raft.Guarantees.Transfer.{send_snapshot_delivers}
use go_raft_kv.Raft.Guarantees.Refused.{refuses, send_chunks_forever}
use go_raft_kv.Raft.Examples.{Disk, disk_store, kv, timer, node, e1}

abbrev serving : Node Disk KvStateMachine
serving = record node { role = leader; last_applied = 1; leader_noop_index = 1 }

serving-IsValid : IsValid serving
unfolding last_index
serving-IsValid = record {
  contiguous = (refl, (refl, tt));
  covered = omega arith;
  applied = omega arith;
  committed = omega arith;
  bounded = omega arith;
}

abbrev barrier : BarrierRun Disk KvStateMachine
barrier = record {
  start = serving;
  events = counted "c" false serving ∷ counted "b" true serving ∷ signalled ∷ [];
  woken = quorum_reached;
  finish = serving;
}

ensure_quorum-Confirms_example : Confirms 2 barrier
unfolding ensure_quorum quorum
ensure_quorum-Confirms_example = ensure_quorum-Confirms barrier 2 refl

ensure_quorum_wakes_example : WakesBy barrier quorum_reached ⊎ WakesBy barrier all_answered
unfolding answers
ensure_quorum_wakes_example = ensure_quorum_wakes barrier refl

-- The leader has committed its entry and not applied it; the read begins, the apply loop runs the
-- command and records it, and the read sees the value.
abbrev behind_by_one : Node Disk KvStateMachine
behind_by_one = record node { role = leader; leader_noop_index = 1 }

abbrev has_run : Node Disk KvStateMachine
has_run = record behind_by_one { machine = (kv.apply behind_by_one.machine e1.command).0 }

abbrev outcome_of_run : ApplyResult
outcome_of_run = (kv.apply behind_by_one.machine e1.command).1

abbrev recorded : Node Disk KvStateMachine
recorded = record_applied e1 outcome_of_run has_run

abbrev seen : Observed Disk KvStateMachine
seen = record {
  pass = record {
    barrier = record {
      start = behind_by_one;
      events = counted "c" false behind_by_one ∷ counted "b" true behind_by_one ∷ signalled ∷ [];
      woken = quorum_reached;
      finish = behind_by_one;
    };
    gate = behind_by_one;
    looks = (behind_by_one, none) ∷ (has_run, none) ∷ (recorded, none) ∷ [];
    reading = recorded;
  };
  applying = none;
}

seen-InOrder : InOrder disk_store kv seen
unfolding next_ready still_next entry_at inc64 run_entry kv_apply
seen-InOrder = (
  none,
  none,
  stays,
  (
    none,
    stays,
    (
      some (e1, outcome_of_run),
      moves stays (run e1 refl refl),
      (none, moves stays (finish e1 outcome_of_run refl refl), stays),
    ),
  ),
)

linearizable_get-Reads_example :
    (i : ℕ) × (o : Observed Disk KvStateMachine) × (get_elem? (seen ∷ []) i ≡ some o)
    × Reads disk_store kv "x" (some "one") o
unfolding linearizable_get quorum record_applied kv_apply go_raft_kv.Server.StateMachine.get get
    go_raft_kv.Prelude.Dict.put
linearizable_get-Reads_example =
    linearizable_get-Reads disk_store kv "x" (seen ∷ []) (some "one") (seen-InOrder, tt)
      (record { valid = node-IsValid; next = λ e r k. absurd (cc) }, tt) refl

abbrev body : List ℕ
body = 1 ∷ 2 ∷ 3 ∷ 4 ∷ 5 ∷ []

send_snapshot_delivers_example :
    send_snapshot disk_store
      (λ _. false)
      to_follower
      (λ _. some body)
      7
      timer
      2
      1
      1
      none
      2
      (node, none)
      serving
    ≡ (
      (
        record node {
          pending_snapshot = some (record {
            leader_id = "a";
            last_included_index = 1;
            last_included_term = 1;
            buffer = body;
          });
        },
        some body,
      ),
      (serving, some true),
    )
send_snapshot_delivers_example =
    send_snapshot_delivers disk_store timer (λ _. some body) none body 7 2 1 1 2 serving node refl
      (omega arith) refl refl (omega arith) (inl (λ p e. absurd (cc))) (omega arith)

send_chunks_forever_example :
    send_chunks {E = ℕ} disk_store
      (λ _. false)
      (refuses 2)
      100
      timer
      (transfer 2 1 1 body 16)
      0
      0
      serving
    ≡ (0, (serving, none))
send_chunks_forever_example =
    send_chunks_forever disk_store timer 100 (transfer 2 1 1 body 16) 2 0 serving (omega arith)
      (omega arith) refl refl (omega arith)
