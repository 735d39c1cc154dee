-- ===== src/Raft/Apply.antt =====
-- internal/raft/node.go: `applyReady`, which applies the committed entries in order. A round takes
-- the entry under the lock, applies it without, and records it under the lock again.
use go_raft_kv.Prelude.{
  ℕ, zero, suc, Bool, true, false, ◌&&◌, Option, none, some, ltb, leb, ◌==◌, if◌then◌else◌, length,
}
use go_raft_kv.Prelude.Word.{inc64}
use go_raft_kv.Storage.Types.{ApplyResult, LogEntry, Snapshot}
use go_raft_kv.Raft.Types.{Store, StateMachine}
use go_raft_kv.Raft.Log.{entry_at}
use go_raft_kv.Raft.Node.{Node, finish_waiters}
use go_raft_kv.Raft.Compact.{snapshot_at, persist_snapshot}

-- What the first critical section finds: nothing to do, entries under the snapshot, or an entry.
pub data Ready : Type 0 where
  idle : Ready
  covered : Ready
  entry : LogEntry → Ready

module _ {S M : Type 0} where
  unfoldable pub next_ready : Node S M → Ready
  next_ready n =
      let next = inc64 n.last_applied in
      if leb n.commit_index n.last_applied
      then idle
      else if leb next n.snapshot.last_included_index
      then covered
      else elim (entry_at n.snapshot n.log next) [ none ↦ idle | some e ↦ entry e ]

  -- The check of the second critical section that the entry is still the next one to apply.
  unfoldable pub still_next : LogEntry → Node S M → Bool
  still_next e n = elim (entry_at n.snapshot n.log e.index) [
    | none ↦ false
    | some cur ↦
        (e.index == inc64 n.last_applied) && leb e.index n.commit_index && (cur.term == e.term)
  ]

  unfoldable pub record_applied : LogEntry → ApplyResult → Node S M → Node S M
  unfolding finish_waiters
  record_applied e result n = finish_waiters (record n { last_applied = e.index }) e.index result

module _ {S M : Type 0} (sm : StateMachine M) where
  -- The command of an entry is run without the node's lock.
  unfoldable pub run_entry : LogEntry → Node S M → Node S M × ApplyResult
  run_entry e n =
      let (machine, result) = sm.apply n.machine e.command in
      (record n { machine = machine }, result)

  -- The snapshot that is due after an entry, if any.
  unfoldable pub due_snapshot : Node S M → Option Snapshot
  unfolding snapshot_at
  due_snapshot n =
      if ltb 0 n.snapshot_every
        && ltb n.snapshot_every (length n.log)
        && ltb n.snapshot.last_included_index n.last_applied
      then snapshot_at sm n n.last_applied
      else none

module _ {S M : Type 0} (st : Store S) (sm : StateMachine M) where
  -- The second critical section and the snapshot. The Boolean says whether the loop goes on.
  unfoldable pub finish_apply :
      (Node S M → Node S M) → LogEntry → ApplyResult → Node S M → Node S M × Bool
  unfolding still_next record_applied due_snapshot persist_snapshot
  finish_apply other e result n =
      if still_next e n
      then (let applied = record_applied e result n in
          elim (due_snapshot sm applied) [
            | none ↦ (applied, true)
            | some snap ↦ (persist_snapshot st other snap applied, true)
          ])
      else (n, false)

  -- A round; `other` is what other threads do to the node while the entry is applied without the lock
  -- and around the save of a snapshot. They leave the state machine alone in a round, which `applyMu`
  -- guards.
  unfoldable pub apply_one : (Node S M → Node S M) → Node S M → Node S M × Bool
  unfolding next_ready run_entry finish_apply
  apply_one other n = elim (next_ready n) [
    | idle ↦ (n, false)
    | covered ↦ (record n { last_applied = n.snapshot.last_included_index }, true)
    | entry e ↦ let (ran, result) = run_entry sm e n in finish_apply other e result (other ran)
  ]

  -- The loop, on fuel; other threads have the lock before each round.
  unfoldable pub apply_ready : ℕ → (Node S M → Node S M) → Node S M → Node S M
  unfolding apply_one
  apply_ready zero other n = n
  apply_ready (suc fuel) other n =
      let (next, more) = apply_one other (other n) in
      let rest = apply_ready fuel other next in if more then rest else next
