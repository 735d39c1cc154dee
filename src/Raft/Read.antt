-- ===== src/Raft/Read.antt =====
-- internal/raft/node.go: `LinearizableGet`. It only reads the node, in one critical section after
-- another; a pass of its loop is the node as each section sees it.
use go_raft_kv.Prelude.{
  ℕ, ◌+◌, String, not, ◌||◌, Option, none, some, List, [], ◌∷◌, ltb, ◌==◌, if◌then◌else◌, Result,
  ok, err,
}
use go_raft_kv.Raft.Types.{Error, node_stopped, StateMachine}
use go_raft_kv.Raft.Node.{Node, is_leader, not_leader_error}
use go_raft_kv.Raft.Barrier.{BarrierRun, ensure_quorum}

-- `readContext`, on the deadline that the context has.
unfoldable pub read_context : ℕ → ℕ → Option ℕ → Option ℕ
read_context now read_timeout none = if read_timeout == 0 then none else some (now + read_timeout)
read_context now read_timeout (some deadline) = some deadline

-- The section behind the barrier: the end of the call, another pass, or the index to wait for.
pub data Gate : Type 0 where
  refused : Error → Gate
  stale : Gate
  wait_for : ℕ → Gate

-- How a pass ends.
pub data PassEnd : Type 0 where
  finished : Result Error (Option String) → PassEnd
  repeat : PassEnd

module _ {S M : Type 0} where
  unfoldable pub read_gate : ℕ → Node S M → Gate
  unfolding not_leader_error
  read_gate term n =
      if n.stopped
      then refused node_stopped
      else if not (is_leader n.role)
      then refused (not_leader_error n)
      else if not (n.current_term == term)
      then stale
      else wait_for
          (if ltb n.commit_index n.leader_noop_index then n.leader_noop_index else n.commit_index)

  -- The checks that `waitUntilAppliedAsLeader` makes in its loop and once more behind it.
  unfoldable pub leader_trouble : ℕ → Node S M → Option Error
  unfolding not_leader_error
  leader_trouble term n = if n.stopped then some node_stopped else elim n.storage_fatal [
    | some e ↦ some e
    | none ↦
        if not (is_leader n.role) || not (n.current_term == term)
        then some (not_leader_error n)
        else none
  ]

  -- One wake-up: `none` to wait on, or the end of the wait with its error.
  unfoldable pub look : ℕ → ℕ → Node S M → Option Error → Option (Option Error)
  unfolding leader_trouble
  look index term n ctx =
      if ltb n.last_applied index
      then elim (leader_trouble term n) [
        | some e ↦ some (some e)
        | none ↦ elim ctx [ some e ↦ some (some e) | none ↦ none ]
      ]
      else some (leader_trouble term n)

  -- Over the nodes that the waiting call sees, each with the error of its context.
  unfoldable pub wait_until_applied_as_leader :
      ℕ → ℕ → List (Node S M × Option Error) → Option (Option Error)
  unfolding look
  wait_until_applied_as_leader index term [] = none
  wait_until_applied_as_leader index term ((n, ctx) ∷ looks) = elim (look index term n ctx) [
    | some e ↦ some e
    | none ↦ wait_until_applied_as_leader index term looks
  ]

pub record Pass (S M : Type 0) : Type 0 where
  pub barrier : BarrierRun S M
  pub gate : Node S M
  pub looks : List (Node S M × Option Error)
  pub reading : Node S M

module _ {S M : Type 0} (sm : StateMachine M) where
  unfoldable pub read_section : String → ℕ → Node S M → PassEnd
  unfolding not_leader_error
  read_section key term n =
      if n.stopped
      then finished (err node_stopped)
      else if not (is_leader n.role)
      then finished (err (not_leader_error n))
      else if not (n.current_term == term)
      then repeat
      else finished (ok (sm.read_value n.machine key))

  unfoldable pub after_wait : String → ℕ → Pass S M → Option (Option Error) → Option PassEnd
  unfolding read_section
  after_wait key term p none = none
  after_wait key term p (some (some e)) = some (finished (err e))
  after_wait key term p (some none) = some (read_section key term p.reading)

  unfoldable pub after_gate : String → ℕ → Pass S M → Gate → Option PassEnd
  unfolding after_wait wait_until_applied_as_leader
  after_gate key term p (refused e) = some (finished (err e))
  after_gate key term p stale = some repeat
  after_gate key term p (wait_for index) =
      after_wait key term p (wait_until_applied_as_leader index term p.looks)

  unfoldable pub after_barrier : String → Pass S M → Option (Result Error ℕ) → Option PassEnd
  unfolding after_gate read_gate
  after_barrier key p none = none
  after_barrier key p (some (err e)) = some (finished (err e))
  after_barrier key p (some (ok term)) = after_gate key term p (read_gate term p.gate)

  unfoldable pub run_pass : String → Pass S M → Option PassEnd
  unfolding after_barrier ensure_quorum
  run_pass key p = after_barrier key p (ensure_quorum p.barrier)

  -- The loop over its passes; `none` while the call has not returned.
  unfoldable pub linearizable_get : String → List (Pass S M) → Option (Result Error (Option String))
  unfolding run_pass
  linearizable_get key [] = none
  linearizable_get key (p ∷ passes) = elim (run_pass key p) [
    | none ↦ none
    | some (finished r) ↦ some r
    | some repeat ↦ linearizable_get key passes
  ]
