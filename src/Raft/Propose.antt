-- ===== src/Raft/Propose.antt =====
-- internal/raft/node.go: `Propose`, from the append under the locks to what the waiter receives.
use go_raft_kv.Prelude.{
  ℕ, ◌+◌, not, ◌&&◌, Option, none, some, [], ◌∷◌, ◌++◌, ◌==◌, if◌then◌else◌, keep, str_eq,
}
use go_raft_kv.Prelude.Word.{inc64}
use go_raft_kv.Storage.Types.{Command, ApplyResult, LogEntry}
use go_raft_kv.Raft.Types.{
  Error, node_stopped, proposal_unknown, context_done, message, ApplyOutcome, Store, Timer,
}
use go_raft_kv.Raft.Log.{last_index}
use go_raft_kv.Raft.Node.{
  Node, is_leader, not_leader_error, fail_storage, update, no_result, kick_replication,
}
use go_raft_kv.Raft.Commit.{advance_commit}

-- A refusal, or the waiter's channel and the index of the entry.
pub data Accepted : Type 0 where
  rejected : Error → Accepted
  accepted : ℕ → ℕ → Accepted

module _ {S M : Type 0} where
  abbrev pub with_proposal : LogEntry → Node S M → Node S M
  with_proposal entry n = record n {
    log = n.log ++ entry ∷ [];
    match_index = update n.match_index n.id entry.index;
    next_index = update n.next_index n.id (inc64 entry.index);
    waiters = n.waiters ++ (entry.index, n.next_waiter) ∷ [];
    next_waiter = n.next_waiter + 1;
  }

module _ {S M : Type 0} (st : Store S) where
  -- What follows the write of the entry.
  unfoldable pub register_proposal :
      Timer → LogEntry → Node S M → S × Option Error → Node S M × Accepted
  unfolding fail_storage advance_commit
  register_proposal t entry n (s, some e) = (fail_storage t e (record n { store = s }), rejected e)
  register_proposal t entry n (s, none) = (
    advance_commit st t (with_proposal entry (record n { store = s })),
    accepted n.next_waiter entry.index,
  )

  -- The write comes before any change of memory.
  unfoldable pub append_proposal : Timer → Command → Node S M → Node S M × Accepted
  unfolding register_proposal
  append_proposal t command n =
      let entry : LogEntry = record {
        index = inc64 (last_index n.snapshot n.log);
        term = n.current_term;
        command = command;
      } in
      register_proposal t entry n (st.append_entries n.store (entry ∷ []))

  unfoldable pub propose_append : Timer → Command → Node S M → Node S M × Accepted
  unfolding append_proposal not_leader_error
  propose_append t command n =
      if n.stopped then (n, rejected node_stopped) else elim n.storage_fatal [
        | some e ↦ (n, rejected e)
        | none ↦
            if not (is_leader n.role)
            then (n, rejected (not_leader_error n))
            else append_proposal t command n
      ]

module _ {S M : Type 0} where
  -- A channel waits for one index once, so the loop's `break` is not modelled.
  unfoldable pub remove_waiter : ℕ → ℕ → Node S M → Node S M
  remove_waiter index waiter n = record n {
    waiters = keep (λ (w : ℕ × ℕ). not (w.0 == index && w.1 == waiter)) n.waiters;
  }

unfoldable pub result_from_outcome : ApplyOutcome → ApplyResult × Option Error
result_from_outcome o = elim o.err [
  | some e ↦ (no_result, some e)
  | none ↦
      if not o.result.ok && not (str_eq o.result.error "")
      then (o.result, some (message o.result.error))
      else (o.result, none)
]

-- What wakes the caller: an outcome, or the end of its context, with the outcome that may have been
-- sent before the waiter was removed.
pub data Wakeup : Type 0 where
  outcome : ApplyOutcome → Wakeup
  cancelled : Option ApplyOutcome → Wakeup

unfoldable pub propose_result : ℕ → Wakeup → ApplyResult × Option Error
unfolding result_from_outcome
propose_result index (outcome o) = result_from_outcome o
propose_result index (cancelled (some o)) = result_from_outcome o
propose_result index (cancelled none) = (no_result, some (proposal_unknown index context_done))

module _ {S M : Type 0} where
  -- What follows the append: the kick of the replication, the wait and the result.
  unfoldable pub answer_proposal :
      Wakeup → Node S M × Accepted → Node S M × ApplyResult × Option Error
  unfolding kick_replication remove_waiter propose_result
  answer_proposal wakeup (n, rejected e) = (n, no_result, some e)
  answer_proposal (outcome o) (n, accepted waiter index) =
      let (result, e) = propose_result index (outcome o) in (kick_replication n, result, e)
  answer_proposal (cancelled o) (n, accepted waiter index) =
      let (result, e) = propose_result index (cancelled o) in
      (remove_waiter index waiter (kick_replication n), result, e)

module _ {S M : Type 0} (st : Store S) where
  -- `Propose` once the context is live.
  unfoldable pub propose :
      Timer → Command → Wakeup → Node S M → Node S M × ApplyResult × Option Error
  unfolding propose_append answer_proposal
  propose t command wakeup n = answer_proposal wakeup (propose_append st t command n)
