-- ===== src/Raft/Progress/Lead.antt =====
-- A candidate's and a leader's own steps (internal/raft/node.go) keep the node valid.
use go_raft_kv.Prelude.{
  ℕ, ◌+◌, ◌<◌, ◌≡◌, not, ◌||◌, arith, Option, none, some, [], ◌∷◌, ◌++◌, if◌then◌else◌, ◌==◌,
  if-cases, is_some,
}
use go_raft_kv.Prelude.Word.{u64_mod, inc64, inc64_exact}
use go_raft_kv.Storage.Types.{Command, LogEntry}
use go_raft_kv.Raft.Types.{RequestVoteRequest, Error, Store, Timer}
use go_raft_kv.Raft.Log.{last_index}
use go_raft_kv.Raft.Log.Suffix.{Contiguous-snoc, last_index_snoc, entry_at_snoc}
use go_raft_kv.Raft.Node.{Node, is_leader, is_candidate, fail_storage, not_leader_error}
use go_raft_kv.Raft.Commit.{advance_commit}
use go_raft_kv.Raft.Election.{
  become_candidate, ask_votes, start_election, start_leading, lead_with, become_leader, noop,
  with_noop,
}
use go_raft_kv.Raft.Propose.{
  Accepted, rejected, register_proposal, append_proposal, propose_append, with_proposal,
}
use go_raft_kv.Raft.Progress.{Keeps, Keeps-refl, Keeps-trans, Keeps-relog, SameLog-refl}
use go_raft_kv.Raft.Progress.Frames.{Frame, Frame-refl, Frame-Keeps, save_cases, fail_storage-Frame}
use go_raft_kv.Raft.Progress.Commit.{advance_commit-Keeps}

module _ {S M : Type 0} where
  -- One more entry behind the log.
  pub Keeps-snoc :
      (n : Node S M) (e : LogEntry)
      → e.index ≡ last_index n.snapshot n.log + 1
      → last_index n.snapshot n.log + 1 < u64_mod
      → Keeps n (record n { log = n.log ++ e ∷ [] })
  Keeps-snoc n e at room v =
      let c = v.contiguous in
      Keeps-relog n (n.log ++ e ∷ []) (Contiguous-snoc n.snapshot n.log e c at)
        (λ i h. entry_at_snoc n.snapshot n.log e c at i (omega (arith, v.committed)))
        (omega (arith, v.committed, last_index_snoc n.snapshot n.log e c at))
        (omega (arith, last_index_snoc n.snapshot n.log e c at)) v

module _ {S M : Type 0} (st : Store S) (t : Timer) where
  -- A new term is begun, so no vote of it existed; a failed save undoes the step.
  pub start_election-Frame :
      (n : Node S M) → n.current_term + 1 < u64_mod → Frame n (start_election st t n).0
  unfolding start_election
  start_election-Frame n room =
      let P : Node S M × Option RequestVoteRequest → Type 0 = λ r. Frame n r.0 in
      if-cases P (n.stopped || is_leader n.role || is_some n.storage_fatal) _ _ (λ _. Frame-refl n)
        λ _.
          save_cases st (λ r. P (ask_votes n r)) (become_candidate t n) n.commit_index
            (λ s _. (
              SameLog-refl n,
              record {
                terms = omega (arith, inc64_exact n.current_term room);
                votes = λ e _. absurd (omega (arith, inc64_exact n.current_term room));
              },
            ))
            (λ s e _. Frame-refl n)

  pub start_election-Keeps :
      (n : Node S M) → n.current_term + 1 < u64_mod → Keeps n (start_election st t n).0
  start_election-Keeps n room =
      Frame-Keeps n (start_election st t n).0 (start_election-Frame n room)

  lead_with-Keeps :
      (e : LogEntry) (n : Node S M) (r : S × Option Error)
      → e.index ≡ last_index n.snapshot n.log + 1
      → last_index n.snapshot n.log + 1 < u64_mod
      → Keeps n (lead_with st t e n r)
  unfolding lead_with
  lead_with-Keeps e n (s, some err) at room =
      Frame-Keeps n (fail_storage t err (record n { store = s }))
        (fail_storage-Frame t err (record n { store = s }))
  lead_with-Keeps e n (s, none) at room =
      let m : Node S M = with_noop e (record n { store = s }) in
      Keeps-trans n m (advance_commit st t m) (Keeps-snoc n e at room) (advance_commit-Keeps st t m)

  pub become_leader-Keeps :
      (term : ℕ) (n : Node S M)
      → last_index n.snapshot n.log + 1 < u64_mod
      → Keeps n (become_leader st t term n)
  unfolding become_leader
  become_leader-Keeps term n room =
      if-cases (Keeps n) (n.stopped || not (is_candidate n.role) || not (n.current_term == term)) _
        _ (λ _. Keeps-refl n)
        (λ _.
          lead_with-Keeps (noop (inc64 (last_index n.snapshot n.log)) term) (start_leading n) _
            (inc64_exact _ room) room)

  register_proposal-Keeps :
      (e : LogEntry) (n : Node S M) (r : S × Option Error)
      → e.index ≡ last_index n.snapshot n.log + 1
      → last_index n.snapshot n.log + 1 < u64_mod
      → Keeps n (register_proposal st t e n r).0
  unfolding register_proposal
  register_proposal-Keeps e n (s, some err) at room =
      Frame-Keeps n (fail_storage t err (record n { store = s }))
        (fail_storage-Frame t err (record n { store = s }))
  register_proposal-Keeps e n (s, none) at room =
      let m : Node S M = with_proposal e (record n { store = s }) in
      Keeps-trans n m (advance_commit st t m) (Keeps-snoc n e at room) (advance_commit-Keeps st t m)

  pub propose_append-Keeps :
      (command : Command) (n : Node S M)
      → last_index n.snapshot n.log + 1 < u64_mod
      → Keeps n (propose_append st t command n).0
  unfolding propose_append
  propose_append-Keeps command n room =
      if-cases (λ (r : Node S M × Accepted). Keeps n r.0) n.stopped _ _ (λ _. Keeps-refl n)
        (λ _. live n.storage_fatal)
    where
      live :
          (o : Option Error)
          → Keeps n (
              let x : Node S M × Accepted = elim o [
                | some e ↦ (n, rejected e)
                | none ↦
                    if not (is_leader n.role)
                    then (n, rejected (not_leader_error n))
                    else append_proposal st t command n
              ] in
              x.0)
      live (some e) = Keeps-refl n
      live none =
          if-cases (λ (r : Node S M × Accepted). Keeps n r.0) (not (is_leader n.role)) _ _
            (λ _. Keeps-refl n) (λ _. register_proposal-Keeps _ n _ (inc64_exact _ room) room)
