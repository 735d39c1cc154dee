-- ===== src/Raft/Persist.antt =====
-- internal/raft/node.go: saving the hard state, and the transition to follower.
use go_raft_kv.Prelude.{
  ℕ, String, Bool, true, false, not, ◌||◌, Option, none, some, ltb, if◌then◌else◌,
}
use go_raft_kv.Raft.Types.{Role, follower, Error, Store, Timer}
use go_raft_kv.Raft.Node.{
  Node, is_leader, is_follower, reset_election, fail_uncommitted_waiters, fail_storage,
}

module _ {S M : Type 0} where
  -- A higher term is adopted, and the vote of the old one dropped.
  unfoldable pub adopt_term : ℕ → Node S M → Node S M
  adopt_term term n =
      if ltb n.current_term term then record n { current_term = term; voted_for = "" } else n

  -- `becomeFollowerWithTimerLocked` up to the save of the hard state
  unfoldable pub step_to_follower : Timer → Bool → ℕ → String → Node S M → Node S M
  unfolding adopt_term reset_election
  step_to_follower t reset term leader_id n =
      let stepped = record (adopt_term term n) {
        role = follower;
        leader_id = leader_id;
        leader_noop_index = 0;
      } in
      if reset then reset_election t stepped else stepped

  -- A former leader tells the waiters whose entries are not committed.
  unfoldable pub leave_lead : Role → Node S M → Node S M
  unfolding fail_uncommitted_waiters
  leave_lead previous n = if is_leader previous then fail_uncommitted_waiters n else n

module _ {S M : Type 0} (st : Store S) where
  unfoldable pub save_hard_state : Node S M → ℕ → Node S M × Option Error
  save_hard_state n commit =
      let (s, err) = st.save_hard_state n.store (record {
        current_term = n.current_term;
        voted_for = n.voted_for;
        commit_index = commit;
      }) in
      elim err [
        | none ↦ (record n { store = s }, none)
        | some e ↦ (record n { store = s; last_err = some e }, some e)
      ]

  unfoldable pub persist_hard_state : Node S M → Node S M × Option Error
  unfolding save_hard_state
  persist_hard_state n = save_hard_state n n.commit_index

  unfoldable pub become_follower_with_timer :
      Timer → Bool → ℕ → String → Node S M → Node S M × Option Error
  unfolding persist_hard_state fail_storage step_to_follower leave_lead
  become_follower_with_timer t reset term leader_id n =
      let (saved, err) = persist_hard_state (step_to_follower t reset term leader_id n) in
      elim err [
        | some e ↦ (fail_storage t e saved, some e)
        | none ↦ (leave_lead n.role saved, none)
      ]

  unfoldable pub become_follower : Timer → ℕ → String → Node S M → Node S M × Option Error
  unfolding become_follower_with_timer
  become_follower t term leader_id n = become_follower_with_timer t true term leader_id n

  unfoldable pub become_follower_for_vote : Timer → ℕ → Node S M → Node S M × Option Error
  unfolding become_follower_with_timer
  become_follower_for_vote t term n = become_follower_with_timer t false term "" n

  -- What a handler does on a message of a leader of this or a later term.
  unfoldable pub heed_leader : Timer → ℕ → String → Node S M → Node S M × Option Error
  unfolding become_follower reset_election
  heed_leader t term leader_id n =
      if ltb n.current_term term || not (is_follower n.role)
      then (let (stepped, err) = become_follower t term leader_id n in
          elim err [
            | some e ↦ (stepped, some e)
            | none ↦ (reset_election t (record stepped { leader_id = leader_id }), none)
          ])
      else (reset_election t (record n { leader_id = leader_id }), none)
