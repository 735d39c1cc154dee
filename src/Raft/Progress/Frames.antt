-- ===== src/Raft/Progress/Frames.antt =====
-- Which parts of a node the shared methods of internal/raft/node.go leave alone.
use go_raft_kv.Prelude.{
  ap, sym, ℕ, ◌≡◌, ◌∙◌, refl, String, Bool, true, false, arith, Option, none, some, if◌then◌else◌,
  ltb, if-cases, Bool-cases, inl, inr,
}
use native.Mathlib.Nat.{le_refl}
use go_raft_kv.Storage.Types.{HardState}
use go_raft_kv.Raft.Types.{Role, follower, candidate, leader, Error, Store, Timer}
use go_raft_kv.Raft.Node.{Node, reset_election, fail_uncommitted_waiters, fail_storage}
use go_raft_kv.Raft.Persist.{
  save_hard_state, adopt_term, step_to_follower, leave_lead, become_follower_with_timer,
}
use go_raft_kv.Raft.Progress.{
  SameLog, SameLog-refl, SameLog-trans, VoteKeeps, VoteKeeps-trans, Keeps, SameLog-IsValid,
  SameLog-Advances,
}

-- The record that `saveHardStateLocked` writes.
abbrev pub hard_state_of : {S M : Type 0} → Node S M → ℕ → HardState
hard_state_of n commit = record {
  current_term = n.current_term;
  voted_for = n.voted_for;
  commit_index = commit;
}

module _ {S M : Type 0} (st : Store S) where
  -- The save succeeds, or it fails and leaves its error; either way only the store is changed.
  pub save_cases :
      (P : Node S M × Option Error → Type 0) (n : Node S M) (commit : ℕ)
      → ((s : S)
          → st.save_hard_state n.store (hard_state_of n commit) ≡ (s, none)
          → P (record n { store = s }, none))
      → ((s : S) (e : Error)
          → st.save_hard_state n.store (hard_state_of n commit) ≡ (s, some e)
          → P (record n { store = s; last_err = some e }, some e))
      → P (save_hard_state st n commit)
  unfolding save_hard_state
  save_cases P n commit good bad = go (st.save_hard_state n.store (hard_state_of n commit)) refl
    where
      go :
          (r : S × Option Error)
          → st.save_hard_state n.store (hard_state_of n commit) ≡ r
          → P (elim r.1 [
            | none ↦ (record n { store = r.0 }, none)
            | some e ↦ (record n { store = r.0; last_err = some e }, some e)
          ])
      go (s, none) h = good s h
      go (s, some e) h = bad s e h

module _ {S M : Type 0} where
  abbrev pub Frame : Node S M → Node S M → Type 0
  Frame n m = SameLog n m × VoteKeeps n m

  -- A change of parts that neither the log nor the vote depends on.
  pub VoteKeeps-refl : (n : Node S M) → VoteKeeps n n
  VoteKeeps-refl n = record { terms = le_refl _; votes = λ _ _. refl }

  pub Frame-refl : (n : Node S M) → Frame n n
  Frame-refl n = (SameLog-refl n, VoteKeeps-refl n)

  pub adopt_term-Frame : (term : ℕ) (n : Node S M) → Frame n (adopt_term term n)
  unfolding adopt_term
  adopt_term-Frame term n = elim (Bool-cases (ltb n.current_term term)) [
    | inr low ↦ rw low (Frame-refl n)
    | inl high ↦ rw high (
      record { snapshot = refl; log = refl; commit_index = refl; last_applied = refl },
      record { terms = ground arith; votes = λ e _. absurd (ground arith) },
    )
  ]

  pub Frame-trans : (n m o : Node S M) → Frame n m → Frame m o → Frame n o
  Frame-trans n m o a b = (SameLog-trans n m o a.0 b.0, VoteKeeps-trans n m o a.1 b.1)

  pub step_to_follower-Frame :
      (t : Timer) (reset : Bool) (term : ℕ) (leader_id : String) (n : Node S M)
      → Frame n (step_to_follower t reset term leader_id n)
  unfolding step_to_follower reset_election
  step_to_follower-Frame t true term leader_id n = adopt_term-Frame term n
  step_to_follower-Frame t false term leader_id n = adopt_term-Frame term n

  pub leave_lead-Frame : (r : Role) (n : Node S M) → Frame n (leave_lead r n)
  unfolding leave_lead fail_uncommitted_waiters
  leave_lead-Frame follower n = Frame-refl n
  leave_lead-Frame candidate n = Frame-refl n
  leave_lead-Frame leader n = Frame-refl n

  pub fail_storage-Frame : (t : Timer) (e : Error) (n : Node S M) → Frame n (fail_storage t e n)
  unfolding fail_storage
  fail_storage-Frame t e n = Frame-refl n

  pub Frame-Keeps : (n m : Node S M) → Frame n m → Keeps n m
  Frame-Keeps n m f v = (SameLog-IsValid n m f.0 v, SameLog-Advances n m f.0 f.1)

  pub become_follower_term :
      (t : Timer) (reset : Bool) (term : ℕ) (leader_id : String) (n : Node S M)
      → (step_to_follower t reset term leader_id n).current_term
        ≡ (if ltb n.current_term term then term else n.current_term)
  unfolding step_to_follower reset_election
  become_follower_term t true term leader_id n = ground arith
  become_follower_term t false term leader_id n = ground arith

  leave_lead-term : (r : Role) (n : Node S M) → (leave_lead r n).current_term ≡ n.current_term
  unfolding leave_lead fail_uncommitted_waiters
  leave_lead-term follower n = refl
  leave_lead-term candidate n = refl
  leave_lead-term leader n = refl

  leave_lead-store : (r : Role) (n : Node S M) → (leave_lead r n).store ≡ n.store
  unfolding leave_lead fail_uncommitted_waiters
  leave_lead-store follower n = refl
  leave_lead-store candidate n = refl
  leave_lead-store leader n = refl

  step_to_follower-store :
      (t : Timer) (reset : Bool) (term : ℕ) (leader_id : String) (n : Node S M)
      → (step_to_follower t reset term leader_id n).store ≡ n.store
  unfolding step_to_follower adopt_term reset_election
  step_to_follower-store t true term leader_id n =
      if-cases (λ (m : Node S M). m.store ≡ n.store) (ltb n.current_term term) _ _ (λ _. refl)
        (λ _. refl)
  step_to_follower-store t false term leader_id n =
      if-cases (λ (m : Node S M). m.store ≡ n.store) (ltb n.current_term term) _ _ (λ _. refl)
        (λ _. refl)

module _ {S M : Type 0} (st : Store S) where
  pub save-Frame : (n : Node S M) (commit : ℕ) → Frame n (save_hard_state st n commit).0
  save-Frame n commit =
      save_cases st (λ r. Frame n r.0) n commit (λ s _. Frame-refl n) (λ s e _. Frame-refl n)

  -- Stepping down changes neither the log nor the vote within a term.
  pub become_follower-Frame :
      (t : Timer) (reset : Bool) (term : ℕ) (leader_id : String) (n : Node S M)
      → Frame n (become_follower_with_timer st t reset term leader_id n).0
  unfolding become_follower_with_timer
  become_follower-Frame t reset term leader_id n =
      let m = step_to_follower t reset term leader_id n in
      let f = step_to_follower-Frame t reset term leader_id n in
      save_cases st
        (λ r. Frame n (
          let x : Node S M × Option Error = elim r.1 [
            | some e ↦ (fail_storage t e r.0, some e)
            | none ↦ (leave_lead n.role r.0, none)
          ] in
          x.0))
        m m.commit_index
        (λ s _.
          Frame-trans n m (leave_lead n.role (record m { store = s })) f
            (leave_lead-Frame n.role (record m { store = s })))
        (λ s e _.
          Frame-trans n m (fail_storage t e (record m { store = s; last_err = some e })) f
            (fail_storage-Frame t e (record m { store = s; last_err = some e })))

  -- The term after a step down is the larger of the two.
  pub become_follower-term :
      (t : Timer) (reset : Bool) (term : ℕ) (leader_id : String) (n : Node S M)
      → (become_follower_with_timer st t reset term leader_id n).0.current_term
        ≡ (if ltb n.current_term term then term else n.current_term)
  unfolding become_follower_with_timer
  become_follower-term t reset term leader_id n =
      let m = step_to_follower t reset term leader_id n in
      let same = become_follower_term t reset term leader_id n in
      save_cases st
        (λ r.
          (let x : Node S M × Option Error = elim r.1 [
            | some e ↦ (fail_storage t e r.0, some e)
            | none ↦ (leave_lead n.role r.0, none)
          ] in
            x.0.current_term)
          ≡ (if ltb n.current_term term then term else n.current_term))
        m m.commit_index (λ s _. leave_lead-term n.role (record m { store = s }) ∙ same)
        (λ s e _. unfold fail_storage in same)

  -- The store of `m` comes from one save without an error on the store of `n`.
  abbrev pub Saved : Node S M → Node S M → Type 0
  Saved n m = (h : HardState) × (st.save_hard_state n.store h ≡ (m.store, none))

  pub become_follower-Saved :
      (t : Timer) (reset : Bool) (term : ℕ) (leader_id : String) (n : Node S M)
      → let r = become_follower_with_timer st t reset term leader_id n in r.1 ≡ none → Saved n r.0
  unfolding become_follower_with_timer
  become_follower-Saved t reset term leader_id n =
      let m = step_to_follower t reset term leader_id n in
      save_cases st
        (λ r.
          let x : Node S M × Option Error = elim r.1 [
            | some e ↦ (fail_storage t e r.0, some e)
            | none ↦ (leave_lead n.role r.0, none)
          ] in
          x.1 ≡ none → Saved n x.0)
        m m.commit_index
        (λ s h _. (
          hard_state_of m m.commit_index,
          rw (leave_lead-store n.role (record m { store = s })) (
              ap (λ z. st.save_hard_state z (hard_state_of m m.commit_index))
                (sym (step_to_follower-store t reset term leader_id n))
              ∙ h),
        ))
        (λ s e _ none_failed. absurd (ground arith))

  -- What follows a step down may use that it left the log and the vote alone.
  pub become_cases :
      (P : Node S M × Option Error → Type 0) (t : Timer) (reset : Bool) (term : ℕ)
      (leader_id : String) (n : Node S M)
      → ((m : Node S M)
          → Frame n m
          → m.current_term ≡ (if ltb n.current_term term then term else n.current_term)
          → P (m, none))
      → ((m : Node S M) (e : Error) → Frame n m → P (m, some e))
      → P (become_follower_with_timer st t reset term leader_id n)
  become_cases P t reset term leader_id n good bad =
      go (become_follower_with_timer st t reset term leader_id n)
        (become_follower-Frame t reset term leader_id n)
        (become_follower-term t reset term leader_id n)
    where
      go :
          (r : Node S M × Option Error)
          → Frame n r.0
          → r.0.current_term ≡ (if ltb n.current_term term then term else n.current_term)
          → P r
      go (m, none) f h = good m f h
      go (m, some e) f h = bad m e f
