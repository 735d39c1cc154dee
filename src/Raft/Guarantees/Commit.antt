-- ===== src/Raft/Guarantees/Commit.antt =====
-- `advanceCommitLocked` of internal/raft/node.go commits the largest index that Raft's rule allows.
use go_raft_kv.Prelude.{
  ℕ, zero, suc, ◌+◌, ◌≤◌, ◌<◌, ◌≡◌, refl, ◌⊎◌, inl, inr, true, false, arith, Option, none, some,
  if◌then◌else◌, ltb, leb, ◌==◌, if-cases, is_some,
}
use native.Mathlib.Nat.{le_refl}
use native.Mathlib.Decide.{dec_lt}
use go_raft_kv.Raft.Types.{follower, Store, Timer}
use go_raft_kv.Raft.Log.{last_index, term_at}
use go_raft_kv.Raft.Node.{Node, quorum, fail_storage, notify_apply}
use go_raft_kv.Raft.Commit.{holders, commit_at, committable, commit_loop, advance_commit}
use go_raft_kv.Raft.Progress.Frames.{hard_state_of, save_cases}

module _ {S M : Type 0} where
  -- An entry of the current term that this node and enough peers for a quorum hold.
  abbrev pub IsCommittable : ℕ → Node S M → Type 0
  IsCommittable i n =
      (term_at n.snapshot n.log i ≡ some n.current_term)
      × (quorum n ≤ 1 + holders n.peer_addrs n.match_index i)

  committable_sound : (i : ℕ) (n : Node S M) → committable i n ≡ true → IsCommittable i n
  unfolding committable
  committable_sound i n h = go (term_at n.snapshot n.log i) h
    where
      go :
          (o : Option ℕ)
          → (elim o [
            | none ↦ false
            | some term ↦
                if term == n.current_term
                then leb (quorum n) (1 + holders n.peer_addrs n.match_index i)
                else false
          ])
            ≡ true
          → (o ≡ some n.current_term) × (quorum n ≤ 1 + holders n.peer_addrs n.match_index i)
      go none h = absurd (ground arith)
      go (some term) h = ground arith

  committable_complete : (i : ℕ) (n : Node S M) → IsCommittable i n → committable i n ≡ true
  unfolding committable
  committable_complete i n (at, enough) = rw (at, committable) (ground arith)

  -- What became of the commit of an index: it is saved and the apply loop is told, or the save failed
  -- and the node has stopped leading with its commit index as before.
  abbrev pub CommitResult : Store S → ℕ → Node S M → Node S M → Type 0
  CommitResult st i n m =
      ((m.commit_index ≡ i)
        × (m.apply_ch ≡ true)
        × (st.save_hard_state n.store (hard_state_of n i) ≡ (m.store, none)))
      ⊎ ((m.commit_index ≡ n.commit_index) × (m.role ≡ follower) × (is_some m.storage_fatal ≡ true))

module _ {S M : Type 0} (st : Store S) (t : Timer) where
  commit_at_result : (i : ℕ) (n : Node S M) → CommitResult st i n (commit_at st t i n)
  unfolding commit_at
  commit_at_result i n =
      save_cases st
        (λ r. CommitResult st i n (elim r.1 [
          | some e ↦ fail_storage t e (record r.0 { commit_index = n.commit_index })
          | none ↦ notify_apply r.0
        ]))
        (record n { commit_index = i }) i (λ s h. unfold notify_apply in inl (refl, refl, h))
        (λ s e _. unfold fail_storage in inr (refl, refl, refl))

  -- `top` is the last index, or the one at which the loop stands.
  abbrev pub CommitsLargest : ℕ → Node S M → Node S M → Type 0
  CommitsLargest top n m =
      (((i : ℕ) → n.commit_index < i → i ≤ top → ¬ IsCommittable i n) × (m ≡ n))
      ⊎ ((i : ℕ) × (n.commit_index < i)
          × (i ≤ top)
          × IsCommittable i n
          × ((j : ℕ) → i < j → j ≤ top → ¬ IsCommittable j n)
          × CommitResult st i n m)

  commit_loop_largest : (top : ℕ) (n : Node S M) → CommitsLargest top n (commit_loop st t top n)
  unfolding commit_loop
  commit_loop_largest zero n = inl (λ i low high. absurd (omega arith), refl)
  commit_loop_largest (suc top) n =
      if-cases (CommitsLargest (suc top) n) (ltb n.commit_index (suc top)) _ _
        (λ less.
          if-cases (CommitsLargest (suc top) n) (committable (suc top) n) _ _
            (λ h. inr (
              suc top,
              ground arith,
              le_refl _,
              committable_sound (suc top) n h,
              λ j low high. absurd (omega arith),
              commit_at_result (suc top) n,
            ))
            (λ h. later h (commit_loop_largest top n)))
        (λ not_less. inl (λ i low high. absurd (ground arith), refl))
    where
      higher :
          committable (suc top) n ≡ false
          → (k : ℕ) → ((j : ℕ) → k < j → j ≤ top → ¬ IsCommittable j n)
          → (j : ℕ) → k < j
          → j ≤ suc top
          → ¬ IsCommittable j n
      higher h k rest j low high c = elim (dec_lt j (suc top)) [
        | yes below ↦ rest j low (omega arith) c
        | no at ↦
            let e : j ≡ suc top = omega arith in
            let t = committable_complete j n c in absurd (ground arith)
      ]

      later :
          committable (suc top) n ≡ false
          → CommitsLargest top n (commit_loop st t top n)
          → CommitsLargest (suc top) n (commit_loop st t top n)
      later h (inl (rest, same)) = inl (higher h n.commit_index rest, same)
      later h (inr (i, low, high, c, rest, result)) =
          inr (i, low, omega arith, c, higher h i rest, result)

  -- If no index above the commit index has an entry of the current term that a quorum holds, nothing
  -- changes. Else the largest such index is committed, or the failed save of it stops the leader.
  pub advance_commit_largest :
      (n : Node S M) → CommitsLargest (last_index n.snapshot n.log) n (advance_commit st t n)
  unfolding advance_commit
  advance_commit_largest n = commit_loop_largest (last_index n.snapshot n.log) n
