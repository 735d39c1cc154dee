-- ===== src/Raft/Progress/Commit.antt =====
-- `advanceCommitLocked` of internal/raft/node.go keeps the node valid.
use go_raft_kv.Prelude.{ℕ, zero, suc, ◌≤◌, arith, none, some, ltb, if-cases}
use native.Mathlib.Nat.{le_refl}
use go_raft_kv.Raft.Types.{Store, Timer}
use go_raft_kv.Raft.Log.{last_index}
use go_raft_kv.Raft.Node.{Node, fail_storage, notify_apply}
use go_raft_kv.Raft.Commit.{commit_at, committable, commit_loop, advance_commit}
use go_raft_kv.Raft.Progress.{Keeps, Keeps-refl, Keeps-recommit}
use go_raft_kv.Raft.Progress.Frames.{Frame-Keeps, save_cases, fail_storage-Frame}

module _ {S M : Type 0} (st : Store S) (t : Timer) where
  commit_at-Keeps :
      (index : ℕ) (n : Node S M)
      → n.commit_index ≤ index
      → index ≤ last_index n.snapshot n.log
      → Keeps n (commit_at st t index n)
  unfolding commit_at
  commit_at-Keeps index n up top =
      save_cases st
        (λ r. Keeps n (elim r.1 [
          | some e ↦ fail_storage t e (record r.0 { commit_index = n.commit_index })
          | none ↦ notify_apply r.0
        ]))
        (record n { commit_index = index }) index (λ s _. Keeps-recommit n index up top)
        (λ s e _.
          Frame-Keeps n (fail_storage t e (record n { store = s; last_err = some e }))
            (fail_storage-Frame t e (record n { store = s; last_err = some e })))

  commit_loop-Keeps :
      (i : ℕ) (n : Node S M) → i ≤ last_index n.snapshot n.log → Keeps n (commit_loop st t i n)
  unfolding commit_loop
  commit_loop-Keeps zero n top = Keeps-refl n
  commit_loop-Keeps (suc i) n top =
      if-cases (Keeps n) (ltb n.commit_index (suc i)) _ _
        (λ less.
          if-cases (Keeps n) (committable (suc i) n) _ _
            (λ _. commit_at-Keeps (suc i) n (ground arith) top)
            (λ _. commit_loop-Keeps i n (omega arith)))
        (λ _. Keeps-refl n)

  pub advance_commit-Keeps : (n : Node S M) → Keeps n (advance_commit st t n)
  unfolding advance_commit
  advance_commit-Keeps n = commit_loop-Keeps (last_index n.snapshot n.log) n (le_refl _)
