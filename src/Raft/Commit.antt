-- ===== src/Raft/Commit.antt =====
-- internal/raft/node.go: `advanceCommitLocked`, by which a leader commits what a majority holds.
use go_raft_kv.Prelude.{
  ℕ, zero, suc, ◌+◌, String, Bool, false, none, some, [], ◌∷◌, ltb, leb, ◌==◌, if◌then◌else◌,
}
use go_raft_kv.Prelude.Dict.{Dict}
use go_raft_kv.Raft.Types.{Store, Timer}
use go_raft_kv.Raft.Log.{last_index, term_at}
use go_raft_kv.Raft.Node.{Node, quorum, fail_storage, notify_apply}
use go_raft_kv.Raft.Persist.{persist_hard_state}

-- The peers whose match index has come to `index`.
unfoldable pub holders : Dict String → (String → ℕ) → ℕ → ℕ
holders [] match_index index = 0
holders ((peer, addr) ∷ peers) match_index index =
    (if leb index (match_index peer) then 1 else 0) + holders peers match_index index

module _ {S M : Type 0} where
  -- Whether `index` is of the current term and held by a majority, this node counted.
  unfoldable pub committable : ℕ → Node S M → Bool
  unfolding holders quorum
  committable index n = elim (term_at n.snapshot n.log index) [
    | none ↦ false
    | some term ↦
        if term == n.current_term
        then leb (quorum n) (1 + holders n.peer_addrs n.match_index index)
        else false
  ]

module _ {S M : Type 0} (st : Store S) where
  unfoldable pub commit_at : Timer → ℕ → Node S M → Node S M
  unfolding persist_hard_state fail_storage notify_apply
  commit_at t index n =
      let (saved, err) = persist_hard_state st (record n { commit_index = index }) in
      elim err [
        | some e ↦ fail_storage t e (record saved { commit_index = n.commit_index })
        | none ↦ notify_apply saved
      ]

  -- `for index := last; index > n.commitIndex; index--`
  unfoldable pub commit_loop : Timer → ℕ → Node S M → Node S M
  unfolding commit_at committable
  commit_loop t zero n = n
  commit_loop t (suc i) n =
      let rest = commit_loop t i n in
      if ltb n.commit_index (suc i)
      then if committable (suc i) n then commit_at t (suc i) n else rest
      else n

  unfoldable pub advance_commit : Timer → Node S M → Node S M
  unfolding commit_loop
  advance_commit t n = commit_loop t (last_index n.snapshot n.log) n
