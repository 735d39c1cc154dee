-- ===== src/Raft/Progress/Append.antt =====
-- `HandleAppendEntries` of internal/raft/node.go keeps the node valid and its committed entries.
use go_raft_kv.Prelude.{
  ℕ, ◌+◌, ◌≤◌, ◌<◌, ◌≡◌, not, arith, Option, none, some, List, ltb, if-cases, min,
}
use go_raft_kv.Prelude.Word.{u64_mod}
use go_raft_kv.Storage.Types.{LogEntry}
use go_raft_kv.Raft.Types.{AppendEntriesRequest, AppendEntriesResponse, Error, Store, Timer}
use go_raft_kv.Raft.Log.{last_index, term_at}
use go_raft_kv.Raft.Log.Contiguous.{term_at_inside}
use go_raft_kv.Raft.Merge.{MergeEntriesResult, merge_entries, has_term}
use go_raft_kv.Raft.Merge.Outcome.{has_term_lem}
use go_raft_kv.Raft.Merge.Validate.{InRange}
use go_raft_kv.Raft.Merge.Safety.{
  Mergeable, merge_entries-Contiguous, merge_entries_committed, merge_entries_last,
  merge_entries_bounded, merge_entries-Agrees,
}
use go_raft_kv.Raft.Node.{Node, turns_away, fail_storage, notify_apply}
use go_raft_kv.Raft.Append.{
  refuse_append, accept_append, store_merged, commit_stored, append_as_follower,
  advance_follower_commit, merge_and_store, check_previous, handle_append_entries,
}
use go_raft_kv.Raft.Progress.{
  IsValid, Advances, Keeps, Keeps-refl, Keeps-trans, Keeps-relog, Keeps-recommit,
}
use go_raft_kv.Raft.Progress.Heed.{heed_cases}
use go_raft_kv.Raft.Progress.Frames.{Frame-Keeps, fail_storage-Frame, save_cases}

-- What the transport's types and a correct leader give: entries above the follower's snapshot, and
-- indexes below the largest uint64. Whether they are contiguous is checked by the handler.
abbrev pub Fits : {S M : Type 0} → AppendEntriesRequest → Node S M → Type 0
Fits req n = record {
  in_range : InRange n.snapshot req.entries;
  room : req.prev_log_index + 1 < u64_mod;
}

module _ {S M : Type 0} (st : Store S) where
  pub advance_follower_commit-Keeps :
      (commit : ℕ) (n : Node S M)
      → commit ≤ last_index n.snapshot n.log
      → Keeps n (advance_follower_commit st commit n).0
  unfolding advance_follower_commit
  advance_follower_commit-Keeps commit n h =
      if-cases (λ (r : Node S M × AppendEntriesResponse). Keeps n r.0) (ltb n.commit_index commit) _
        _
        (λ less.
          save_cases st
            (λ r. Keeps n (
              let x : Node S M × AppendEntriesResponse = elim r.1 [
                | some e ↦ refuse_append (record r.0 { commit_index = n.commit_index }) 0
                | none ↦ accept_append (notify_apply r.0)
              ] in
              x.0))
            (record n { commit_index = commit }) commit
            (λ s _. Keeps-recommit n commit (ground arith) h) (λ s e _. Keeps-refl n))
        (λ _. Keeps-refl n)

  -- The write of the log changes the store alone.
  pub store_cases :
      (P : Node S M × Option Error → Type 0) (merge : MergeEntriesResult) (n : Node S M)
      → ((s : S) (e : Option Error) → P (record n { store = s }, e))
      → P (store_merged st merge n)
  unfolding store_merged
  store_cases P merge n h = if-cases P merge.changed _ _ (λ _. h _ _) (λ _. h n.store none)

module _ {S M : Type 0} (st : Store S) (t : Timer) (req : AppendEntriesRequest) where
  commit_stored-Keeps :
      (n : Node S M) (log : List LogEntry) (commit : ℕ) (s : S) (e : Option Error)
      → Keeps n (record n { log = log })
      → commit ≤ last_index n.snapshot log
      → Keeps n (commit_stored st t n.log commit (record n { log = log; store = s }, e)).0
  unfolding commit_stored
  commit_stored-Keeps n log commit s (some e) k h =
      Frame-Keeps n (fail_storage t e (record n { store = s }))
        (fail_storage-Frame t e (record n { store = s }))
  commit_stored-Keeps n log commit s none k h =
      let m = record n { log = log; store = s } in
      Keeps-trans n m (advance_follower_commit st commit m).0 k
        (advance_follower_commit-Keeps st commit m h)

  merge_and_store-Keeps :
      (n : Node S M)
      → Fits req n
      → IsValid n
      → n.snapshot.last_included_index ≤ req.prev_log_index
      → req.prev_log_index ≤ last_index n.snapshot n.log
      → Keeps n (merge_and_store st t req n).0
  unfolding merge_and_store
  merge_and_store-Keeps n fits v low high =
      if-cases (λ (r : Node S M × AppendEntriesResponse). Keeps n r.0) (ltb 0 res.1.conflict_index)
        _ _ (λ _. relogged)
        (λ agreed.
          let k = merge_entries-Agrees _ _ _ _ _ m (ground arith) in
          let commit = min req.leader_commit res.1.last_new_index in
          store_cases st (λ r. Keeps n (commit_stored st t n.log commit r).0) res.1
            (record n { log = res.0 })
            (λ s e. commit_stored-Keeps n res.0 commit s e relogged (omega (arith, k.2, k.3))))
    where
      m : Mergeable n.snapshot n.commit_index n.log req.prev_log_index req.entries
      m = record {
        contiguous = v.contiguous;
        above = low;
        inside = high;
        committed = v.committed;
        room = fits.room;
        in_range = fits.in_range;
      }

      res : List LogEntry × MergeEntriesResult
      res = merge_entries n.snapshot n.commit_index n.log req.prev_log_index req.entries

      relogged : Keeps n (record n { log = res.0 })
      relogged =
          Keeps-relog n res.0 (merge_entries-Contiguous _ _ _ _ _ m)
            (merge_entries_committed _ _ _ _ _ m) (merge_entries_last _ _ _ _ _ m)
            (merge_entries_bounded _ _ _ _ _ m v.bounded)

  check_previous-Keeps : (n : Node S M) → Fits req n → Keeps n (check_previous st t req n).0
  unfolding check_previous
  check_previous-Keeps n fits v =
      let P : Node S M × AppendEntriesResponse → Type 0 = λ r. IsValid r.0 × Advances n r.0 in
      if-cases P (ltb req.prev_log_index n.snapshot.last_included_index) _ _ (λ _. Keeps-refl n v)
        λ above.
          if-cases P
            (not (has_term (term_at n.snapshot n.log req.prev_log_index) req.prev_log_term)) _ _
            (λ _. Keeps-refl n v)
            (λ found.
              let known : term_at n.snapshot n.log req.prev_log_index ≡ some req.prev_log_term =
                has_term_lem _ _ (ground arith) in
              merge_and_store-Keeps n fits v (ground arith)
                (term_at_inside n.snapshot n.log req.prev_log_index v.contiguous known) v)

  -- An AppendEntries request whose entries are above the node's snapshot, with indexes below the
  -- largest uint64, leaves a valid node valid on every branch, failed writes included; no term or
  -- index of the node falls, a vote is kept within its term, and committed entries stay.
  pub handle_append_entries-Keeps :
      (n : Node S M)
      → Fits req n
      → IsValid n
      → IsValid (handle_append_entries st t req n).0
        × Advances n (handle_append_entries st t req n).0
  unfolding handle_append_entries
  handle_append_entries-Keeps n fits =
      if-cases (λ (r : Node S M × AppendEntriesResponse). Keeps n r.0)
        (turns_away n req.leader_id req.term) _ _ (λ _. Keeps-refl n)
        (λ _.
          heed_cases st (λ r. Keeps n (append_as_follower st t req r).0) t req.term req.leader_id n
            (λ m f _.
              let here : Fits req m = rw f.0.snapshot fits in
              Keeps-trans n m (check_previous st t req m).0 (Frame-Keeps n m f)
                (check_previous-Keeps m here))
            (λ m e f. Frame-Keeps n m f))
