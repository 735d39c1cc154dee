-- ===== src/Raft/Guarantees/Append.antt =====
-- What a successful answer of `HandleAppendEntries` (internal/raft/node.go) tells the leader.
use go_raft_kv.Prelude.{
  ℕ, ◌+◌, ◌≤◌, ◌≡◌, refl, true, not, arith, Option, none, some, List, ltb, if-cases, length, min,
  max,
}
use go_raft_kv.Storage.Types.{LogEntry}
use go_raft_kv.Raft.Types.{AppendEntriesRequest, AppendEntriesResponse, Error, Store, Timer}
use go_raft_kv.Raft.Log.{last_index, term_at}
use go_raft_kv.Raft.Log.Contiguous.{Contiguous, term_at_inside}
use go_raft_kv.Raft.Merge.{MergeEntriesResult, merge_entries, has_term}
use go_raft_kv.Raft.Merge.Outcome.{Agrees, has_term_lem}
use go_raft_kv.Raft.Merge.Safety.{Mergeable, merge_entries-Agrees}
use go_raft_kv.Raft.Node.{Node, turns_away, notify_apply}
use go_raft_kv.Raft.Append.{
  refuse_append, accept_append, commit_stored, append_as_follower, advance_follower_commit,
  merge_and_store, check_previous, handle_append_entries,
}
use go_raft_kv.Raft.Progress.{IsValid, SameLog, SameLog-IsValid}
use go_raft_kv.Raft.Progress.Heed.{heed_cases}
use go_raft_kv.Raft.Progress.Frames.{save_cases}
use go_raft_kv.Raft.Progress.Append.{Fits, store_cases}

-- `n` is the node before the request and `m` after it.
abbrev pub Replicated :
    {S M : Type 0} → AppendEntriesRequest → Node S M → Node S M → AppendEntriesResponse → Type 0
Replicated req n m resp = record {
  in_term : resp.term ≡ m.current_term;
  previous : term_at n.snapshot n.log req.prev_log_index ≡ some req.prev_log_term;
  contiguous : Contiguous req.prev_log_index req.entries;
  holds : Agrees m.snapshot m.log req.entries;
  reaches : req.prev_log_index + length req.entries ≤ last_index m.snapshot m.log;
  commits :
      m.commit_index
      ≡ max n.commit_index (min req.leader_commit (req.prev_log_index + length req.entries));
  reported : resp.last_log_index ≡ last_index m.snapshot m.log;
}

module _ {S M : Type 0} where
  -- The commit index is the larger of the two, and the log stays.
  abbrev Committed : ℕ → Node S M → Node S M × AppendEntriesResponse → Type 0
  Committed commit n r =
      (r.1.term ≡ r.0.current_term)
      × (r.0.current_term ≡ n.current_term)
      × (r.0.snapshot ≡ n.snapshot)
      × (r.0.log ≡ n.log)
      × (r.0.commit_index ≡ max n.commit_index commit)
      × (r.1.last_log_index ≡ last_index r.0.snapshot r.0.log)

module _ {S M : Type 0} (st : Store S) where
  advance_follower_commit_success :
      (commit : ℕ) (n : Node S M)
      → (advance_follower_commit st commit n).1.success ≡ true
      → Committed commit n (advance_follower_commit st commit n)
  unfolding advance_follower_commit
  advance_follower_commit_success commit n =
      let P : Node S M × AppendEntriesResponse → Type 0 =
        λ r. r.1.success ≡ true → Committed commit n r in
      if-cases P (ltb n.commit_index commit) _ _
        (λ less.
          save_cases st
            (λ r. P (elim r.1 [
              | some e ↦ refuse_append (record r.0 { commit_index = n.commit_index }) 0
              | none ↦ accept_append (notify_apply r.0)
            ]))
            (record n { commit_index = commit }) commit
            (λ s _ _. (refl, refl, refl, refl, ground arith, refl))
            (λ s e _ failed. absurd (ground arith)))
        (λ not_less _. (refl, refl, refl, refl, ground arith, refl))

module _ {S M : Type 0} (req : AppendEntriesRequest) where
  Replicated-from :
      (n merged : Node S M) (commit last : ℕ) (r : Node S M × AppendEntriesResponse)
      → merged.snapshot ≡ n.snapshot
      → merged.commit_index ≡ n.commit_index
      → term_at n.snapshot n.log req.prev_log_index ≡ some req.prev_log_term
      → Contiguous req.prev_log_index req.entries
      → Agrees merged.snapshot merged.log req.entries
      → req.prev_log_index + length req.entries ≤ last_index merged.snapshot merged.log
      → last ≡ req.prev_log_index + length req.entries
      → commit ≡ min req.leader_commit last
      → Committed commit merged r
      → Replicated req n r.0 r.1
  Replicated-from n merged commit last r sn cm known c a top l e (t₁, t₂, s, lg, k, rep) = record {
    in_term = t₁;
    previous = known;
    contiguous = c;
    holds = rw (s, lg) a;
    reaches = rw (s, lg) top;
    commits = rw (k, cm, e, l) refl;
    reported = rep;
  }

module _ {S M : Type 0} (st : Store S) (t : Timer) (req : AppendEntriesRequest) where
  merge_and_store_success :
      (n : Node S M)
      → Fits req n
      → IsValid n
      → n.snapshot.last_included_index ≤ req.prev_log_index
      → term_at n.snapshot n.log req.prev_log_index ≡ some req.prev_log_term
      → (merge_and_store st t req n).1.success ≡ true
      → Replicated req n (merge_and_store st t req n).0 (merge_and_store st t req n).1
  unfolding merge_and_store
  merge_and_store_success n fits v low known =
      if-cases P (ltb 0 res.1.conflict_index) _ _ (λ _ failed. absurd (ground arith))
        λ agreed.
          store_cases st (λ r. P (commit_stored st t n.log commit r)) res.1
            (record n { log = res.0 }) (stored (ground arith))
    where
      P : Node S M × AppendEntriesResponse → Type 0
      P r = r.1.success ≡ true → Replicated req n r.0 r.1

      m : Mergeable n.snapshot n.commit_index n.log req.prev_log_index req.entries
      m = record {
        contiguous = v.contiguous;
        above = low;
        inside = term_at_inside n.snapshot n.log req.prev_log_index v.contiguous known;
        committed = v.committed;
        room = fits.room;
        in_range = fits.in_range;
      }

      res : List LogEntry × MergeEntriesResult
      res = merge_entries n.snapshot n.commit_index n.log req.prev_log_index req.entries

      commit : ℕ
      commit = min req.leader_commit res.1.last_new_index

      stored :
          res.1.conflict_index ≡ 0
          → (s : S) (e : Option Error)
          → P (commit_stored st t n.log commit (record n { log = res.0; store = s }, e))
      stored z s (some e) = unfold commit_stored in λ failed. absurd (ground arith)
      stored z s none =
          unfold commit_stored in
          λ ok.
            let merged : Node S M = record n { log = res.0; store = s } in
            let k = merge_entries-Agrees _ _ _ _ _ m z in
            Replicated-from req n merged commit res.1.last_new_index
              (advance_follower_commit st commit merged) refl refl known k.0 k.1 k.2 k.3 refl
              (advance_follower_commit_success st commit merged ok)

  check_previous_success :
      (n : Node S M)
      → Fits req n
      → IsValid n
      → (check_previous st t req n).1.success ≡ true
      → Replicated req n (check_previous st t req n).0 (check_previous st t req n).1
  unfolding check_previous
  check_previous_success n fits v =
      let P : Node S M × AppendEntriesResponse → Type 0 =
        λ r. r.1.success ≡ true → Replicated req n r.0 r.1 in
      if-cases P (ltb req.prev_log_index n.snapshot.last_included_index) _ _
        (λ _ failed. absurd (ground arith))
        λ above.
          if-cases P
            (not (has_term (term_at n.snapshot n.log req.prev_log_index) req.prev_log_term)) _ _
            (λ _ failed. absurd (ground arith))
            (λ found.
              merge_and_store_success n fits v (ground arith) (has_term_lem _ _ (ground arith)))

  Replicated-before :
      (n m o : Node S M) (resp : AppendEntriesResponse)
      → SameLog n m
      → Replicated req m o resp
      → Replicated req n o resp
  Replicated-before n m o resp same r = record {
    in_term = r.in_term;
    previous = rw (same.snapshot, same.log) at r.previous;
    contiguous = r.contiguous;
    holds = r.holds;
    reaches = r.reaches;
    commits = rw same.commit_index at r.commits;
    reported = r.reported;
  }

  -- If a valid node answers an AppendEntries request with success, and the request's entries are above
  -- the node's snapshot with indexes below the largest uint64, its log had the previous entry
  -- with the request's term, the entries follow that one, each of them is now in the log with its
  -- term, and the commit index is the larger of the old one and of what the leader has committed
  -- within these entries.
  pub handle_append_entries_success :
      (n : Node S M)
      → Fits req n
      → IsValid n
      → (handle_append_entries st t req n).1.success ≡ true
      → Replicated req n (handle_append_entries st t req n).0 (handle_append_entries st t req n).1
  unfolding handle_append_entries
  handle_append_entries_success n fits v =
      let P : Node S M × AppendEntriesResponse → Type 0 =
        λ r. r.1.success ≡ true → Replicated req n r.0 r.1 in
      if-cases P (turns_away n req.leader_id req.term) _ _ (λ _ failed. absurd (ground arith))
        λ _.
          heed_cases st (λ r. P (append_as_follower st t req r)) t req.term req.leader_id n
            (λ m f _ ok.
              let here : Fits req m = rw f.0.snapshot fits in
              let r = check_previous st t req m in
              Replicated-before n m r.0 r.1 f.0
                (check_previous_success m here (SameLog-IsValid n m f.0 v) ok))
            (λ m e f failed. absurd (ground arith))
