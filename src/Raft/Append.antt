-- ===== src/Raft/Append.antt =====
-- internal/raft/node.go: `HandleAppendEntries`.
use go_raft_kv.Prelude.{ℕ, min, true, false, not, Option, none, some, List, ltb, if◌then◌else◌}
use go_raft_kv.Prelude.Word.{inc64}
use go_raft_kv.Storage.Types.{LogEntry}
use go_raft_kv.Raft.Types.{AppendEntriesRequest, AppendEntriesResponse, Error, Store, Timer}
use go_raft_kv.Raft.Log.{last_index, term_at, conflict_index}
use go_raft_kv.Raft.Node.{Node, turns_away, fail_storage, notify_apply}
use go_raft_kv.Raft.Merge.{MergeEntriesResult, merge_entries, has_term}
use go_raft_kv.Raft.Persist.{persist_hard_state, heed_leader}

module _ {S M : Type 0} where
  abbrev pub refuse_append : Node S M → ℕ → Node S M × AppendEntriesResponse
  refuse_append n conflict = (
    n,
    record {
      term = n.current_term;
      success = false;
      last_log_index = last_index n.snapshot n.log;
      conflict_index = conflict;
    },
  )

  abbrev pub accept_append : Node S M → Node S M × AppendEntriesResponse
  accept_append n = (
    n,
    record {
      term = n.current_term;
      success = true;
      last_log_index = last_index n.snapshot n.log;
      conflict_index = 0;
    },
  )

module _ {S M : Type 0} (st : Store S) where
  -- The write of the merged log; `n` has the merged log already.
  unfoldable pub store_merged : MergeEntriesResult → Node S M → Node S M × Option Error
  store_merged merge n =
      if merge.changed
      then (let (s, err) =
            (if merge.replaced
              then st.replace_entries n.store n.log
              else st.append_entries n.store merge.appended) in
          (record n { store = s }, err))
      else (n, none)

  unfoldable pub advance_follower_commit : ℕ → Node S M → Node S M × AppendEntriesResponse
  unfolding persist_hard_state notify_apply
  advance_follower_commit new_commit n =
      if ltb n.commit_index new_commit
      then (let (saved, err) = persist_hard_state st (record n { commit_index = new_commit }) in
          elim err [
            | some e ↦ refuse_append (record saved { commit_index = n.commit_index }) 0
            | none ↦ accept_append (notify_apply saved)
          ])
      else accept_append n

  -- A failed write puts the old log back and stops the node.
  unfoldable pub commit_stored :
      Timer → List LogEntry → ℕ → Node S M × Option Error → Node S M × AppendEntriesResponse
  unfolding advance_follower_commit fail_storage
  commit_stored t old new_commit (n, some e) =
      refuse_append (fail_storage t e (record n { log = old })) 0
  commit_stored t old new_commit (n, none) = advance_follower_commit new_commit n

  unfoldable pub merge_and_store :
      Timer → AppendEntriesRequest → Node S M → Node S M × AppendEntriesResponse
  unfolding store_merged commit_stored
  merge_and_store t req n =
      let (log, merge) =
        merge_entries n.snapshot n.commit_index n.log req.prev_log_index req.entries in
      let changed = record n { log = log } in
      if ltb 0 merge.conflict_index
      then refuse_append changed merge.conflict_index
      else commit_stored t n.log (min req.leader_commit merge.last_new_index)
          (store_merged merge changed)

  unfoldable pub check_previous :
      Timer → AppendEntriesRequest → Node S M → Node S M × AppendEntriesResponse
  unfolding merge_and_store
  check_previous t req n =
      if ltb req.prev_log_index n.snapshot.last_included_index
      then refuse_append n (inc64 n.snapshot.last_included_index)
      else if not (has_term (term_at n.snapshot n.log req.prev_log_index) req.prev_log_term)
      then refuse_append n (conflict_index n.snapshot n.log req.prev_log_index)
      else merge_and_store t req n

  unfoldable pub append_as_follower :
      Timer → AppendEntriesRequest → Node S M × Option Error → Node S M × AppendEntriesResponse
  unfolding check_previous
  append_as_follower t req (n, some e) = refuse_append n 0
  append_as_follower t req (n, none) = check_previous t req n

  unfoldable pub handle_append_entries :
      Timer → AppendEntriesRequest → Node S M → Node S M × AppendEntriesResponse
  unfolding turns_away heed_leader append_as_follower
  handle_append_entries t req n =
      if turns_away n req.leader_id req.term
      then refuse_append n 0
      else append_as_follower t req (heed_leader st t req.term req.leader_id n)
