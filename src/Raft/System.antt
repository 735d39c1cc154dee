-- ===== src/Raft/System.antt =====
-- The critical sections of internal/raft/node.go as the steps of one node, in any order, with
-- what each asks of its message, and what holds after any number of them.
use go_raft_kv.Prelude.{ℕ, ◌+◌, ◌<◌, ◌≡◌, String, true, Option, if-cases}
use go_raft_kv.Prelude.Word.{u64_mod}
use go_raft_kv.Prelude.Dict.{Dict}
use go_raft_kv.Storage.Types.{Command, ApplyResult, LogEntry, Snapshot}
use go_raft_kv.Raft.Types.{
  Store, StateMachine, Timer, RequestVoteRequest, AppendEntriesRequest, AppendEntriesResponse,
  InstallSnapshotRequest,
}
use go_raft_kv.Raft.Log.{last_index}
use go_raft_kv.Raft.Node.{Node, stop}
use go_raft_kv.Raft.Vote.{handle_request_vote}
use go_raft_kv.Raft.Append.{handle_append_entries}
use go_raft_kv.Raft.Install.{receive_snapshot, install_snapshot}
use go_raft_kv.Raft.Election.{start_election, become_leader, step_down}
use go_raft_kv.Raft.Commit.{advance_commit}
use go_raft_kv.Raft.Propose.{propose_append, remove_waiter}
use go_raft_kv.Raft.Apply.{entry, next_ready, run_entry, still_next, record_applied}
use go_raft_kv.Raft.Compact.{compact_log}
use go_raft_kv.Raft.Progress.{IsValid, Advances, Keeps, Keeps-refl, Keeps-trans}
use go_raft_kv.Raft.Progress.Frames.{Frame-Keeps, become_follower-Frame}
use go_raft_kv.Raft.Progress.Vote.{handle_request_vote-Keeps}
use go_raft_kv.Raft.Progress.Append.{Fits, handle_append_entries-Keeps}
use go_raft_kv.Raft.Progress.Receive.{receive_snapshot-Frame}
use go_raft_kv.Raft.Progress.Install.{install_snapshot-Keeps}
use go_raft_kv.Raft.Progress.Lead.{start_election-Keeps, become_leader-Keeps, propose_append-Keeps}
use go_raft_kv.Raft.Progress.Commit.{advance_commit-Keeps}
use go_raft_kv.Raft.Progress.Apply.{record_applied-Keeps}
use go_raft_kv.Raft.Replicate.{
  prepare_round, take_answer, snapshot_sent, try_acquire, finish_peer_replication,
}
use go_raft_kv.Raft.Progress.Replicate.{
  prepare_round-Keeps, take_answer-Keeps, snapshot_sent-Keeps, try_acquire-Keeps, release-Keeps,
}
use go_raft_kv.Raft.Progress.Compact.{compact_log-Keeps}

-- Whether a new term and a new index are still uint64 values.
abbrev pub HasRoom : {S M : Type 0} → Node S M → Type 0
HasRoom n = (n.current_term + 1 < u64_mod) × (last_index n.snapshot n.log + 1 < u64_mod)

module _ {S M : Type 0} (st : Store S) (sm : StateMachine M) where
  pub data Step (n : Node S M) : Node S M → Type 0 where
    request_vote :
        (t : Timer) (req : RequestVoteRequest) → Step n (handle_request_vote st t req n).0
    append_entries :
        (t : Timer) (req : AppendEntriesRequest)
        → Fits req n
        → Step n (handle_append_entries st t req n).0
    receive : (t : Timer) (req : InstallSnapshotRequest) → Step n (receive_snapshot st t req n).0
    install :
        (t : Timer) (req : InstallSnapshotRequest) (contents : Option (Dict String)) (size : ℕ)
        → req.last_included_index < u64_mod
        → Step n (install_snapshot st sm t req contents size n).0
    start : (t : Timer) → HasRoom n → Step n (start_election st t n).0
    lead : (t : Timer) (term : ℕ) → HasRoom n → Step n (become_leader st t term n)
    outdated :
        (t : Timer) (term : ℕ) (leader_id : String) → Step n (step_down st t term leader_id n)
    commit : (t : Timer) → Step n (advance_commit st t n)
    begin_round : (peer : String) → Step n (prepare_round peer n).0
    end_round :
        (t : Timer) (peer : String) (req : AppendEntriesRequest) (resp : AppendEntriesResponse)
        → Step n (take_answer st t peer req resp n).0
    end_snapshot : (peer : String) (term index : ℕ) → Step n (snapshot_sent peer term index n)
    acquire : (peer : String) → Step n (try_acquire peer n).0
    release : (peer : String) → Step n (finish_peer_replication peer n)
    propose : (t : Timer) (command : Command) → HasRoom n → Step n (propose_append st t command n).0
    -- The command of the next entry is run without the lock; `apply` records it later, and makes no
    -- demand on the result that it delivers.
    run_command : (e : LogEntry) → next_ready n ≡ entry e → Step n (run_entry sm e n).0
    apply :
        (e : LogEntry) (result : ApplyResult)
        → still_next e n ≡ true
        → Step n (record_applied e result n)
    save_snapshot :
        (snap : Snapshot) → Step n (record n { store = (st.save_snapshot n.store snap).0 })
    compact : (snap : Snapshot) → Step n (compact_log st snap n)
    forget_waiter : (index waiter : ℕ) → Step n (remove_waiter index waiter n)
    shut_down : Step n (stop n)

  pub data Reach (n : Node S M) : Node S M → Type 0 where
    here : Reach n n
    next : {m o : Node S M} → Reach n m → Step m o → Reach n o

  stop-Keeps : (n : Node S M) → Keeps n (stop n)
  unfolding stop
  stop-Keeps n = if-cases (Keeps n) n.stopped _ _ (λ _. Keeps-refl n) (λ _. Keeps-refl n)

  remove_waiter-Keeps : (index waiter : ℕ) (n : Node S M) → Keeps n (remove_waiter index waiter n)
  unfolding remove_waiter
  remove_waiter-Keeps index waiter n = Keeps-refl n

  pub Step-Keeps : {n m : Node S M} → Step n m → Keeps n m
  Step-Keeps {n} (request_vote t req) = handle_request_vote-Keeps st t req n
  Step-Keeps {n} (append_entries t req fits) = handle_append_entries-Keeps st t req n fits
  Step-Keeps {n} (receive t req) =
      Frame-Keeps n (receive_snapshot st t req n).0 (receive_snapshot-Frame req st t n)
  Step-Keeps {n} (install t req contents size fits) =
      install_snapshot-Keeps st sm t req contents size n fits
  Step-Keeps {n} (start t room) = start_election-Keeps st t n room.0
  Step-Keeps {n} (lead t term room) = become_leader-Keeps st t term n room.1
  Step-Keeps {n} (outdated t term leader_id) =
      unfold step_down in
      Frame-Keeps n (step_down st t term leader_id n)
        (become_follower-Frame st t true term leader_id n)
  Step-Keeps {n} (commit t) = advance_commit-Keeps st t n
  Step-Keeps {n} (begin_round peer) = prepare_round-Keeps peer n
  Step-Keeps {n} (end_round t peer req resp) = take_answer-Keeps st t peer req resp n
  Step-Keeps {n} (end_snapshot peer term index) = snapshot_sent-Keeps peer term index n
  Step-Keeps {n} (acquire peer) = try_acquire-Keeps peer n
  Step-Keeps {n} (release peer) = release-Keeps peer n
  Step-Keeps {n} (propose t command room) = propose_append-Keeps st t command n room.1
  Step-Keeps {n} (run_command e h) = unfold run_entry in Keeps-refl n
  Step-Keeps {n} (apply e result h) = record_applied-Keeps e result n h
  Step-Keeps {n} (save_snapshot snap) = Keeps-refl n
  Step-Keeps {n} (compact snap) = compact_log-Keeps st snap n
  Step-Keeps {n} (forget_waiter index waiter) = remove_waiter-Keeps index waiter n
  Step-Keeps {n} shut_down = stop-Keeps n

  -- Any number of a valid node's critical sections, in any order and whatever its store answers, lead
  -- to a valid node, if the entries of each AppendEntries request are above the node's snapshot with
  -- indexes below the largest uint64, each snapshot that is installed has a uint64 index, and each
  -- election, proposal and taking of the lead finds a term and a last index below the largest uint64.
  -- Valid: the log is contiguous above the snapshot, the snapshot, applied, commit and last index are
  -- in this order, and the last index is a uint64. No term, commit, applied or snapshot index falls, a
  -- vote is not changed within its term, and an entry up to the old commit index is the same afterwards
  -- unless a snapshot covers it.
  pub Reach-Keeps : {n m : Node S M} → Reach n m → IsValid n → IsValid m × Advances n m
  Reach-Keeps {n} here = Keeps-refl n
  Reach-Keeps {n} (next {m} {o} r s) = Keeps-trans n m o (Reach-Keeps r) (Step-Keeps s)
