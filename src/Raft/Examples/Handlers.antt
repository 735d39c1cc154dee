-- ===== src/Raft/Examples/Handlers.antt =====
-- The theorems on the handlers of internal/raft/node.go at the node and the requests of the examples.
use go_raft_kv.Prelude.{
  ◌+◌, ◌≤◌, none, ℕ, refl, String, true, if◌then◌else◌, str_eq, List, Option, some, [], ◌∷◌, arith,
}
use go_raft_kv.Prelude.Word.{inc64}
use go_raft_kv.Prelude.Dict.{Dict, get}
use go_raft_kv.Server.StateMachine.{KvStateMachine}
use go_raft_kv.Raft.Types.{leader}
use go_raft_kv.Raft.Merge.{merge_entries, validate_entries, merge_loop, last_new}
use go_raft_kv.Raft.Examples.{
  e1, e2, Disk, disk_store, kv, timer, node, vote_request, append_request, snapshot_request,
}
use go_raft_kv.Raft.Log.{entries_from, last_index, last_term, term_at, entry_at}
use go_raft_kv.Raft.Node.{Node}
use go_raft_kv.Raft.Vote.{handle_request_vote}
use go_raft_kv.Raft.Append.{handle_append_entries}
use go_raft_kv.Raft.Install.{handle_install_snapshot}
use go_raft_kv.Raft.Commit.{advance_commit}
use go_raft_kv.Raft.Apply.{apply_ready}
use go_raft_kv.Raft.Progress.{IsValid, Advances, Keeps-refl}
use go_raft_kv.Raft.Progress.Append.{Fits, handle_append_entries-Keeps}
use go_raft_kv.Raft.Progress.Install.{handle_install_snapshot-Keeps}
use go_raft_kv.Raft.Progress.Apply.{apply_ready-Keeps}
use go_raft_kv.Raft.System.{Reach, here, next, request_vote, append_entries, Reach-Keeps}
use go_raft_kv.Raft.Guarantees.Vote.{Granted, handle_request_vote-Granted}
use go_raft_kv.Raft.Guarantees.Append.{Replicated, handle_append_entries_success}
use go_raft_kv.Raft.Guarantees.Commit.{CommitsLargest, advance_commit_largest}
use go_raft_kv.Raft.Guarantees.Apply.{Caught, apply_ready_lem}
use go_raft_kv.Raft.Types.{AppendEntriesRequest}
use go_raft_kv.Raft.Replicate.{prepare_round}
use go_raft_kv.Raft.Guarantees.Replicate.{Sends, prepare_round-Sends}
use go_raft_kv.Raft.Types.{RequestVoteResponse}
use go_raft_kv.Raft.Election.{election_result}
use go_raft_kv.Raft.Guarantees.Election.{grants, election_result_won}

pub node-IsValid : IsValid node
unfolding last_index
node-IsValid = record {
  contiguous = (refl, (refl, tt));
  covered = omega arith;
  applied = omega arith;
  committed = omega arith;
  bounded = omega arith;
}

append_request-Fits : Fits append_request node
append_request-Fits = ground arith

handle_request_vote-Granted_example :
    Granted disk_store vote_request node (handle_request_vote disk_store timer vote_request node).0
unfolding handle_request_vote get last_term last_index
handle_request_vote-Granted_example =
    handle_request_vote-Granted disk_store timer vote_request node refl

handle_append_entries_success_example :
    Replicated append_request node
      (handle_append_entries disk_store timer append_request node).0
      (handle_append_entries disk_store timer append_request node).1
unfolding handle_append_entries get term_at entry_at merge_entries validate_entries inc64 merge_loop
    last_index last_new
handle_append_entries_success_example =
    handle_append_entries_success disk_store timer append_request node append_request-Fits
      node-IsValid refl

handle_append_entries-Keeps_example :
    IsValid (handle_append_entries disk_store timer append_request node).0
    × Advances node (handle_append_entries disk_store timer append_request node).0
handle_append_entries-Keeps_example =
    handle_append_entries-Keeps disk_store timer append_request node append_request-Fits
      node-IsValid

decode : List ℕ → Option (Option (Dict String))
decode body = some (some (("x", "five") ∷ []))

handle_install_snapshot-Keeps_example :
    let r = handle_install_snapshot disk_store kv decode (λ m. m) timer snapshot_request node in
    IsValid r.0 × Advances node r.0
handle_install_snapshot-Keeps_example =
    handle_install_snapshot-Keeps disk_store kv timer decode (λ m. m) snapshot_request node
      (λ m. Keeps-refl m) (omega arith) node-IsValid

apply_ready_lem_example : Caught disk_store kv node 1 (apply_ready disk_store kv 2 (λ m. m) node)
apply_ready_lem_example = apply_ready_lem disk_store kv 2 node node-IsValid (omega arith)

apply_ready-Keeps_example :
    IsValid (apply_ready disk_store kv 5 (λ m. m) node)
    × Advances node (apply_ready disk_store kv 5 (λ m. m) node)
apply_ready-Keeps_example =
    apply_ready-Keeps disk_store kv (λ m. m) (λ m. Keeps-refl m) 5 node node-IsValid

-- A leader of term 2, whose peer "b" holds both entries.
abbrev leading : Node Disk KvStateMachine
leading = record node { role = leader; match_index = λ peer. if str_eq peer "b" then 2 else 0 }

advance_commit_largest_example :
    CommitsLargest disk_store timer 2 leading (advance_commit disk_store timer leading)
unfolding last_index
advance_commit_largest_example = advance_commit_largest disk_store timer leading

-- A vote is granted, then the leader that was elected sends its entries.
abbrev voted : Node Disk KvStateMachine
voted = (handle_request_vote disk_store timer vote_request node).0

voted-Fits : Fits append_request voted
unfolding handle_request_vote get last_term last_index
voted-Fits = ground arith

two_steps : Reach disk_store kv node (handle_append_entries disk_store timer append_request voted).0
two_steps =
    next (next here (request_vote timer vote_request))
      (append_entries timer append_request voted-Fits)

Reach-Keeps_example :
    IsValid (handle_append_entries disk_store timer append_request voted).0
    × Advances node (handle_append_entries disk_store timer append_request voted).0
Reach-Keeps_example = Reach-Keeps disk_store kv two_steps node-IsValid

leading-IsValid : IsValid leading
leading-IsValid = node-IsValid

-- All entries go to a peer of which nothing is known.
abbrev full_request : AppendEntriesRequest
full_request = record {
  term = 2;
  leader_id = "a";
  prev_log_index = 0;
  prev_log_term = 0;
  entries = e1 ∷ e2 ∷ [];
  leader_commit = 1;
}

prepare_round-Sends_example : Sends leading full_request
unfolding prepare_round term_at entries_from
prepare_round-Sends_example = prepare_round-Sends "b" leading full_request leading-IsValid refl

-- One of two peers answers, and grants.
abbrev replies : List (Option RequestVoteResponse)
replies = none ∷ some (record { term = 3; vote_granted = true }) ∷ []

election_result_won_example : 2 ≤ 1 + grants replies
unfolding election_result
election_result_won_example = election_result_won 2 3 replies refl
