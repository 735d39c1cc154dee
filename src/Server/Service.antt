-- ===== src/Server/Service.antt =====
-- internal/server/service.go: each method as a function of the node.
pub mod Proposed
pub mod Answers
use go_raft_kv.Prelude.{
  ℕ, String, Bool, true, false, Option, none, some, List, [], ◌∷◌, Result, ok, err, is_some,
}
use go_raft_kv.Prelude.Dict
use go_raft_kv.Prelude.Dict.{Dict}
use go_raft_kv.Storage.Types.{op_put, op_delete, op_cas, Command, ApplyResult}
use go_raft_kv.Api
use go_raft_kv.Raft.Types
use go_raft_kv.Raft.Types.{Role, follower, candidate, leader, Error, Store, StateMachine, Timer}
use go_raft_kv.Raft.Node.{Node, or_empty}
use go_raft_kv.Raft.Errors.{error_text, as_not_leader}
use go_raft_kv.Raft.Propose.{Wakeup, propose}
use go_raft_kv.Raft.Read.{Pass, linearizable_get}
use go_raft_kv.Raft.Status.{PeerStatus, Status, status}
use go_raft_kv.Raft.Vote.{handle_request_vote}
use go_raft_kv.Raft.Append.{handle_append_entries}
use go_raft_kv.Raft.Install.{handle_install_snapshot}
use go_raft_kv.Server.Codec.{CommandCodec, api_to_log_entries}

-- `leaderHint`: the leader's identifier and its address.
unfoldable pub leader_hint : Error → String × String
unfolding as_not_leader
leader_hint e = elim (as_not_leader e) [ some target ↦ target | none ↦ ("", "") ]

abbrev pub put_command : Api.PutRequest → Command
put_command req = record { op = op_put; key = req.key; value = req.value; expected = "" }

abbrev pub delete_command : Api.DeleteRequest → Command
delete_command req = record { op = op_delete; key = req.key; value = ""; expected = "" }

abbrev pub cas_command : Api.CasRequest → Command
cas_command req = record { op = op_cas; key = req.key; value = req.value; expected = req.expected }

-- `ctx` is the text of the error of a context.
module _ (ctx : String) where
  unfoldable pub put_response : ApplyResult → Option Error → Api.PutResponse
  unfolding leader_hint error_text
  put_response res (some e) = record {
    ok = false;
    error = error_text ctx e;
    leader_id = (leader_hint e).0;
    leader_address = (leader_hint e).1;
  }
  put_response res none = record {
    ok = res.ok;
    error = res.error;
    leader_id = "";
    leader_address = "";
  }

  unfoldable pub get_response : Result Error (Option String) → Api.GetResponse
  unfolding leader_hint error_text
  get_response (err e) = record {
    ok = false;
    found = false;
    value = "";
    error = error_text ctx e;
    leader_id = (leader_hint e).0;
    leader_address = (leader_hint e).1;
  }
  get_response (ok value) = record {
    ok = true;
    found = is_some value;
    value = or_empty value;
    error = "";
    leader_id = "";
    leader_address = "";
  }

  unfoldable pub delete_response : ApplyResult → Option Error → Api.DeleteResponse
  unfolding leader_hint error_text
  delete_response res (some e) = record {
    ok = false;
    found = false;
    previous_value = "";
    error = error_text ctx e;
    leader_id = (leader_hint e).0;
    leader_address = (leader_hint e).1;
  }
  delete_response res none = record {
    ok = res.ok;
    found = res.found;
    previous_value = res.value;
    error = res.error;
    leader_id = "";
    leader_address = "";
  }

  unfoldable pub cas_response : ApplyResult → Option Error → Api.CasResponse
  unfolding leader_hint error_text
  cas_response res (some e) = record {
    ok = false;
    swapped = false;
    found = false;
    current_value = "";
    error = error_text ctx e;
    leader_id = (leader_hint e).0;
    leader_address = (leader_hint e).1;
  }
  cas_response res none = record {
    ok = res.ok;
    swapped = res.swapped;
    found = res.found;
    current_value = res.value;
    error = res.error;
    leader_id = "";
    leader_address = "";
  }

abbrev pub role_text : Option Role → String
role_text none = ""
role_text (some follower) = "follower"
role_text (some candidate) = "candidate"
role_text (some leader) = "leader"

unfoldable pub peer_map : List PeerStatus → Dict String → Dict String
peer_map [] m = m
peer_map (p ∷ ps) m = peer_map ps (Dict.put m p.id p.address)

unfoldable pub status_response : Status → Api.StatusResponse
unfolding peer_map
status_response s = record {
  node_id = s.id;
  state = role_text s.role;
  term = s.term;
  leader_id = s.leader_id;
  leader_address = s.leader_address;
  commit_index = s.commit_index;
  last_applied = s.last_applied;
  last_log_index = s.last_log_index;
  snapshot_index = s.snapshot_index;
  peers = peer_map s.peers [];
}

-- The clients' methods.
module _ {S M : Type 0} (st : Store S) (ctx : String) where
  unfoldable pub put : Timer → Api.PutRequest → Wakeup → Node S M → Node S M × Api.PutResponse
  unfolding put_response
  put t req wakeup n =
      let (n', res, e) = propose st t (put_command req) wakeup n in (n', put_response ctx res e)

  unfoldable pub delete :
      Timer → Api.DeleteRequest → Wakeup → Node S M → Node S M × Api.DeleteResponse
  unfolding delete_response
  delete t req wakeup n =
      let (n', res, e) = propose st t (delete_command req) wakeup n in
      (n', delete_response ctx res e)

  unfoldable pub cas : Timer → Api.CasRequest → Wakeup → Node S M → Node S M × Api.CasResponse
  unfolding cas_response
  cas t req wakeup n =
      let (n', res, e) = propose st t (cas_command req) wakeup n in (n', cas_response ctx res e)

module _ {S M : Type 0} where
  -- `none` while the read has not returned.
  unfoldable pub get :
      StateMachine M → String → Api.GetRequest → List (Pass S M) → Option Api.GetResponse
  unfolding get_response
  get sm ctx req passes = elim (linearizable_get sm req.key passes) [
    | none ↦ none
    | some r ↦ some (get_response ctx r)
  ]

  unfoldable pub service_status : Node S M → Api.StatusResponse
  unfolding status_response
  service_status n = status_response (status n)

-- The peers' methods.
module _ {S M : Type 0} (st : Store S) where
  unfoldable pub request_vote :
      Timer → Api.RequestVoteRequest → Node S M → Node S M × Api.RequestVoteResponse
  request_vote t req n =
      let (n', resp) =
        handle_request_vote st t
          (record {
            term = req.term;
            candidate_id = req.candidate_id;
            last_log_index = req.last_log_index;
            last_log_term = req.last_log_term;
          })
          n in
      (n', record { term = resp.term; vote_granted = resp.vote_granted })

  unfoldable pub append_entries :
      CommandCodec
      → Timer
      → Api.AppendEntriesRequest
      → Node S M
      → Node S M × Api.AppendEntriesResponse
  unfolding api_to_log_entries
  append_entries codec t req n =
      let (n', resp) =
        handle_append_entries st t
          (record {
            term = req.term;
            leader_id = req.leader_id;
            prev_log_index = req.prev_log_index;
            prev_log_term = req.prev_log_term;
            entries = api_to_log_entries codec req.entries;
            leader_commit = req.leader_commit;
          })
          n in
      (
        n',
        record {
          term = resp.term;
          success = resp.success;
          conflict_index = resp.conflict_index;
          match_index = resp.last_log_index;
        },
      )

module _ {S M : Type 0} (st : Store S) (sm : StateMachine M) where
  unfoldable pub install_snapshot :
      (List ℕ → Option (Option (Dict String)))
      → (Node S M → Node S M)
      → Timer
      → Api.InstallSnapshotRequest
      → Node S M
      → Node S M × Api.InstallSnapshotResponse
  install_snapshot decode other t req n =
      let (n', resp) =
        handle_install_snapshot st sm decode other t
          (record {
            term = req.term;
            leader_id = req.leader_id;
            last_included_index = req.last_included_index;
            last_included_term = req.last_included_term;
            offset = req.offset;
            chunk = req.chunk;
            done = req.done;
          })
          n in
      (
        n',
        record { term = resp.term; success = resp.success; bytes_received = resp.bytes_received },
      )
