-- ===== src/Api.antt =====
-- api/rpc.go: the messages of the two services. Their gRPC registration, clients and JSON codec call
-- the gRPC library and are not modelled.
use go_raft_kv.Prelude.{ℕ, String, Bool, List}
use go_raft_kv.Prelude.Dict.{Dict}

pub record PutRequest : Type 0 where
  pub key : String
  pub value : String

pub record PutResponse : Type 0 where
  pub ok : Bool
  pub error : String
  pub leader_id : String
  pub leader_address : String

pub record GetRequest : Type 0 where
  pub key : String

pub record GetResponse : Type 0 where
  pub ok : Bool
  pub found : Bool
  pub value : String
  pub error : String
  pub leader_id : String
  pub leader_address : String

pub record DeleteRequest : Type 0 where
  pub key : String

pub record DeleteResponse : Type 0 where
  pub ok : Bool
  pub found : Bool
  pub previous_value : String
  pub error : String
  pub leader_id : String
  pub leader_address : String

pub record CasRequest : Type 0 where
  pub key : String
  pub expected : String
  pub value : String

pub record CasResponse : Type 0 where
  pub ok : Bool
  pub swapped : Bool
  pub found : Bool
  pub current_value : String
  pub error : String
  pub leader_id : String
  pub leader_address : String

pub record StatusResponse : Type 0 where
  pub node_id : String
  pub state : String
  pub term : ℕ
  pub leader_id : String
  pub leader_address : String
  pub commit_index : ℕ
  pub last_applied : ℕ
  pub last_log_index : ℕ
  pub snapshot_index : ℕ
  pub peers : Dict String

-- A command travels as the bytes of its encoding.
pub record LogEntry : Type 0 where
  pub index : ℕ
  pub term : ℕ
  pub command : List ℕ

pub record RequestVoteRequest : Type 0 where
  pub term : ℕ
  pub candidate_id : String
  pub last_log_index : ℕ
  pub last_log_term : ℕ

pub record RequestVoteResponse : Type 0 where
  pub term : ℕ
  pub vote_granted : Bool

pub record AppendEntriesRequest : Type 0 where
  pub term : ℕ
  pub leader_id : String
  pub prev_log_index : ℕ
  pub prev_log_term : ℕ
  pub entries : List LogEntry
  pub leader_commit : ℕ

pub record AppendEntriesResponse : Type 0 where
  pub term : ℕ
  pub success : Bool
  pub conflict_index : ℕ
  pub match_index : ℕ

pub record InstallSnapshotRequest : Type 0 where
  pub term : ℕ
  pub leader_id : String
  pub last_included_index : ℕ
  pub last_included_term : ℕ
  pub offset : ℕ
  pub chunk : List ℕ
  pub done : Bool

pub record InstallSnapshotResponse : Type 0 where
  pub term : ℕ
  pub success : Bool
  pub bytes_received : ℕ
