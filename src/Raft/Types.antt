-- ===== src/Raft/Types.antt =====
-- internal/raft/types.go and the types of internal/raft/node.go: roles, errors, the RPC messages,
-- and the interfaces to the store and the state machine.
use go_raft_kv.Prelude.{ℕ, String, Bool, Option, List}
use go_raft_kv.Prelude.Dict.{Dict}
use go_raft_kv.Storage.Types.{Command, ApplyResult, LogEntry, HardState, Snapshot}

pub data Role : Type 0 where
  follower candidate leader : Role

-- An `error` is one of the package's own, the error of a context, or another one with its message.
pub data Error : Type 0 where
  not_leader : String → String → Error
  node_stopped : Error
  proposal_unknown : ℕ → Error → Error
  context_done : Error
  message : String → Error

pub record RequestVoteRequest : Type 0 where
  pub term : ℕ
  pub candidate_id : String
  pub last_log_index : ℕ
  pub last_log_term : ℕ

pub record RequestVoteResponse : Type 0 where
  pub term : ℕ
  pub vote_granted : Bool

pub record AppendEntriesRequest : Type 0 where
  pub term : ℕ
  pub leader_id : String
  pub prev_log_index : ℕ
  pub prev_log_term : ℕ
  pub entries : List LogEntry
  pub leader_commit : ℕ

pub record AppendEntriesResponse : Type 0 where
  pub term : ℕ
  pub success : Bool
  pub last_log_index : ℕ
  pub conflict_index : ℕ

pub record InstallSnapshotRequest : Type 0 where
  pub term : ℕ
  pub leader_id : String
  pub last_included_index : ℕ
  pub last_included_term : ℕ
  pub offset : ℕ
  pub chunk : List ℕ
  pub done : Bool

pub record InstallSnapshotResponse : Type 0 where
  pub term : ℕ
  pub success : Bool
  pub bytes_received : ℕ

pub record SnapshotProgress : Type 0 where
  pub leader_id : String
  pub last_included_index : ℕ
  pub last_included_term : ℕ
  pub buffer : List ℕ

pub record ApplyOutcome : Type 0 where
  pub result : ApplyResult
  pub err : Option Error

-- The interface `Store`, over the store's state.
pub record Store (S : Type 0) : Type 0 where
  pub load : S → S × Option Error × HardState × List LogEntry × Snapshot
  pub save_hard_state : S → HardState → S × Option Error
  pub append_entries : S → List LogEntry → S × Option Error
  pub replace_entries : S → List LogEntry → S × Option Error
  pub save_snapshot : S → Snapshot → S × Option Error

-- The interface `StateMachine` (internal/raft/statemachine.go), with the `Get` of `valueReader`.
pub record StateMachine (M : Type 0) : Type 0 where
  pub apply : M → Command → M × ApplyResult
  pub snapshot : M → Dict String
  pub restore : M → Option (Dict String) → M
  pub read_value : M → String → Option String

-- `time.Now()` and `rng.Int63n`, as one critical section of the node sees them.
pub record Timer : Type 0 where
  pub now : ℕ
  pub draw : ℕ → ℕ
