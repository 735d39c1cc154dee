-- ===== src/Storage/Types.antt =====
-- internal/storage/types.go.
use go_raft_kv.Prelude.{ℕ, String, Bool, Option}
use go_raft_kv.Prelude.Dict.{Dict}

-- `Operation` is a string: a value that is none of the four constants is `other`.
pub data Operation : Type 0 where
  op_put op_delete op_cas op_noop : Operation
  other : String → Operation

pub record Command : Type 0 where
  pub op : Operation
  pub key : String
  pub value : String
  pub expected : String

pub record ApplyResult : Type 0 where
  pub ok : Bool
  pub found : Bool
  pub value : String
  pub swapped : Bool
  pub error : String

pub record LogEntry : Type 0 where
  pub index : ℕ
  pub term : ℕ
  pub command : Command

pub record HardState : Type 0 where
  pub current_term : ℕ
  pub voted_for : String
  pub commit_index : ℕ

-- A nil map is `none`.
pub record Snapshot : Type 0 where
  pub last_included_index : ℕ
  pub last_included_term : ℕ
  pub contents : Option (Dict String)
