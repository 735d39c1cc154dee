-- ===== src/Raft/Node.antt =====
-- internal/raft/node.go: the state of a node, and its methods that read it or touch no store.
use go_raft_kv.Prelude.{
  ℕ, ◌+◌, ◌-◌, ◌/◌, String, Bool, true, false, not, ◌||◌, Option, none, some, List, [], ◌++◌, map,
  ltb, leb, ◌==◌, if◌then◌else◌, is_some, keep, str_eq, length,
}
use go_raft_kv.Prelude.Dict
use go_raft_kv.Prelude.Dict.{Dict}
use go_raft_kv.Storage.Types.{ApplyResult, LogEntry, Snapshot}
use go_raft_kv.Raft.Types.{
  Role, follower, candidate, leader, Error, not_leader, node_stopped, ApplyOutcome,
  SnapshotProgress, Timer,
}

-- `Node`, over the states of its store and its state machine, less its locks, its transport and the
-- parts that only its loops use. A channel of a waiter is a number;
-- `delivered` lists what was sent on them. The maps with a zero default are functions. `apply_ch`
-- and `replicate_ch` say whether the channel of capacity 1 is full.
pub record Node (S M : Type 0) : Type 0 where
  pub id : String
  pub address : String
  pub peer_addrs : Dict String
  pub client_addrs : Dict String
  pub store : S
  pub machine : M
  pub role : Role
  pub current_term : ℕ
  pub voted_for : String
  pub leader_id : String
  pub log : List LogEntry
  pub snapshot : Snapshot
  pub commit_index : ℕ
  pub last_applied : ℕ
  pub leader_noop_index : ℕ
  pub next_index : String → ℕ
  pub match_index : String → ℕ
  pub replicating : String → Bool
  pub election_due : ℕ
  pub timeout_min : ℕ
  pub timeout_max : ℕ
  pub snapshot_every : ℕ
  pub snapshot_chunk_bytes : ℕ
  pub waiters : List (ℕ × ℕ)
  pub next_waiter : ℕ
  pub delivered : List (ℕ × ApplyOutcome)
  pub pending_snapshot : Option SnapshotProgress
  pub last_err : Option Error
  pub storage_fatal : Option Error
  pub stopped : Bool
  pub apply_ch : Bool
  pub replicate_ch : Bool

abbrev pub is_follower : Role → Bool
is_follower follower = true
is_follower candidate = false
is_follower leader = false

abbrev pub is_candidate : Role → Bool
is_candidate follower = false
is_candidate candidate = true
is_candidate leader = false

abbrev pub is_leader : Role → Bool
is_leader follower = false
is_leader candidate = false
is_leader leader = true

-- `m[k] = v` on a map with a zero default
abbrev pub update {ℓ} : {A : Type ℓ} → (String → A) → String → A → String → A
update f k v j = if str_eq k j then v else f j

abbrev pub or_empty : Option String → String
or_empty none = ""
or_empty (some s) = s

abbrev pub no_result : ApplyResult
no_result = record { ok = false; found = false; value = ""; swapped = false; error = "" }

-- `applyOutcome{err: err}`
abbrev pub failed : Error → ApplyOutcome
failed e = record { result = no_result; err = some e }

module _ {S M : Type 0} where
  unfoldable pub quorum : Node S M → ℕ
  quorum n = (length n.peer_addrs + 1) / 2 + 1

  unfoldable pub is_known_remote_peer : Node S M → String → Bool
  is_known_remote_peer n peer =
      if str_eq peer "" || str_eq peer n.id then false else is_some (Dict.get n.peer_addrs peer)

  -- The guards that each RPC handler starts with; all of them give the handler's plain refusal.
  unfoldable pub turns_away : Node S M → String → ℕ → Bool
  unfolding is_known_remote_peer
  turns_away n peer term =
      (n.stopped || is_some n.storage_fatal)
      || (not (is_known_remote_peer n peer) || ltb term n.current_term)

  unfoldable pub leader_address : Node S M → String
  leader_address n =
      if str_eq n.leader_id ""
      then ""
      else let addr = or_empty (Dict.get n.client_addrs n.leader_id) in
        if not (str_eq addr "")
        then addr
        else if str_eq n.leader_id n.id
        then n.address
        else or_empty (Dict.get n.peer_addrs n.leader_id)

  unfoldable pub not_leader_error : Node S M → Error
  not_leader_error n = not_leader n.leader_id (leader_address n)

  unfoldable pub reset_election : Timer → Node S M → Node S M
  reset_election t n = record n {
    election_due =
        t.now
        + (if ltb n.timeout_min n.timeout_max
            then n.timeout_min + t.draw (n.timeout_max - n.timeout_min)
            else n.timeout_min);
  }

  -- Waiters at or below the commit index stay; every other one is told of the leader and closed.
  unfoldable pub fail_uncommitted_waiters : Node S M → Node S M
  fail_uncommitted_waiters n =
      let outcome = failed (not_leader_error n) in
      record n {
        waiters = keep (λ (w : ℕ × ℕ). leb w.0 n.commit_index) n.waiters;
        delivered =
            n.delivered
            ++ map (λ (w : ℕ × ℕ). (w.1, outcome))
                (keep (λ (w : ℕ × ℕ). ltb n.commit_index w.0) n.waiters);
      }

  unfoldable pub finish_waiters : Node S M → ℕ → ApplyResult → Node S M
  finish_waiters n index result = record n {
    waiters = keep (λ (w : ℕ × ℕ). not (w.0 == index)) n.waiters;
    delivered =
        n.delivered
        ++ map (λ (w : ℕ × ℕ). (w.1, record { result = result; err = none }))
            (keep (λ (w : ℕ × ℕ). w.0 == index) n.waiters);
  }

  -- `Stop`: every waiter is told and closed. The loops' own exit is not modelled.
  unfoldable pub stop : Node S M → Node S M
  stop n = if n.stopped then n else record n {
    stopped = true;
    waiters = [];
    delivered = n.delivered ++ map (λ (w : ℕ × ℕ). (w.1, failed node_stopped)) n.waiters;
  }

  -- A send that does not block: a full channel stays full.
  unfoldable pub notify_apply : Node S M → Node S M
  notify_apply n = record n { apply_ch = true }

  unfoldable pub kick_replication : Node S M → Node S M
  kick_replication n = record n { replicate_ch = true }

  -- A nil error changes nothing; the callers pass one that is not nil.
  unfoldable pub fail_storage : Timer → Error → Node S M → Node S M
  unfolding reset_election fail_uncommitted_waiters
  fail_storage t err n = fail_uncommitted_waiters (
      reset_election t (record n {
        last_err = some err;
        storage_fatal = some err;
        role = follower;
        leader_id = "";
        leader_noop_index = 0;
      }))
