-- ===== src/Raft/Rounds.antt =====
-- internal/raft/node.go: `replicateToPeer` and `replicateToPeerForRead` from their first line to their
-- result, over the calls of the transport; the first section of `replicateAllOnce`; and what the
-- loops of the node decide at each tick.
use go_raft_kv.Prelude.{
  ℕ, zero, suc, String, Bool, true, false, not, ◌&&◌, Option, none, some, List, [], ◌∷◌, ltb,
  if◌then◌else◌, Result, ok, err,
}
use go_raft_kv.Prelude.Dict.{Dict}
use go_raft_kv.Storage.Types.{Snapshot}
use go_raft_kv.Raft.Types.{
  AppendEntriesRequest, AppendEntriesResponse, InstallSnapshotRequest, InstallSnapshotResponse,
  Error, node_stopped, Store, Timer,
}
use go_raft_kv.Raft.Node.{Node, is_leader, not_leader_error, update}
use go_raft_kv.Raft.Replicate.{
  Round, over, needs_snapshot, again, send, Ending, result, another, prepare_round, take_answer,
  snapshot_sent, try_acquire, finish_peer_replication,
}
use go_raft_kv.Raft.SendSnapshot.{send_snapshot}
pub mod Keep
pub mod Fresh

-- `maxReplicationAttempts`
abbrev pub max_replication_attempts : ℕ
max_replication_attempts = 128

-- The world as `replicateToPeer` uses it, over its state `E`: whether the context is done, the two calls
-- of the transport with what other threads do to the node meanwhile, what they do while the call waits
-- for its turn, json.Marshal of a map, and the rounds that the transfer of a snapshot may take.
pub record World (S M E : Type 0) : Type 0 where
  pub ctx_done : E → Bool
  pub append : E → AppendEntriesRequest → Node S M → E × (Node S M × Option AppendEntriesResponse)
  pub install :
      E → InstallSnapshotRequest → Node S M → E × (Node S M × Option InstallSnapshotResponse)
  pub poll : E → Node S M → E × Node S M
  pub marshal : Option (Dict String) → Option (List ℕ)
  pub transfer_fuel : ℕ

module _ {S M E : Type 0} (st : Store S) (world : World S M E) (t : Timer) (peer : String) where
  -- The part behind the transfer of a snapshot.
  unfoldable pub after_transfer :
      ℕ → Snapshot → E × (Node S M × Option Bool) → E × (Node S M × Option Bool)
  unfolding snapshot_sent
  after_transfer term snap (env, (n, some true)) =
      (env, (snapshot_sent peer term snap.last_included_index n, some true))
  after_transfer term snap (env, (n, some false)) = (env, (n, some false))
  after_transfer term snap (env, (n, none)) = (env, (n, none))

  -- `rest` is the loop with the attempts that are left.
  unfoldable pub after_answer :
      (E → Node S M → E × (Node S M × Option Bool))
      → E
      → Node S M × Ending
      → E × (Node S M × Option Bool)
  after_answer rest env (n, result b) = (env, (n, some b))
  after_answer rest env (n, another) = rest env n

  unfoldable pub after_append :
      (E → Node S M → E × (Node S M × Option Bool))
      → AppendEntriesRequest
      → E × (Node S M × Option AppendEntriesResponse)
      → E × (Node S M × Option Bool)
  unfolding after_answer
  after_append rest req (env, (n, none)) = (env, (n, some false))
  after_append rest req (env, (n, some resp)) =
      after_answer rest env (take_answer st t peer req resp n)

  unfoldable pub run_round :
      (E → Node S M → E × (Node S M × Option Bool))
      → E
      → Node S M × Round
      → E × (Node S M × Option Bool)
  unfolding after_transfer after_append
  run_round rest env (n, over) = (env, (n, some false))
  run_round rest env (n, again) = rest env n
  run_round rest env (n, send req) = after_append rest req (world.append env req n)
  run_round rest env (n, needs_snapshot term snap) = after_transfer term snap (
      send_snapshot st world.ctx_done world.install world.marshal world.transfer_fuel t term
        snap.last_included_index snap.last_included_term snap.contents n.snapshot_chunk_bytes env n)

  -- The loop, with the attempts that are left. `none` means that a transfer has not ended.
  unfoldable pub replicate_loop : ℕ → E → Node S M → E × (Node S M × Option Bool)
  unfolding run_round
  replicate_loop zero env n = (env, (n, some false))
  replicate_loop (suc left) env n = elim (world.ctx_done env) [
    | true ↦ (env, (n, some false))
    | false ↦ run_round (λ e m. replicate_loop left e m) env (prepare_round peer n)
  ]

  unfoldable pub replicate_to_peer : E → Node S M → E × (Node S M × Option Bool)
  unfolding replicate_loop
  replicate_to_peer env n = replicate_loop max_replication_attempts env n

  abbrev pub after_try :
      (E → Node S M → E × (Node S M × Option Bool))
      → E
      → Node S M × Option Bool
      → E × (Node S M × Option Bool)
  after_try rest env (n, some b) = (env, (n, some b))
  after_try rest env (n, none) = rest (world.poll env n).0 (world.poll env n).1

  -- `acquirePeerReplication` on fuel; `none` while it waits. The end of the context is seen at the start
  -- of the next try.
  unfoldable pub acquire : ℕ → E → Node S M → E × (Node S M × Option Bool)
  acquire zero env n = (env, (n, none))
  acquire (suc fuel) env n = elim (world.ctx_done env) [
    | true ↦ (env, (n, some false))
    | false ↦ after_try (λ e m. acquire fuel e m) env (try_acquire peer n)
  ]

  -- The deferred `finishPeerReplication` runs when the loop has returned.
  unfoldable pub release_slot : E × (Node S M × Option Bool) → E × (Node S M × Option Bool)
  release_slot (env, (n, none)) = (env, (n, none))
  release_slot (env, (n, some b)) = (env, (finish_peer_replication peer n, some b))

  unfoldable pub after_acquire : E × (Node S M × Option Bool) → E × (Node S M × Option Bool)
  unfolding release_slot replicate_to_peer
  after_acquire (env, (n, some true)) = release_slot (replicate_to_peer env n)
  after_acquire (env, (n, some false)) = (env, (n, some false))
  after_acquire (env, (n, none)) = (env, (n, none))

  unfoldable pub replicate_to_peer_for_read : ℕ → E → Node S M → E × (Node S M × Option Bool)
  unfolding acquire after_acquire
  replicate_to_peer_for_read fuel env n = after_acquire (acquire fuel env n)

module _ {S M : Type 0} where
  -- The peers whose slot is free, with their slots taken.
  unfoldable pub claim_peers : Dict String → Node S M → Node S M × List String
  claim_peers [] n = (n, [])
  claim_peers ((peer, addr) ∷ peers) n = elim (n.replicating peer) [
    | true ↦ claim_peers peers n
    | false ↦
        let (m, claimed) =
          claim_peers peers (record n { replicating = update n.replicating peer true }) in
        (m, peer ∷ claimed)
  ]

  -- The first section of `replicateAllOnce`. Then a goroutine for each claimed peer replicates to it and
  -- gives the slot back.
  unfoldable pub begin_replicate_all : Node S M → Node S M × Result Error (List String)
  unfolding claim_peers not_leader_error
  begin_replicate_all n =
      if n.stopped
      then (n, err node_stopped)
      else if not (is_leader n.role)
      then (n, err (not_leader_error n))
      else let (m, claimed) = claim_peers n.peer_addrs n in (m, ok claimed)

  -- `electionLoop`: whether a tick at `now` starts an election.
  unfoldable pub starts_election : ℕ → Node S M → Bool
  starts_election now n = not (is_leader n.role) && ltb n.election_due now
