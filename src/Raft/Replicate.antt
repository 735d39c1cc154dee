-- ===== src/Raft/Replicate.antt =====
-- internal/raft/node.go: the critical sections of `replicateToPeer` and of the slots that keep two of
-- its runs for one peer apart. The call of the transport is between them.
use go_raft_kv.Prelude.{
  ℕ, ◌-◌, max, String, Bool, true, false, not, ◌||◌, Option, none, some, ltb, leb, ◌==◌,
  if◌then◌else◌, is_some, length,
}
use go_raft_kv.Prelude.Word.{inc64, add64}
use go_raft_kv.Storage.Types.{Snapshot}
use go_raft_kv.Raft.Types.{AppendEntriesRequest, AppendEntriesResponse, Store, Timer}
use go_raft_kv.Raft.Log.{last_index, term_at, entries_from}
use go_raft_kv.Raft.Node.{Node, is_leader, update}
use go_raft_kv.Raft.Persist.{become_follower}
use go_raft_kv.Raft.Commit.{advance_commit}

-- What a round begins with: the end of the run, a snapshot to send, another round, or a request.
pub data Round : Type 0 where
  over : Round
  needs_snapshot : ℕ → Snapshot → Round
  again : Round
  send : AppendEntriesRequest → Round

-- How a round ends: the run ends with its result, or another round follows.
pub data Ending : Type 0 where
  result : Bool → Ending
  another : Ending

module _ {S M : Type 0} where
  -- The part behind the choice of the next index.
  unfoldable pub prepare_from : String → ℕ → Node S M → Node S M × Round
  prepare_from peer next n =
      if leb next n.snapshot.last_included_index
      then (n, needs_snapshot n.current_term n.snapshot)
      else elim (term_at n.snapshot n.log (next - 1)) [
        | none ↦ (
          record n {
            next_index = update n.next_index peer (max 1 (inc64 n.snapshot.last_included_index));
          },
          again,
        )
        | some term ↦ (
          n,
          send (record {
            term = n.current_term;
            leader_id = n.id;
            prev_log_index = next - 1;
            prev_log_term = term;
            entries = entries_from n.log next;
            leader_commit = n.commit_index;
          }),
        )
      ]

  unfoldable pub prepare_round : String → Node S M → Node S M × Round
  unfolding prepare_from
  prepare_round peer n =
      if n.stopped || not (is_leader n.role)
      then (n, over)
      else if n.next_index peer == 0
      then (let next = inc64 (last_index n.snapshot n.log) in
          prepare_from peer next (record n { next_index = update n.next_index peer next }))
      else prepare_from peer (n.next_index peer) n

  -- The indexes of a peer go up only.
  unfoldable pub raise_peer : String → ℕ → Node S M → Node S M
  raise_peer peer match n = record n {
    match_index =
        if ltb (n.match_index peer) match then update n.match_index peer match else n.match_index;
    next_index =
        if ltb (n.next_index peer) (inc64 match)
        then update n.next_index peer (inc64 match)
        else n.next_index;
  }

  -- After the last chunk of a snapshot was acknowledged.
  unfoldable pub snapshot_sent : String → ℕ → ℕ → Node S M → Node S M
  unfolding raise_peer
  snapshot_sent peer term index n =
      if not (is_leader n.role) || not (n.current_term == term) then n else raise_peer peer index n

  -- `acquirePeerReplication` in one of its tries: `none` to poll again.
  unfoldable pub try_acquire : String → Node S M → Node S M × Option Bool
  try_acquire peer n =
      if n.stopped || is_some n.storage_fatal || not (is_leader n.role)
      then (n, some false)
      else if not (n.replicating peer)
      then (record n { replicating = update n.replicating peer true }, some true)
      else (n, none)

  unfoldable pub finish_peer_replication : String → Node S M → Node S M
  finish_peer_replication peer n = record n { replicating = update n.replicating peer false }

module _ {S M : Type 0} (st : Store S) where
  -- The section behind the answer of the peer to `req`.
  unfoldable pub take_answer :
      Timer → String → AppendEntriesRequest → AppendEntriesResponse → Node S M → Node S M × Ending
  unfolding become_follower raise_peer advance_commit
  take_answer t peer req resp n =
      let match = add64 req.prev_log_index (length req.entries) in
      if ltb n.current_term resp.term
      then ((become_follower st t resp.term "" n).0, result false)
      else if not (is_leader n.role) || not (n.current_term == req.term)
      then (n, result false)
      else if resp.success
      then (advance_commit st t (raise_peer peer match n), result true)
      else if ltb 0 resp.conflict_index
      then (record n { next_index = update n.next_index peer resp.conflict_index }, another)
      else (n, result false)
