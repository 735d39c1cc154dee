-- ===== src/Raft/SendSnapshot.antt =====
-- internal/raft/node.go: `sendSnapshot`, the leader's side of a snapshot's transfer.
use go_raft_kv.Prelude.{
  ℕ, zero, suc, ◌-◌, String, Bool, true, false, not, ◌&&◌, ◌||◌, Option, none, some, List, ltb,
  ◌==◌, if◌then◌else◌, length, take, drop,
}
use go_raft_kv.Prelude.Word.{add64}
use go_raft_kv.Prelude.Dict.{Dict}
use go_raft_kv.Raft.Types.{InstallSnapshotRequest, InstallSnapshotResponse, Store, Timer}
use go_raft_kv.Raft.Node.{Node, is_leader}
use go_raft_kv.Raft.Persist.{become_follower}

abbrev pub default_snapshot_chunk_bytes : ℕ
default_snapshot_chunk_bytes = 1048576

-- The arguments of the call that the loop keeps, with the encoded body.
pub record Transfer : Type 0 where
  pub term : ℕ
  pub last_included_index : ℕ
  pub last_included_term : ℕ
  pub body : List ℕ
  pub chunk_size : ℕ

-- A chunk size of zero stands for the default. (`chunk_size <= 0` in Go, where it is signed.)
abbrev pub transfer : ℕ → ℕ → ℕ → List ℕ → ℕ → Transfer
transfer term last_index last_term body chunk_size = record {
  term = term;
  last_included_index = last_index;
  last_included_term = last_term;
  body = body;
  chunk_size = if chunk_size == 0 then default_snapshot_chunk_bytes else chunk_size;
}

-- How a round of the loop ends: the call returns, or the next chunk begins at an offset.
pub data Sent : Type 0 where
  returned : Bool → Sent
  from : ℕ → Sent

unfoldable pub chunk_end : Transfer → ℕ → ℕ
chunk_end tr offset =
    let end = add64 offset tr.chunk_size in if ltb (length tr.body) end then length tr.body else end

unfoldable pub chunk_request : String → Transfer → ℕ → InstallSnapshotRequest
unfolding chunk_end
chunk_request id tr offset = record {
  term = tr.term;
  leader_id = id;
  last_included_index = tr.last_included_index;
  last_included_term = tr.last_included_term;
  offset = offset;
  chunk = take (chunk_end tr offset - offset) (drop offset tr.body);
  done = chunk_end tr offset == length tr.body;
}

-- What the answer of the peer means for a leader in the transfer's term.
unfoldable pub next_offset : Transfer → ℕ → InstallSnapshotResponse → Sent
unfolding chunk_end
next_offset tr offset resp =
    let done = chunk_end tr offset == length tr.body in
    if not resp.success
    then if (resp.bytes_received == offset) && not done
      then returned false
      else if ltb (length tr.body) resp.bytes_received
      then returned false
      else from resp.bytes_received
    else if done
    then returned true
    else from (chunk_end tr offset)

module _ {S M : Type 0} (st : Store S) where
  unfoldable pub chunk_answer :
      Timer → Transfer → ℕ → Node S M × Option InstallSnapshotResponse → Node S M × Sent
  unfolding become_follower next_offset
  chunk_answer t tr offset (n, none) = (n, returned false)
  chunk_answer t tr offset (n, some resp) =
      if ltb n.current_term resp.term
      then ((become_follower st t resp.term "" n).0, returned false)
      else if not (is_leader n.role) || not (n.current_term == tr.term)
      then (n, returned false)
      else (n, next_offset tr offset resp)

module _ {S M E : Type 0} where
  -- One round of the loop is done; `rest` is the loop from the next offset.
  abbrev pub after_chunk :
      (ℕ → E → Node S M → E × (Node S M × Option Bool))
      → E × (Node S M × Sent)
      → E × (Node S M × Option Bool)
  after_chunk rest (env, (n, returned b)) = (env, (n, some b))
  after_chunk rest (env, (n, from next)) = rest next env n

-- `E` is the state of the world: it says whether the context is done, and the call of the transport
-- changes it, with what other threads do to the node meanwhile. `none` is an error of the call.
module _ {S M E : Type 0} (st : Store S) (ctx_done : E → Bool)
    (install : E
      → InstallSnapshotRequest
      → Node S M
      → E × (Node S M × Option InstallSnapshotResponse)) where
  unfoldable pub send_chunk : Timer → Transfer → ℕ → E → Node S M → E × (Node S M × Sent)
  unfolding chunk_answer chunk_request
  send_chunk t tr offset env n =
      if ctx_done env
      then (env, (n, returned false))
      else let (env', answer) = install env (chunk_request n.id tr offset) n in
        (env', chunk_answer st t tr offset answer)

  -- The loop on fuel: `none` when the fuel is over.
  unfoldable pub send_chunks :
      ℕ → Timer → Transfer → ℕ → E → Node S M → E × (Node S M × Option Bool)
  unfolding send_chunk
  send_chunks zero t tr offset env n = (env, (n, none))
  send_chunks (suc fuel) t tr offset env n =
      after_chunk (λ next env' m. send_chunks fuel t tr next env' m) (send_chunk t tr offset env n)

  -- What follows the encoding of the snapshot's data.
  unfoldable pub send_encoded :
      ℕ → Timer → ℕ → ℕ → ℕ → ℕ → E → Node S M → Option (List ℕ) → E × (Node S M × Option Bool)
  unfolding send_chunks
  send_encoded fuel t term last_index last_term chunk_size env n none = (env, (n, some false))
  send_encoded fuel t term last_index last_term chunk_size env n (some body) =
      send_chunks fuel t (transfer term last_index last_term body chunk_size) 0 env n

  -- `marshal` is json.Marshal on a map of strings, with `none` for its error.
  unfoldable pub send_snapshot :
      (Option (Dict String) → Option (List ℕ))
      → ℕ
      → Timer
      → ℕ
      → ℕ
      → ℕ
      → Option (Dict String)
      → ℕ
      → E
      → Node S M
      → E × (Node S M × Option Bool)
  unfolding send_encoded
  send_snapshot marshal fuel t term last_index last_term contents chunk_size env n =
      send_encoded fuel t term last_index last_term chunk_size env n (marshal contents)
