-- ===== src/Raft/Rounds/Keep.antt =====
-- internal/raft/node.go: a run of `replicateToPeerForRead` keeps the node valid, and gives true only
-- on a fresh success of the peer.
use go_raft_kv.Prelude.{
  ℕ, zero, suc, String, Bool, true, false, not, ◌||◌, Option, none, some, List, ltb, ◌==◌, if-cases,
}
use go_raft_kv.Storage.Types.{Snapshot}
use go_raft_kv.Raft.Types.{
  AppendEntriesRequest, AppendEntriesResponse, InstallSnapshotRequest, InstallSnapshotResponse,
  Store, Timer,
}
use go_raft_kv.Raft.Node.{Node, is_leader}
use go_raft_kv.Raft.Persist.{become_follower}
use go_raft_kv.Raft.Replicate.{
  Round, over, needs_snapshot, again, send, Ending, result, another, prepare_round, take_answer,
  try_acquire,
}
use go_raft_kv.Raft.SendSnapshot.{
  Transfer, Sent, returned, from, transfer, chunk_request, chunk_answer, after_chunk, send_chunk,
  send_chunks, send_encoded, send_snapshot,
}
use go_raft_kv.Raft.Progress.{IsValid, Advances, Keeps, Keeps-refl, Keeps-trans}
use go_raft_kv.Raft.Progress.Frames.{Frame-Keeps, become_follower-Frame}
use go_raft_kv.Raft.Progress.Replicate.{
  prepare_round-Keeps, take_answer-Keeps, snapshot_sent-Keeps, try_acquire-Keeps, release-Keeps,
}
use go_raft_kv.Raft.Rounds.{
  World, after_transfer, after_answer, after_append, run_round, replicate_loop, replicate_to_peer,
  after_try, acquire, release_slot, after_acquire, replicate_to_peer_for_read,
}

module _ {S M : Type 0} (st : Store S) (t : Timer) where
  chunk_answer-Keeps :
      (tr : Transfer) (offset : ℕ) (n : Node S M) (o : Option InstallSnapshotResponse)
      → Keeps n (chunk_answer st t tr offset (n, o)).0
  unfolding chunk_answer become_follower
  chunk_answer-Keeps tr offset n none = Keeps-refl n
  chunk_answer-Keeps tr offset n (some resp) =
      let P : Node S M × Sent → Type 0 = λ r. Keeps n r.0 in
      if-cases P (ltb n.current_term resp.term) _ _
        (λ _.
          Frame-Keeps n (become_follower st t resp.term "" n).0
            (become_follower-Frame st t true resp.term "" n))
        (λ _.
          if-cases P (not (is_leader n.role) || not (n.current_term == tr.term)) _ _
            (λ _. Keeps-refl n) (λ _. Keeps-refl n))

module _ {S M E : Type 0} (st : Store S) (world : World S M E) (t : Timer) where
  -- What other threads do to the node meanwhile is any number of steps of it.
  abbrev pub IsCalm : Type 0
  IsCalm = record {
    append :
        (env : E) (req : AppendEntriesRequest) (n : Node S M)
        → Keeps n (world.append env req n).1.0;
    install :
        (env : E) (req : InstallSnapshotRequest) (n : Node S M)
        → Keeps n (world.install env req n).1.0;
    poll : (env : E) (n : Node S M) → Keeps n (world.poll env n).1;
  }

  send_chunk-Keeps :
      IsCalm
      → (tr : Transfer) (offset : ℕ) (env : E) (n : Node S M)
      → Keeps n (send_chunk st world.ctx_done world.install t tr offset env n).1.0
  unfolding send_chunk
  send_chunk-Keeps calm tr offset env n =
      if-cases (λ (r : E × (Node S M × Sent)). Keeps n r.1.0) (world.ctx_done env) _ _
        (λ _. Keeps-refl n)
        (λ _.
          let called = world.install env (chunk_request n.id tr offset) n in
          Keeps-trans n called.1.0 (chunk_answer st t tr offset called.1).0
            (calm.install env (chunk_request n.id tr offset) n)
            (chunk_answer-Keeps st t tr offset called.1.0 called.1.1))

  abbrev KeepsAll : (E → Node S M → E × (Node S M × Option Bool)) → Type 0
  KeepsAll rest = (env : E) (n : Node S M) → Keeps n (rest env n).1.0

  after_chunk-Keeps :
      (rest : ℕ → E → Node S M → E × (Node S M × Option Bool)) (x : E × (Node S M × Sent))
      → ((k : ℕ) → KeepsAll (rest k))
      → Keeps x.1.0 (after_chunk rest x).1.0
  after_chunk-Keeps rest (env, (n, returned b)) k = Keeps-refl n
  after_chunk-Keeps rest (env, (n, from next)) k = k next env n

  send_chunks-Keeps :
      IsCalm
      → (fuel : ℕ) (tr : Transfer) (offset : ℕ)
      → KeepsAll (λ env n. send_chunks st world.ctx_done world.install fuel t tr offset env n)
  unfolding send_chunks
  send_chunks-Keeps calm zero tr offset env n = Keeps-refl n
  send_chunks-Keeps calm (suc fuel) tr offset env n =
      let x = send_chunk st world.ctx_done world.install t tr offset env n in
      Keeps-trans n x.1.0
        (after_chunk (λ next e m. send_chunks st world.ctx_done world.install fuel t tr next e m)
          x).1.0
        (send_chunk-Keeps calm tr offset env n)
        (after_chunk-Keeps
          (λ next e m. send_chunks st world.ctx_done world.install fuel t tr next e m) x
          (λ k. send_chunks-Keeps calm fuel tr k))

  send_encoded-Keeps :
      IsCalm
      → (fuel term last_index last_term size : ℕ) (o : Option (List ℕ)) (env : E) (n : Node S M)
      → Keeps n
          (send_encoded st world.ctx_done world.install fuel t term last_index last_term size env n
            o).1.0
  unfolding send_encoded
  send_encoded-Keeps calm fuel term last_index last_term size none env n = Keeps-refl n
  send_encoded-Keeps calm fuel term last_index last_term size (some body) env n =
      send_chunks-Keeps calm fuel (transfer term last_index last_term body size) 0 env n

module _ {S M E : Type 0} (st : Store S) (world : World S M E) (t : Timer) (peer : String) where
  after_transfer-Keeps :
      (term : ℕ) (snap : Snapshot) (x : E × (Node S M × Option Bool))
      → Keeps x.1.0 (after_transfer st world t peer term snap x).1.0
  unfolding after_transfer
  after_transfer-Keeps term snap (env, (n, some true)) =
      snapshot_sent-Keeps peer term snap.last_included_index n
  after_transfer-Keeps term snap (env, (n, some false)) = Keeps-refl n
  after_transfer-Keeps term snap (env, (n, none)) = Keeps-refl n

  after_answer-Keeps :
      (rest : E → Node S M → E × (Node S M × Option Bool)) (env : E) (x : Node S M × Ending)
      → KeepsAll st world t rest
      → Keeps x.0 (after_answer st world t peer rest env x).1.0
  unfolding after_answer
  after_answer-Keeps rest env (n, result b) k = Keeps-refl n
  after_answer-Keeps rest env (n, another) k = k env n

  after_append-Keeps :
      (rest : E → Node S M → E × (Node S M × Option Bool)) (req : AppendEntriesRequest)
      (x : E × (Node S M × Option AppendEntriesResponse))
      → KeepsAll st world t rest
      → Keeps x.1.0 (after_append st world t peer rest req x).1.0
  unfolding after_append
  after_append-Keeps rest req (env, (n, none)) k = Keeps-refl n
  after_append-Keeps rest req (env, (n, some resp)) k =
      let x = take_answer st t peer req resp n in
      Keeps-trans n x.0 (after_answer st world t peer rest env x).1.0
        (take_answer-Keeps st t peer req resp n) (after_answer-Keeps rest env x k)

  run_round-Keeps :
      IsCalm st world t
      → (rest : E → Node S M → E × (Node S M × Option Bool)) (env : E) (x : Node S M × Round)
      → KeepsAll st world t rest
      → Keeps x.0 (run_round st world t peer rest env x).1.0
  unfolding run_round send_snapshot
  run_round-Keeps calm rest env (n, over) k = Keeps-refl n
  run_round-Keeps calm rest env (n, again) k = k env n
  run_round-Keeps calm rest env (n, send req) k =
      let x = world.append env req n in
      Keeps-trans n x.1.0 (after_append st world t peer rest req x).1.0 (calm.append env req n)
        (after_append-Keeps rest req x k)
  run_round-Keeps calm rest env (n, needs_snapshot term snap) k =
      let x =
        send_snapshot st world.ctx_done world.install world.marshal world.transfer_fuel t term
          snap.last_included_index snap.last_included_term snap.contents n.snapshot_chunk_bytes env
          n in
      Keeps-trans n x.1.0 (after_transfer st world t peer term snap x).1.0
        (send_encoded-Keeps st world t calm world.transfer_fuel term snap.last_included_index
          snap.last_included_term n.snapshot_chunk_bytes (world.marshal snap.contents) env n)
        (after_transfer-Keeps term snap x)

  replicate_loop-Keeps :
      IsCalm st world t
      → (left : ℕ) → KeepsAll st world t (λ env n. replicate_loop st world t peer left env n)
  unfolding replicate_loop
  replicate_loop-Keeps calm zero env n = Keeps-refl n
  replicate_loop-Keeps calm (suc left) env n =
      let x = prepare_round peer n in
      let go = run_round st world t peer (λ e m. replicate_loop st world t peer left e m) env x in
      elim (world.ctx_done env)
        as (λ b.
          Keeps n
            (elim b as (λ _. E × (Node S M × Option Bool)) [
              | true ↦ (env, (n, some false))
              | false ↦ go
            ]).1.0) [
              | true ↦ Keeps-refl n
              | false ↦ Keeps-trans n x.0 go.1.0 (prepare_round-Keeps peer n) (
                  run_round-Keeps calm (λ e m. replicate_loop st world t peer left e m) env x
                    (replicate_loop-Keeps calm left))
            ]

  after_try-Keeps :
      IsCalm st world t
      → (rest : E → Node S M → E × (Node S M × Option Bool)) (env : E) (x : Node S M × Option Bool)
      → KeepsAll st world t rest
      → Keeps x.0 (after_try st world t peer rest env x).1.0
  after_try-Keeps calm rest env (n, some b) k = Keeps-refl n
  after_try-Keeps calm rest env (n, none) k =
      Keeps-trans n (world.poll env n).1 (rest (world.poll env n).0 (world.poll env n).1).1.0
        (calm.poll env n) (k (world.poll env n).0 (world.poll env n).1)

  acquire-Keeps :
      IsCalm st world t
      → (fuel : ℕ) → KeepsAll st world t (λ env n. acquire st world t peer fuel env n)
  unfolding acquire
  acquire-Keeps calm zero env n = Keeps-refl n
  acquire-Keeps calm (suc fuel) env n =
      let x = try_acquire peer n in
      let go = after_try st world t peer (λ e m. acquire st world t peer fuel e m) env x in
      elim (world.ctx_done env)
        as (λ b.
          Keeps n
            (elim b as (λ _. E × (Node S M × Option Bool)) [
              | true ↦ (env, (n, some false))
              | false ↦ go
            ]).1.0) [
              | true ↦ Keeps-refl n
              | false ↦ Keeps-trans n x.0 go.1.0 (try_acquire-Keeps peer n) (
                  after_try-Keeps calm (λ e m. acquire st world t peer fuel e m) env x
                    (acquire-Keeps calm fuel))
            ]

  release_slot-Keeps :
      (x : E × (Node S M × Option Bool)) → Keeps x.1.0 (release_slot st world t peer x).1.0
  unfolding release_slot
  release_slot-Keeps (env, (n, none)) = Keeps-refl n
  release_slot-Keeps (env, (n, some b)) = release-Keeps peer n

  after_acquire-Keeps :
      IsCalm st world t
      → (x : E × (Node S M × Option Bool)) → Keeps x.1.0 (after_acquire st world t peer x).1.0
  unfolding after_acquire replicate_to_peer
  after_acquire-Keeps calm (env, (n, some true)) =
      let x = replicate_to_peer st world t peer env n in
      Keeps-trans n x.1.0 (release_slot st world t peer x).1.0 (replicate_loop-Keeps calm 128 env n)
        (release_slot-Keeps x)
  after_acquire-Keeps calm (env, (n, some false)) = Keeps-refl n
  after_acquire-Keeps calm (env, (n, none)) = Keeps-refl n

  -- A replication to a peer, from the wait for its slot to its end, with whatever answers of the peer,
  -- refusals, errors and snapshot transfers, leaves a valid node valid and goes back on nothing, if what
  -- other threads do during its calls and waits does so.
  pub replicate_to_peer_for_read-Keeps :
      (fuel : ℕ) (env : E) (n : Node S M)
      → IsCalm st world t
      → IsValid n
      → IsValid (replicate_to_peer_for_read st world t peer fuel env n).1.0
        × Advances n (replicate_to_peer_for_read st world t peer fuel env n).1.0
  unfolding replicate_to_peer_for_read
  replicate_to_peer_for_read-Keeps fuel env n calm =
      let x = acquire st world t peer fuel env n in
      Keeps-trans n x.1.0 (after_acquire st world t peer x).1.0 (acquire-Keeps calm fuel env n)
        (after_acquire-Keeps calm x)
