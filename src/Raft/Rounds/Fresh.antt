-- ===== src/Raft/Rounds/Fresh.antt =====
-- internal/raft/node.go: a run of `replicateToPeerForRead` gives true only on a success of the
-- peer during the run.
use go_raft_kv.Prelude.{
  arith, ℕ, zero, suc, ◌≡◌, refl, ap, String, Bool, true, false, not, ◌||◌, Option, none, some,
  List, ltb, ◌==◌, if-cases,
}
use go_raft_kv.Storage.Types.{Snapshot}
use go_raft_kv.Raft.Types.{
  AppendEntriesRequest, AppendEntriesResponse, InstallSnapshotRequest, InstallSnapshotResponse,
  Store, Timer,
}
use go_raft_kv.Raft.Node.{Node, is_leader}
use go_raft_kv.Raft.Replicate.{
  Round, over, needs_snapshot, again, send, Ending, result, another, prepare_round, take_answer,
}
use go_raft_kv.Raft.SendSnapshot.{
  Transfer, Sent, returned, from, transfer, next_offset, chunk_request, chunk_answer, after_chunk,
  send_chunk, send_chunks, send_encoded, send_snapshot,
}
use go_raft_kv.Raft.Rounds.{
  World, after_transfer, after_answer, after_append, run_round, replicate_loop, replicate_to_peer,
  acquire, release_slot, after_acquire, replicate_to_peer_for_read,
}

abbrev as_result : Option Bool → Ending
as_result none = another
as_result (some b) = result b

abbrev as_returned : Option Bool → Sent
as_returned none = from 0
as_returned (some b) = returned b

successful_offset :
    (tr : Transfer) (offset : ℕ) (resp : InstallSnapshotResponse)
    → next_offset tr offset resp ≡ returned true
    → resp.success ≡ true
unfolding next_offset
successful_offset tr offset resp h = ground (arith, h)

module _ {S M : Type 0} (st : Store S) (t : Timer) where
  successful_answer :
      (peer : String) (req : AppendEntriesRequest) (resp : AppendEntriesResponse) (n : Node S M)
      → (take_answer st t peer req resp n).1 ≡ result true
      → resp.success ≡ true
  unfolding take_answer
  successful_answer peer req resp n h =
      let P : Node S M × Ending → Type 0 = λ r. r.1 ≡ result true → resp.success ≡ true in
      if-cases P (ltb n.current_term resp.term) _ _ (λ _ e. absurd (cc))
        (λ _.
          if-cases P (not (is_leader n.role) || not (n.current_term == req.term)) _ _
            (λ _ e. absurd (cc))
            (λ _.
              if-cases P resp.success _ _ (λ yes _. yes)
                (λ _.
                  if-cases P (ltb 0 resp.conflict_index) _ _ (λ _ e. absurd (cc))
                    (λ _ e. absurd (cc)))))
        h

  successful_chunk :
      (tr : Transfer) (offset : ℕ) (n : Node S M) (o : Option InstallSnapshotResponse)
      → (chunk_answer st t tr offset (n, o)).1 ≡ returned true
      → (resp : InstallSnapshotResponse) × (o ≡ some resp) × (resp.success ≡ true)
  unfolding chunk_answer
  successful_chunk tr offset n none h = absurd (cc)
  successful_chunk tr offset n (some resp) h =
      let P : Node S M × Sent → Type 0 = λ r. r.1 ≡ returned true → resp.success ≡ true in
      (
        resp,
        refl,
        if-cases P (ltb n.current_term resp.term) _ _ (λ _ e. absurd (cc))
            (λ _.
              if-cases P (not (is_leader n.role) || not (n.current_term == tr.term)) _ _
                (λ _ e. absurd (cc)) (λ _ e. successful_offset tr offset resp e))
            h,
      )

module _ {S M E : Type 0} (st : Store S) (world : World S M E) (t : Timer) (P : E → Type 0) where
  -- `P` holds of the world when a call has just been answered with success.
  abbrev pub Marks : Type 0
  Marks = record {
    append :
        (env : E) (req : AppendEntriesRequest) (n : Node S M) (resp : AppendEntriesResponse)
        → (world.append env req n).1.1 ≡ some resp
        → resp.success ≡ true
        → P (world.append env req n).0;
    install :
        (env : E) (req : InstallSnapshotRequest) (n : Node S M) (resp : InstallSnapshotResponse)
        → (world.install env req n).1.1 ≡ some resp
        → resp.success ≡ true
        → P (world.install env req n).0;
  }

  -- A run that gives true ends where `P` holds.
  abbrev EndsMarked : E × (Node S M × Option Bool) → Type 0
  EndsMarked x = x.1.1 ≡ some true → P x.0

  abbrev AllMarked : (E → Node S M → E × (Node S M × Option Bool)) → Type 0
  AllMarked rest = (env : E) (n : Node S M) → EndsMarked (rest env n)

  abbrev ChunkMarked : E × (Node S M × Sent) → Type 0
  ChunkMarked x = x.1.1 ≡ returned true → P x.0

  send_chunk_marked :
      Marks
      → (tr : Transfer) (offset : ℕ) (env : E) (n : Node S M)
      → ChunkMarked (send_chunk st world.ctx_done world.install t tr offset env n)
  unfolding send_chunk
  send_chunk_marked marks tr offset env n =
      if-cases ChunkMarked (world.ctx_done env) _ _ (λ _ e. absurd (cc))
        (λ _ e.
          let req = chunk_request n.id tr offset in
          let called = world.install env req n in
          let (resp, there, good) = successful_chunk st t tr offset called.1.0 called.1.1 e in
          marks.install env req n resp there good)

  after_chunk_marked :
      (rest : ℕ → E → Node S M → E × (Node S M × Option Bool)) (x : E × (Node S M × Sent))
      → ChunkMarked x
      → ((k : ℕ) → AllMarked (rest k))
      → EndsMarked (after_chunk rest x)
  after_chunk_marked rest (env, (n, returned b)) m k = λ e. m (ap as_returned e)
  after_chunk_marked rest (env, (n, from next)) m k = k next env n

  send_chunks_marked :
      Marks
      → (fuel : ℕ) (tr : Transfer) (offset : ℕ)
      → AllMarked (λ env n. send_chunks st world.ctx_done world.install fuel t tr offset env n)
  unfolding send_chunks
  send_chunks_marked marks zero tr offset env n = λ e. absurd (cc)
  send_chunks_marked marks (suc fuel) tr offset env n =
      after_chunk_marked
        (λ next e m. send_chunks st world.ctx_done world.install fuel t tr next e m)
        (send_chunk st world.ctx_done world.install t tr offset env n)
        (send_chunk_marked marks tr offset env n) (λ k. send_chunks_marked marks fuel tr k)

  send_encoded_marked :
      Marks
      → (fuel term last_index last_term size : ℕ) (o : Option (List ℕ)) (env : E) (n : Node S M)
      → EndsMarked (
          send_encoded st world.ctx_done world.install fuel t term last_index last_term size env n
            o)
  unfolding send_encoded
  send_encoded_marked marks fuel term last_index last_term size none env n = λ e. absurd (cc)
  send_encoded_marked marks fuel term last_index last_term size (some body) env n =
      send_chunks_marked marks fuel (transfer term last_index last_term body size) 0 env n

module _ {S M E : Type 0} (st : Store S) (world : World S M E) (t : Timer) (peer : String)
    (P : E → Type 0) where
  after_transfer_marked :
      (term : ℕ) (snap : Snapshot) (x : E × (Node S M × Option Bool))
      → EndsMarked st world t P x
      → EndsMarked st world t P (after_transfer st world t peer term snap x)
  unfolding after_transfer
  after_transfer_marked term snap (env, (n, some true)) m = m
  after_transfer_marked term snap (env, (n, some false)) m = m
  after_transfer_marked term snap (env, (n, none)) m = m

  after_answer_marked :
      (rest : E → Node S M → E × (Node S M × Option Bool)) (env : E) (x : Node S M × Ending)
      → (x.1 ≡ result true → P env)
      → AllMarked st world t P rest
      → EndsMarked st world t P (after_answer st world t peer rest env x)
  unfolding after_answer
  after_answer_marked rest env (n, result b) m k = λ e. m (ap as_result e)
  after_answer_marked rest env (n, another) m k = k env n

  after_append_marked :
      (rest : E → Node S M → E × (Node S M × Option Bool)) (req : AppendEntriesRequest)
      (x : E × (Node S M × Option AppendEntriesResponse))
      → ((resp : AppendEntriesResponse) → x.1.1 ≡ some resp → resp.success ≡ true → P x.0)
      → AllMarked st world t P rest
      → EndsMarked st world t P (after_append st world t peer rest req x)
  unfolding after_append
  after_append_marked rest req (env, (n, none)) m k = λ e. absurd (cc)
  after_append_marked rest req (env, (n, some resp)) m k =
      after_answer_marked rest env (take_answer st t peer req resp n)
        (λ e. m resp refl (successful_answer st t peer req resp n e)) k

  run_round_marked :
      Marks st world t P
      → (rest : E → Node S M → E × (Node S M × Option Bool)) (env : E) (x : Node S M × Round)
      → AllMarked st world t P rest
      → EndsMarked st world t P (run_round st world t peer rest env x)
  unfolding run_round send_snapshot
  run_round_marked marks rest env (n, over) k = λ e. absurd (cc)
  run_round_marked marks rest env (n, again) k = k env n
  run_round_marked marks rest env (n, send req) k =
      after_append_marked rest req (world.append env req n)
        (λ resp there good. marks.append env req n resp there good) k
  run_round_marked marks rest env (n, needs_snapshot term snap) k =
      after_transfer_marked term snap
        (send_snapshot st world.ctx_done world.install world.marshal world.transfer_fuel t term
          snap.last_included_index snap.last_included_term snap.contents n.snapshot_chunk_bytes env
          n)
        (send_encoded_marked st world t P marks world.transfer_fuel term snap.last_included_index
          snap.last_included_term n.snapshot_chunk_bytes (world.marshal snap.contents) env n)

  replicate_loop_marked :
      Marks st world t P
      → (left : ℕ) → AllMarked st world t P (λ env n. replicate_loop st world t peer left env n)
  unfolding replicate_loop
  replicate_loop_marked marks zero env n = λ e. absurd (cc)
  replicate_loop_marked marks (suc left) env n =
      let go =
        run_round st world t peer (λ e m. replicate_loop st world t peer left e m) env
          (prepare_round peer n) in
      elim (world.ctx_done env)
        as (λ b. EndsMarked st world t P (elim b as (λ _. E × (Node S M × Option Bool)) [
          | true ↦ (env, (n, some false))
          | false ↦ go
        ])) [
          | true ↦ λ e. absurd (cc)
          | false ↦
              run_round_marked marks (λ e m. replicate_loop st world t peer left e m) env
                (prepare_round peer n) (replicate_loop_marked marks left)
        ]

  release_slot_marked :
      (x : E × (Node S M × Option Bool))
      → EndsMarked st world t P x
      → EndsMarked st world t P (release_slot st world t peer x)
  unfolding release_slot
  release_slot_marked (env, (n, none)) m = m
  release_slot_marked (env, (n, some b)) m = m

  after_acquire_marked :
      Marks st world t P
      → (x : E × (Node S M × Option Bool))
      → EndsMarked st world t P (after_acquire st world t peer x)
  unfolding after_acquire replicate_to_peer
  after_acquire_marked marks (env, (n, some true)) =
      release_slot_marked (replicate_to_peer st world t peer env n)
        (replicate_loop_marked marks 128 env n)
  after_acquire_marked marks (env, (n, some false)) = λ e. absurd (cc)
  after_acquire_marked marks (env, (n, none)) = λ e. absurd (cc)

  -- When `replicateToPeerForRead` gives true, an AppendEntries or InstallSnapshot call of this very run
  -- was the last one and was answered with success: whatever holds of the world after each such answer
  -- holds at the end. This is what the read barrier counts.
  pub replicate_to_peer_for_read_fresh :
      (fuel : ℕ) (env : E) (n : Node S M)
      → Marks st world t P
      → (replicate_to_peer_for_read st world t peer fuel env n).1.1 ≡ some true
      → P (replicate_to_peer_for_read st world t peer fuel env n).0
  unfolding replicate_to_peer_for_read
  replicate_to_peer_for_read_fresh fuel env n marks h =
      after_acquire_marked marks (acquire st world t peer fuel env n) h
