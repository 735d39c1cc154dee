-- ===== src/Raft/Guarantees/Refused.antt =====
-- internal/raft/node.go: `sendSnapshot` with a peer that takes nothing.
use go_raft_kv.Prelude.{
  ℕ, zero, suc, ◌≤◌, ◌<◌, ◌≡◌, refl, ap, ◌∙◌, true, false, Option, none, some, ltb, le→ltb, ◌==◌,
  arith, length,
}
use go_raft_kv.Prelude.Word.{u64_mod, add64, add64_exact}
use go_raft_kv.Raft.Types.{InstallSnapshotRequest, InstallSnapshotResponse, Store, Timer}
use go_raft_kv.Raft.Node.{Node, is_leader}
use go_raft_kv.Raft.Install.{install_response}
use go_raft_kv.Raft.SendSnapshot.{
  Transfer, from, chunk_end, next_offset, chunk_answer, after_chunk, send_chunk, send_chunks,
}

-- The answer of a peer that takes nothing of the snapshot, in a term `k`.
abbrev pub refuses :
    {S M E : Type 0}
    → ℕ
    → E
    → InstallSnapshotRequest
    → Node S M
    → E × (Node S M × Option InstallSnapshotResponse)
refuses k env req n = (env, (n, some (install_response k false 0)))

module _ {S M E : Type 0} (st : Store S) (t : Timer) where
  whole_again :
      (tr : Transfer) (k : ℕ) (env : E) (n : Node S M)
      → length tr.body ≤ tr.chunk_size
      → tr.chunk_size < u64_mod
      → is_leader n.role ≡ true
      → n.current_term ≡ tr.term
      → k ≤ tr.term
      → send_chunk st (λ _. false) (refuses k) t tr 0 env n ≡ (env, (n, from 0))
  unfolding send_chunk chunk_answer next_offset chunk_end
  whole_again tr k env n one small leads same low =
      let exact : add64 0 tr.chunk_size ≡ tr.chunk_size =
        omega (arith, add64_exact 0 tr.chunk_size) in
      let current : ltb n.current_term k ≡ false = le→ltb _ _ (omega arith) in
      let there : (n.current_term == tr.term) ≡ true = ground (arith, same) in
      rw (current, leads, there, exact) (ground (arith, one))

  -- When a peer refuses every chunk and asks for offset 0, in a term that is not later, and the body
  -- fits in one chunk, a leader in the transfer's term whose context does not end sends for ever: no
  -- number of rounds ends the loop.
  pub send_chunks_forever :
      (fuel : ℕ) (tr : Transfer) (k : ℕ) (env : E) (n : Node S M)
      → length tr.body ≤ tr.chunk_size
      → tr.chunk_size < u64_mod
      → is_leader n.role ≡ true
      → n.current_term ≡ tr.term
      → k ≤ tr.term
      → send_chunks st (λ _. false) (refuses k) fuel t tr 0 env n ≡ (env, (n, none))
  unfolding send_chunks
  send_chunks_forever zero tr k env n one small leads same low = refl
  send_chunks_forever (suc fuel) tr k env n one small leads same low =
      ap (after_chunk λ next env m. send_chunks st (λ _. false) (refuses k) fuel t tr next env m)
        (whole_again tr k env n one small leads same low)
      ∙ send_chunks_forever fuel tr k env n one small leads same low
