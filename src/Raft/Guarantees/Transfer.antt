-- ===== src/Raft/Guarantees/Transfer.antt =====
-- internal/raft/node.go: `sendSnapshot` on one side and the assembly of the chunks in
-- `HandleInstallSnapshot` on the other, from the first chunk to the whole body.
use go_raft_kv.Prelude.{
  ℕ, zero, suc, ◌+◌, ◌≤◌, ◌<◌, ◌≡◌, ◌⊎◌, inl, inr, refl, sym, ap, ◌∙◌, String, true, false, Option,
  none, some, List, [], ◌==◌, if◌then◌else◌, arith, length, take,
}
use go_raft_kv.Prelude.Word.{u64_mod}
use go_raft_kv.Raft.Types.{SnapshotProgress, Store, Timer}
use go_raft_kv.Raft.Node.{Node, is_leader}
use go_raft_kv.Raft.Install.{same_stream, restart_progress, receive_chunk}
use go_raft_kv.Raft.SendSnapshot.{Transfer, chunk_request, send_chunks}
use go_raft_kv.Raft.Guarantees.Chunks.{progress, holding, Fits, extend_here, receive_holding}
use go_raft_kv.Raft.SendSnapshot.{
  transfer, send_encoded, send_snapshot, default_snapshot_chunk_bytes,
}
use go_raft_kv.Prelude.Dict.{Dict}
use go_raft_kv.Raft.Guarantees.Deliver.{
  to_follower, run, Leads, delivered, rest, sent_to, send_back, deliver,
}

-- Where a follower can stand when a transfer begins: in another stream or none, or with the first
-- bytes of this one.
abbrev pub Begins : {F N : Type 0} → String → Transfer → Node F N → Type 0
Begins id tr f =
    ((p : SnapshotProgress)
      → f.pending_snapshot ≡ some p
      → same_stream (chunk_request id tr 0) p ≡ false)
    ⊎ ((j : ℕ) × (j ≤ length tr.body)
        × (f.pending_snapshot ≡ some (progress id tr (take j tr.body))))

module _ {F N : Type 0} (id : String) (tr : Transfer) (f : Node F N) where
  restart_afresh :
      restart_progress (chunk_request id tr 0) f
      ≡ receive_chunk (chunk_request id tr 0) (holding id tr 0 f)
  unfolding restart_progress chunk_request
  restart_afresh =
      extend_here (chunk_request id tr 0) (progress id tr []) f refl
      ∙ sym (
          receive_holding id tr f 0 0
          ∙ extend_here (chunk_request id tr 0) (progress id tr []) (holding id tr 0 f) refl)

  -- The first chunk starts a stream anew.
  receive_afresh :
      (o : Option SnapshotProgress)
      → f.pending_snapshot ≡ o
      → ((p : SnapshotProgress) → o ≡ some p → same_stream (chunk_request id tr 0) p ≡ false)
      → receive_chunk (chunk_request id tr 0) f
        ≡ receive_chunk (chunk_request id tr 0) (holding id tr 0 f)
  unfolding receive_chunk chunk_request
  receive_afresh none e other = rw e restart_afresh
  receive_afresh (some p) e other = rw (e, other p refl) restart_afresh

module _ {S M F N : Type 0} (st : Store S) (t : Timer) (tr : Transfer) (n : Node S M) where
  -- The first round on a follower that the transfer can begin at, and what follows it.
  deliver_from_start :
      (fuel : ℕ) (f : Node F N) (got : Option (List ℕ))
      → Leads st t tr n f
      → Fits tr
      → Begins n.id tr f
      → length tr.body + 2 ≤ fuel
      → run st t tr n fuel 0 (f, got) ≡ delivered st t tr n f
  unfolding send_chunks
  deliver_from_start zero f got l fits b enough = absurd (omega arith)
  deliver_from_start (suc fuel) f got l fits (inl other) enough =
      ap (rest st t tr n fuel) (
        sent_to st t tr n 0 f got _ (receive_afresh n.id tr f f.pending_snapshot refl other)
        ∙ sym (sent_to st t tr n 0 (holding n.id tr 0 f) got _ refl))
      ∙ deliver st t tr n (suc fuel) 0 f got l fits (omega arith) (omega arith)
  deliver_from_start (suc fuel) f got l fits (inr (zero, h, e)) enough =
      ap
        (λ (x : Option SnapshotProgress).
          run st t tr n (suc fuel) 0 (record f { pending_snapshot = x }, got))
        e
      ∙ deliver st t tr n (suc fuel) 0 f got l fits (omega arith) (omega arith)
  deliver_from_start (suc fuel) f got l fits (inr (suc j, h, e)) enough =
      ap
        (λ (x : Option SnapshotProgress).
          run st t tr n (suc fuel) 0 (record f { pending_snapshot = x }, got))
        e
      ∙ ap (rest st t tr n fuel) (send_back st t tr n (suc j) f got l (omega arith) h)
      ∙ deliver st t tr n fuel (suc j) f got l fits h (omega arith)

chunk_size-pos : (k : ℕ) → 0 < (if k == 0 then default_snapshot_chunk_bytes else k)
chunk_size-pos k = ground arith

module _ {S M F N : Type 0} (st : Store S) (t : Timer) where
  -- The leader's transfer of a snapshot, whose calls reach the follower's assembly of the chunks and
  -- whose context does not end, ends with success after at most two rounds more than the encoded body
  -- has bytes, whatever the chunk size and whether the follower is in another stream, in none, or has
  -- the first bytes of this one; the follower then has put together exactly the body. The leader leads
  -- in the transfer's term, the follower is in no later one, and the body and one chunk fit in a uint64.
  pub send_snapshot_delivers :
      (marshal : Option (Dict String) → Option (List ℕ)) (contents : Option (Dict String))
      (body : List ℕ) (fuel term last_index last_term chunk_size : ℕ) (n : Node S M) (f : Node F N)
      → marshal contents ≡ some body
      → length body + (transfer term last_index last_term body chunk_size).chunk_size < u64_mod
      → is_leader n.role ≡ true
      → n.current_term ≡ term
      → f.current_term ≤ term
      → Begins n.id (transfer term last_index last_term body chunk_size) f
      → length body + 2 ≤ fuel
      → send_snapshot st
          (λ _. false)
          to_follower
          marshal
          fuel
          t
          term
          last_index
          last_term
          contents
          chunk_size
          (f, none)
          n
        ≡ (
          (
            record f {
              pending_snapshot = some (record {
                leader_id = n.id;
                last_included_index = last_index;
                last_included_term = last_term;
                buffer = body;
              });
            },
            some body,
          ),
          (n, some true),
        )
  unfolding send_snapshot send_encoded
  send_snapshot_delivers marshal contents body fuel term last_index last_term chunk_size n f m small
        leads same low b enough =
      let tr = transfer term last_index last_term body chunk_size in
      ap
        (λ (o : Option (List ℕ)).
          send_encoded st (λ _. false) to_follower fuel t term last_index last_term chunk_size
            (f, none) n o)
        m
      ∙ (deliver_from_start st t tr n fuel f none (leads, same, low)
          (chunk_size-pos chunk_size, small) b enough)
