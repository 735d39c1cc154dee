-- ===== src/Raft/Guarantees/Deliver.antt =====
-- internal/raft/node.go: the rounds of `sendSnapshot` against the assembly of the chunks in
-- `HandleInstallSnapshot`, from the offset that the follower waits for.
use go_raft_kv.Prelude.{
  ℕ, zero, suc, ◌+◌, ◌≤◌, ◌<◌, ◌≡◌, inl, inr, refl, ap, ◌∙◌, Bool, true, false, Option, some, List,
  ltb, le→ltb, ◌==◌, Bool-cases, arith, length,
}
use go_raft_kv.Raft.Types.{InstallSnapshotRequest, InstallSnapshotResponse, Store, Timer}
use go_raft_kv.Raft.Node.{Node, is_leader}
use go_raft_kv.Raft.Install.{Receipt, answer, complete, install_response, receive_chunk}
use go_raft_kv.Raft.SendSnapshot.{
  Transfer, Sent, returned, from, chunk_end, chunk_request, next_offset, chunk_answer, after_chunk,
  send_chunk, send_chunks,
}
use go_raft_kv.Raft.Guarantees.Chunks.{
  progress, pending, holding, take_all, Fits, chunk_end_bounds, receive_elsewhere, receive_part,
  receive_last, next_part, next_last, next_back,
}

-- A call of the transport that reaches the follower `f` and changes nothing else; `got` is the body
-- that it has put together.
abbrev pub chunk_reply :
    {S M F N : Type 0}
    → Node S M
    → Option (List ℕ)
    → Node F N × Receipt
    → (Node F N × Option (List ℕ)) × (Node S M × Option InstallSnapshotResponse)
chunk_reply n got (f, answer r) = ((f, got), (n, some r))
chunk_reply n got (f, complete body) =
    ((f, some body), (n, some (install_response f.current_term true (length body))))

abbrev pub to_follower :
    {S M F N : Type 0}
    → Node F N × Option (List ℕ)
    → InstallSnapshotRequest
    → Node S M
    → (Node F N × Option (List ℕ)) × (Node S M × Option InstallSnapshotResponse)
to_follower (f, got) req n = chunk_reply n got (receive_chunk req f)

module _ {S M F N : Type 0} (st : Store S) (t : Timer) (tr : Transfer) (n : Node S M) where
  abbrev pub answered :
      ℕ
      → (Node F N × Option (List ℕ)) × (Node S M × Option InstallSnapshotResponse)
      → (Node F N × Option (List ℕ)) × (Node S M × Sent)
  answered k (env, a) = (env, chunk_answer st t tr k a)

  abbrev pub run :
      ℕ → ℕ → Node F N × Option (List ℕ) → (Node F N × Option (List ℕ)) × (Node S M × Option Bool)
  run fuel k env = send_chunks st (λ _. false) to_follower fuel t tr k env n

  abbrev pub Leads : Node F N → Type 0
  Leads f = (is_leader n.role ≡ true) × (n.current_term ≡ tr.term) × (f.current_term ≤ tr.term)

  pub sent_to :
      (k : ℕ) (f : Node F N) (got : Option (List ℕ)) (r : Node F N × Receipt)
      → receive_chunk (chunk_request n.id tr k) f ≡ r
      → send_chunk st (λ _. false) to_follower t tr k (f, got) n ≡ answered k (chunk_reply n got r)
  unfolding send_chunk
  sent_to k f got r e = ap (λ (x : Node F N × Receipt). answered k (chunk_reply n got x)) e

  heeded :
      (f : Node F N) (k : ℕ) (resp : InstallSnapshotResponse)
      → Leads f
      → resp.term ≡ f.current_term
      → chunk_answer st t tr k (n, some resp) ≡ (n, next_offset tr k resp)
  unfolding chunk_answer
  heeded f k resp (leads, same, low) e =
      let current : ltb n.current_term resp.term ≡ false = le→ltb _ _ (omega arith) in
      let there : (n.current_term == tr.term) ≡ true = ground (arith, same) in
      rw (current, leads, there) refl

  abbrev pub delivered : Node F N → (Node F N × Option (List ℕ)) × (Node S M × Option Bool)
  delivered f = ((pending (progress n.id tr tr.body) f, some tr.body), (n, some true))

  send_part :
      (k : ℕ) (f : Node F N) (got : Option (List ℕ))
      → Leads f
      → Fits tr
      → k ≤ length tr.body
      → (chunk_end tr k == length tr.body) ≡ false
      → send_chunk st (λ _. false) to_follower t tr k (holding n.id tr k f, got) n
        ≡ ((holding n.id tr (chunk_end tr k) f, got), (n, from (chunk_end tr k)))
  send_part k f got l fits h more =
      sent_to k (holding n.id tr k f) got _ (receive_part n.id tr f k fits h more)
      ∙ ap (λ (a : Node S M × Sent). ((holding n.id tr (chunk_end tr k) f, got), a))
          (heeded f k _ l refl ∙ ap (λ (s : Sent). (n, s)) (next_part tr k f.current_term more))

  send_last :
      (k : ℕ) (f : Node F N) (got : Option (List ℕ))
      → Leads f
      → Fits tr
      → k ≤ length tr.body
      → (chunk_end tr k == length tr.body) ≡ true
      → send_chunk st (λ _. false) to_follower t tr k (holding n.id tr k f, got) n
        ≡ ((holding n.id tr (length tr.body) f, some tr.body), (n, returned true))
  send_last k f got l fits h last =
      sent_to k (holding n.id tr k f) got _ (receive_last n.id tr f k fits h last)
      ∙ ap (λ (a : Node S M × Sent). ((holding n.id tr (length tr.body) f, some tr.body), a))
          (heeded f k _ l refl
            ∙ ap (λ (s : Sent). (n, s)) (next_last tr k f.current_term (length tr.body) last))

  pub send_back :
      (j : ℕ) (f : Node F N) (got : Option (List ℕ))
      → Leads f
      → 0 < j
      → j ≤ length tr.body
      → send_chunk st (λ _. false) to_follower t tr 0 (holding n.id tr j f, got) n
        ≡ ((holding n.id tr j f, got), (n, from j))
  send_back j f got l pos h =
      sent_to 0 (holding n.id tr j f) got _ (receive_elsewhere n.id tr f 0 j h (omega arith))
      ∙ ap (λ (a : Node S M × Sent). ((holding n.id tr j f, got), a))
          (heeded f 0 _ l refl ∙ ap (λ (s : Sent). (n, s)) (next_back tr j f.current_term pos h))

  abbrev pub rest :
      ℕ
      → (Node F N × Option (List ℕ)) × (Node S M × Sent)
      → (Node F N × Option (List ℕ)) × (Node S M × Option Bool)
  rest fuel =
      after_chunk (λ next env m. send_chunks st (λ _. false) to_follower fuel t tr next env m)

  -- From the offset that the follower waits for, every round ends the transfer or gets further.
  pub deliver :
      (fuel k : ℕ) (f : Node F N) (got : Option (List ℕ))
      → Leads f
      → Fits tr
      → k ≤ length tr.body
      → length tr.body < k + fuel
      → run fuel k (holding n.id tr k f, got) ≡ delivered f
  unfolding send_chunks
  deliver zero k f got l fits h enough = absurd (omega arith)
  deliver (suc fuel) k f got l fits h enough =
      let bounds = chunk_end_bounds tr k fits h in
      elim (Bool-cases (chunk_end tr k == length tr.body)) [
        | inl last ↦
            ap (rest fuel) (send_last k f got l fits h last)
            ∙ ap (λ (b : List ℕ). ((pending (progress n.id tr b) f, some tr.body), (n, some true)))
                (take_all tr.body)
        | inr more ↦
            let further : k < chunk_end tr k = bounds.2 (ground (arith, more, bounds.1)) in
            ap (rest fuel) (send_part k f got l fits h more)
            ∙ deliver fuel (chunk_end tr k) f got l fits bounds.1 (omega (arith, further, enough))
      ]
