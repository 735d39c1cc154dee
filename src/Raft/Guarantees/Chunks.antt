-- ===== src/Raft/Guarantees/Chunks.antt =====
-- internal/raft/node.go: one chunk of a snapshot, as `sendSnapshot` cuts it and as
-- `HandleInstallSnapshot` puts it behind what the follower has.
use go_raft_kv.Prelude.{
  ℕ, zero, suc, ◌+◌, ◌-◌, ◌≤◌, ◌<◌, ◌≡◌, ◌≢◌, refl, ap, ◌∙◌, String, true, false, not, some, List,
  [], ◌∷◌, ◌++◌, ltb, le→ltb, ◌==◌, ==_iff, if◌then◌else◌, arith, length, take, drop, length-take,
  eq_iff,
}
use go_raft_kv.Prelude.Word.{u64_mod, add64, add64_exact}
use go_raft_kv.Raft.Types.{InstallSnapshotRequest, SnapshotProgress}
use go_raft_kv.Raft.Node.{Node}
use go_raft_kv.Raft.Install.{
  answer, complete, install_response, same_stream, extend_progress, receive_chunk,
}
use go_raft_kv.Raft.SendSnapshot.{Transfer, returned, from, chunk_end, chunk_request, next_offset}

-- A follower's part of the stream: what it has of the body.
abbrev pub progress : String → Transfer → List ℕ → SnapshotProgress
progress id tr buffer = record {
  leader_id = id;
  last_included_index = tr.last_included_index;
  last_included_term = tr.last_included_term;
  buffer = buffer;
}

module _ {S M : Type 0} where
  abbrev pub pending : SnapshotProgress → Node S M → Node S M
  pending p f = record f { pending_snapshot = some p }

  -- A follower that has the first `k` bytes.
  abbrev pub holding : String → Transfer → ℕ → Node S M → Node S M
  holding id tr k f = pending (progress id tr (take k tr.body)) f

pub take-nil : (n : ℕ) → take {A = ℕ} n [] ≡ []
take-nil zero = refl
take-nil (suc n) = refl

pub take-drop : (a b : ℕ) (xs : List ℕ) → a ≤ b → take a xs ++ take (b - a) (drop a xs) ≡ take b xs
take-drop zero b xs h = ap (λ (n : ℕ). take n xs) (omega arith)
take-drop (suc a) zero xs h = absurd (omega arith)
take-drop (suc a) (suc b) [] h = take-nil (suc b - suc a)
take-drop (suc a) (suc b) (x ∷ xs) h =
    let same : suc b - suc a ≡ b - a = omega arith in
    ap (λ (n : ℕ). x ∷ (take a xs ++ take n (drop a xs))) same
    ∙ ap (λ (t : List ℕ). x ∷ t) (take-drop a b xs (omega arith))

pub take_all : (xs : List ℕ) → take (length xs) xs ≡ xs
take_all [] = refl
take_all (x ∷ xs) = ap (λ (t : List ℕ). x ∷ t) (take_all xs)

pub ==_refl : (a : ℕ) → (a == a) ≡ true
==_refl a = ground arith

pub same_stream-progress :
    (id : String) (tr : Transfer) (k : ℕ) (buffer : List ℕ)
    → same_stream (chunk_request id tr k) (progress id tr buffer) ≡ true
unfolding same_stream chunk_request
same_stream-progress id tr k buffer =
    ground (arith, eq_iff id id, ==_refl tr.last_included_index, ==_refl tr.last_included_term)

-- The transfers whose indexes stay in the machine's words.
abbrev pub Fits : Transfer → Type 0
Fits tr = (0 < tr.chunk_size) × (length tr.body + tr.chunk_size < u64_mod)

-- A chunk ends behind its offset, unless the body has ended there.
pub chunk_end_bounds :
    (tr : Transfer) (k : ℕ)
    → Fits tr
    → k ≤ length tr.body
    → (k ≤ chunk_end tr k)
      × (chunk_end tr k ≤ length tr.body)
      × (k < length tr.body → k < chunk_end tr k)
unfolding chunk_end
chunk_end_bounds tr k fits h =
    let exact : add64 k tr.chunk_size ≡ k + tr.chunk_size =
      add64_exact k tr.chunk_size (omega (arith, fits)) in
    rw exact (ground (arith, fits))

pub grown_chunk :
    (id : String) (tr : Transfer) (k : ℕ)
    → Fits tr
    → k ≤ length tr.body
    → take k tr.body ++ (chunk_request id tr k).chunk ≡ take (chunk_end tr k) tr.body
unfolding chunk_request
grown_chunk id tr k fits h = take-drop k (chunk_end tr k) tr.body (chunk_end_bounds tr k fits h).0

module _ {S M : Type 0} where
  pub extend_elsewhere :
      (req : InstallSnapshotRequest) (p : SnapshotProgress) (f : Node S M)
      → req.offset ≢ length p.buffer
      → extend_progress req p f
        ≡ (pending p f, answer (install_response f.current_term false (length p.buffer)))
  unfolding extend_progress
  extend_elsewhere req p f d =
      let away : (req.offset == length p.buffer) ≡ false = ground (arith, d) in rw away refl

  -- The two ends of a chunk that begins where the buffer ends.
  pub extend_here :
      (req : InstallSnapshotRequest) (p : SnapshotProgress) (f : Node S M)
      → req.offset ≡ length p.buffer
      → extend_progress req p f ≡ (
          if not req.done
          then (
            pending (record p { buffer = p.buffer ++ req.chunk }) f,
            answer (install_response f.current_term true (length (p.buffer ++ req.chunk))),
          )
          else (
            pending (record p { buffer = p.buffer ++ req.chunk }) f,
            complete (p.buffer ++ req.chunk),
          ))
  unfolding extend_progress
  extend_here req p f e =
      let here : (req.offset == length p.buffer) ≡ true = ground (arith, e) in rw here refl

module _ {S M : Type 0} (id : String) (tr : Transfer) where
  pub receive_holding :
      (f : Node S M) (k j : ℕ)
      → receive_chunk (chunk_request id tr k) (holding id tr j f)
        ≡ extend_progress
            (chunk_request id tr k)
            (progress id tr (take j tr.body))
            (holding id tr j f)
  unfolding receive_chunk
  receive_holding f k j = rw (same_stream-progress id tr k (take j tr.body)) refl

  -- A chunk that begins elsewhere is refused with the offset that is wanted.
  pub receive_elsewhere :
      (f : Node S M) (k j : ℕ)
      → j ≤ length tr.body
      → k ≢ j
      → receive_chunk (chunk_request id tr k) (holding id tr j f)
        ≡ (holding id tr j f, answer (install_response f.current_term false j))
  unfolding chunk_request
  receive_elsewhere f k j h d =
      let size : length (take j tr.body) ≡ j = omega (arith, length-take j tr.body) in
      receive_holding f k j
      ∙ extend_elsewhere (chunk_request id tr k) (progress id tr (take j tr.body))
          (holding id tr j f) (λ e. d (e ∙ size))
      ∙ ap (λ (m : ℕ). (holding id tr j f, answer (install_response f.current_term false m))) size

  pub receive_part :
      (f : Node S M) (k : ℕ)
      → Fits tr
      → k ≤ length tr.body
      → (chunk_end tr k == length tr.body) ≡ false
      → receive_chunk (chunk_request id tr k) (holding id tr k f) ≡ (
        holding id tr (chunk_end tr k) f,
        answer (install_response f.current_term true (length (take (chunk_end tr k) tr.body))),
      )
  unfolding chunk_request
  receive_part f k fits h more =
      receive_holding f k k
      ∙ extend_here (chunk_request id tr k) (progress id tr (take k tr.body)) (holding id tr k f)
          (omega (arith, length-take k tr.body))
      ∙ rw more (
          ap
            (λ (b : List ℕ). (
              pending (progress id tr b) f,
              answer (install_response f.current_term true (length b)),
            ))
            (grown_chunk id tr k fits h))

  pub receive_last :
      (f : Node S M) (k : ℕ)
      → Fits tr
      → k ≤ length tr.body
      → (chunk_end tr k == length tr.body) ≡ true
      → receive_chunk (chunk_request id tr k) (holding id tr k f)
        ≡ (holding id tr (length tr.body) f, complete tr.body)
  unfolding chunk_request
  receive_last f k fits h last =
      let ends : chunk_end tr k ≡ length tr.body = (==_iff _ _).0 last in
      receive_holding f k k
      ∙ extend_here (chunk_request id tr k) (progress id tr (take k tr.body)) (holding id tr k f)
          (omega (arith, length-take k tr.body))
      ∙ rw last (
          ap (λ (b : List ℕ). (pending (progress id tr b) f, complete b))
            (grown_chunk id tr k fits h))
      ∙ ap (λ (m : ℕ). (holding id tr m f, complete (take m tr.body))) ends
      ∙ ap (λ (b : List ℕ). (holding id tr (length tr.body) f, complete b)) (take_all tr.body)

pub next_part :
    (tr : Transfer) (k received : ℕ)
    → (chunk_end tr k == length tr.body) ≡ false
    → next_offset tr k (install_response received true (length (take (chunk_end tr k) tr.body)))
      ≡ from (chunk_end tr k)
unfolding next_offset
next_part tr k received more = rw more refl

pub next_last :
    (tr : Transfer) (k term received : ℕ)
    → (chunk_end tr k == length tr.body) ≡ true
    → next_offset tr k (install_response term true received) ≡ returned true
unfolding next_offset
next_last tr k term received last = rw last refl

pub next_back :
    (tr : Transfer) (j term : ℕ)
    → 0 < j
    → j ≤ length tr.body
    → next_offset tr 0 (install_response term false j) ≡ from j
unfolding next_offset
next_back tr j term pos h =
    let moved : (j == 0) ≡ false = ground (arith, pos) in
    let inside : ltb (length tr.body) j ≡ false = le→ltb _ _ h in rw (moved, inside) refl
