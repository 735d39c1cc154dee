-- ===== src/Raft/Guarantees/Barrier.antt =====
-- internal/raft/node.go: what `ensureQuorum` promises its caller, and that it does not wait for ever.
use go_raft_kv.Prelude.{
  ◌⊎◌, ℕ, ◌+◌, ◌≤◌, ◌≡◌, inl, inr, refl, ap, ◌∙◌, true, Option, some, [], ◌∷◌, ◌++◌, ◌==◌,
  Bool-cases, if-cases, arith, length, Result, ok, err,
}
use go_raft_kv.Raft.Types.{Error}
use go_raft_kv.Raft.Node.{Node, quorum, is_leader}
use go_raft_kv.Raft.Barrier.{
  Tally, new_tally, signal, signalled, Woken, quorum_reached, all_answered, context_over,
  BarrierRun, tally, open_barrier, close_barrier, select_barrier, after_open, ensure_quorum,
  no_quorum,
}
use go_raft_kv.Raft.Guarantees.Counters.{
  fresh_acks, answers, tally-acked, tally_total, tally_quorum, tally-append_signal, signal_wakes,
}

module _ {S M : Type 0} where
  -- The node led in the term when the call began, and with it a quorum of the cluster answered this
  -- call while the node led in that term.
  abbrev pub Confirms : ℕ → BarrierRun S M → Type 0
  Confirms term run = record {
    leads : is_leader run.start.role ≡ true;
    in_term : run.start.current_term ≡ term;
    agreed : quorum run.start ≤ 1 + fresh_acks term run.events;
  }

  open_barrier_ok :
      (n : Node S M) (term : ℕ)
      → open_barrier n ≡ ok term
      → (is_leader n.role ≡ true) × (n.current_term ≡ term)
  unfolding open_barrier
  open_barrier_ok n term h = ground (arith, h)

  select_barrier_ok :
      (term : ℕ) (w : Woken) (n : Node S M) (c : Tally) (t : ℕ)
      → select_barrier term w n c ≡ some (ok t)
      → (c.quorum_ch ≡ true) × (t ≡ term)
  unfolding select_barrier close_barrier
  select_barrier_ok term quorum_reached n c t h = ground (arith, h)
  select_barrier_ok term all_answered n c t h = ground (arith, h)
  select_barrier_ok term (context_over e) n c t h = cc

  after_open_ok :
      (run : BarrierRun S M) (o : Result Error ℕ) (term : ℕ)
      → open_barrier run.start ≡ o
      → after_open run o ≡ some (ok term)
      → Confirms term run
  unfolding after_open
  after_open_ok run (err e) term p h = cc
  after_open_ok run (ok now) term p h =
      let c = tally (quorum run.start) (length run.start.peer_addrs) now run.events new_tally in
      let (full, same) = select_barrier_ok now run.woken run.finish c term h in
      let (leads, in_term) = open_barrier_ok run.start now p in
      let enough : quorum run.start ≤ 1 + fresh_acks now run.events = omega (
        arith,
        tally_quorum (quorum run.start) (length run.start.peer_addrs) now run.events new_tally
            (λ e. absurd (cc)) full,
        tally-acked (quorum run.start) (length run.start.peer_addrs) now run.events new_tally,
      ) in
      rw same (record { leads = leads; in_term = in_term; agreed = enough })

  alone_ok :
      (run : BarrierRun S M) (term : ℕ)
      → (quorum run.start == 1) ≡ true
      → some (open_barrier run.start) ≡ some (ok term)
      → Confirms term run
  alone_ok run term alone h =
      let (leads, in_term) = open_barrier_ok run.start term (cc) in
      record { leads = leads; in_term = in_term; agreed = ground (arith, alone) }

  -- If the read barrier gives a term, then the node led in that term when the call began, and as many
  -- peers as a quorum needs besides the node itself answered this very call while the node led in that
  -- term: acknowledgements from earlier rounds do not count.
  pub ensure_quorum-Confirms :
      (run : BarrierRun S M) (term : ℕ) → ensure_quorum run ≡ some (ok term) → Confirms term run
  unfolding ensure_quorum
  ensure_quorum-Confirms run term h =
      if-cases (λ (r : Option (Result Error ℕ)). r ≡ some (ok term) → Confirms term run)
        (quorum run.start == 1) _ _ (λ alone e. alone_ok run term alone e)
        (λ _ e. after_open_ok run (open_barrier run.start) term refl e) h

  select_quorum :
      (term : ℕ) (n : Node S M) (c : Tally)
      → c.quorum_ch ≡ true
      → select_barrier term quorum_reached n c ≡ some (close_barrier term c n)
  unfolding select_barrier
  select_quorum term n c h = rw h refl

  select_done :
      (term : ℕ) (n : Node S M) (c : Tally)
      → c.done_ch ≡ true
      → select_barrier term all_answered n c ≡ some (err no_quorum)
  unfolding select_barrier
  select_done term n c h = rw h refl

  -- The call with one signal more, woken by `w`.
  abbrev woken_by : Woken → BarrierRun S M → BarrierRun S M
  woken_by w run = record run { events = run.events ++ signalled ∷ []; woken = w }

  -- A channel whose wake ends the call with an answer.
  abbrev pub WakesBy : BarrierRun S M → Woken → Type 0
  WakesBy run w = (r : Result Error ℕ) × (ensure_quorum (woken_by w run) ≡ some r)

  after_open_wakes :
      (run : BarrierRun S M) (o : Result Error ℕ)
      → answers run.events ≡ length run.start.peer_addrs
      → ((r : Result Error ℕ) × (after_open (woken_by quorum_reached run) o ≡ some r))
        ⊎ ((r : Result Error ℕ) × (after_open (woken_by all_answered run) o ≡ some r))
  unfolding after_open
  after_open_wakes run (err e) all = inl (err e, refl)
  after_open_wakes run (ok term) all =
      let target = quorum run.start in
      let peers = length run.start.peer_addrs in
      let before = tally target peers term run.events new_tally in
      let same = tally-append_signal target peers term run.events new_tally in
      let n = run.finish in
      elim (signal_wakes target peers before
        (omega (arith, tally_total target peers term run.events new_tally, all))) [
          | inl q ↦ inl (
            close_barrier term (signal target peers before) n,
            ap (select_barrier term quorum_reached n) same
                ∙ select_quorum term n (signal target peers before) q,
          )
          | inr d ↦ inr (
            err no_quorum,
            ap (select_barrier term all_answered n) same
                ∙ select_done term n (signal target peers before) d,
          )
        ]

  -- When each peer's goroutine has counted its answer, whatever it was, and one of them signals after
  -- that, the call returns without the end of its context: for one of the two channels, a caller that is
  -- woken by it gets an answer.
  pub ensure_quorum_wakes :
      (run : BarrierRun S M)
      → answers run.events ≡ length run.start.peer_addrs
      → WakesBy run quorum_reached ⊎ WakesBy run all_answered
  unfolding ensure_quorum
  ensure_quorum_wakes run all = elim (Bool-cases (quorum run.start == 1)) [
    | inl alone ↦ inl (open_barrier run.start, rw alone refl)
    | inr more ↦ elim (after_open_wakes run (open_barrier run.start) all) [
      | inl (r, p) ↦ inl (r, rw more p)
      | inr (r, p) ↦ inr (r, rw more p)
    ]
  ]
