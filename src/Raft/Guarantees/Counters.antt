-- ===== src/Raft/Guarantees/Counters.antt =====
-- internal/raft/node.go: the counters that the goroutines of `ensureQuorum` share.
use go_raft_kv.Prelude.{
  ℕ, ◌+◌, ◌≤◌, ◌≡◌, ◌⊎◌, refl, sym, ◌∙◌, Bool, true, false, List, [], ◌∷◌, ◌++◌, arith,
}
use go_raft_kv.Raft.Barrier.{Tally, count, signal, Event, counted, signalled, confirm_ack, tally}

one_if : Bool → ℕ
one_if true = 1
one_if false = 0

module _ {S M : Type 0} where
  -- The answers of one call that were positive while the node led in the term.
  unfoldable pub fresh_acks : ℕ → List (Event S M) → ℕ
  unfolding one_if
  fresh_acks term [] = 0
  fresh_acks term (counted peer answer n ∷ es) =
      one_if (confirm_ack term answer n) + fresh_acks term es
  fresh_acks term (signalled ∷ es) = fresh_acks term es

  -- The goroutines that have counted.
  unfoldable pub answers : List (Event S M) → ℕ
  answers [] = 0
  answers (counted peer answer n ∷ es) = 1 + answers es
  answers (signalled ∷ es) = answers es

count-acked : (b : Bool) (c : Tally) → (count b c).acked ≡ c.acked + one_if b
unfolding count one_if
count-acked true c = refl
count-acked false c = omega arith

count_total :
    (b : Bool) (c : Tally) → (count b c).acked + (count b c).failed ≡ c.acked + c.failed + 1
unfolding count
count_total true c = omega arith
count_total false c = omega arith

count-quorum_ch : (b : Bool) (c : Tally) → (count b c).quorum_ch ≡ c.quorum_ch
unfolding count
count-quorum_ch true c = refl
count-quorum_ch false c = refl

signal_keeps :
    (target peers : ℕ) (c : Tally)
    → ((signal target peers c).acked ≡ c.acked) × ((signal target peers c).failed ≡ c.failed)
unfolding signal
signal_keeps target peers c = ground arith

signal_quorum :
    (target peers : ℕ) (c : Tally)
    → (c.quorum_ch ≡ true → target ≤ c.acked)
    → (signal target peers c).quorum_ch ≡ true
    → target ≤ c.acked
unfolding signal
signal_quorum target peers c inv h = ground (arith, inv)

-- Once all peers have counted, a signal fills one of the channels.
pub signal_wakes :
    (target peers : ℕ) (c : Tally)
    → peers + 1 ≤ c.acked + c.failed
    → ((signal target peers c).quorum_ch ≡ true) ⊎ ((signal target peers c).done_ch ≡ true)
unfolding signal
signal_wakes target peers c h = ground arith

module _ {S M : Type 0} (target peers term : ℕ) where
  pub tally-acked :
      (es : List (Event S M)) (c : Tally)
      → (tally target peers term es c).acked ≡ c.acked + fresh_acks term es
  unfolding tally fresh_acks
  tally-acked [] c = omega arith
  tally-acked (counted peer answer n ∷ es) c = omega (
    arith,
    tally-acked es (count (confirm_ack term answer n) c),
    count-acked (confirm_ack term answer n) c,
  )
  tally-acked (signalled ∷ es) c =
      omega (arith, tally-acked es (signal target peers c), signal_keeps target peers c)

  pub tally_total :
      (es : List (Event S M)) (c : Tally)
      → (tally target peers term es c).acked + (tally target peers term es c).failed
        ≡ c.acked + c.failed + answers es
  unfolding tally answers
  tally_total [] c = omega arith
  tally_total (counted peer answer n ∷ es) c = omega (
    arith,
    tally_total es (count (confirm_ack term answer n) c),
    count_total (confirm_ack term answer n) c,
  )
  tally_total (signalled ∷ es) c =
      omega (arith, tally_total es (signal target peers c), signal_keeps target peers c)

  -- The channel is filled only by a quorum.
  pub tally_quorum :
      (es : List (Event S M)) (c : Tally)
      → (c.quorum_ch ≡ true → target ≤ c.acked)
      → (tally target peers term es c).quorum_ch ≡ true
      → target ≤ (tally target peers term es c).acked
  unfolding tally
  tally_quorum [] c inv h = inv h
  tally_quorum (counted peer answer n ∷ es) c inv h =
      tally_quorum es (count (confirm_ack term answer n) c)
        (λ e. omega (
          arith,
          inv (sym (count-quorum_ch (confirm_ack term answer n) c) ∙ e),
          count-acked (confirm_ack term answer n) c,
        ))
        h
  tally_quorum (signalled ∷ es) c inv h =
      tally_quorum es (signal target peers c)
        (λ e. omega (arith, signal_quorum target peers c inv e, signal_keeps target peers c)) h

  pub tally-append_signal :
      (es : List (Event S M)) (c : Tally)
      → tally target peers term (es ++ signalled ∷ []) c
        ≡ signal target peers (tally target peers term es c)
  unfolding tally
  tally-append_signal [] c = refl
  tally-append_signal (counted peer answer n ∷ es) c =
      tally-append_signal es (count (confirm_ack term answer n) c)
  tally-append_signal (signalled ∷ es) c = tally-append_signal es (signal target peers c)
