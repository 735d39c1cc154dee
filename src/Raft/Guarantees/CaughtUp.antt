-- ===== src/Raft/Guarantees/CaughtUp.antt =====
-- internal/raft/node.go: which commands the state machine has run while the apply loop is at work.
use mathlib.Core.Option.{some-injective}
use go_raft_kv.Prelude.{
  ℕ, suc, ◌+◌, ◌-◌, ◌≤◌, ◌≡◌, ◌⊎◌, inl, inr, refl, sym, ap, ◌∙◌, subst, true, arith, Option, none,
  some, List, [], ◌∷◌, ◌++◌, length, length-append,
}
use native.Mathlib.Decide.{dec_lt}
use go_raft_kv.Storage.Types.{ApplyResult, LogEntry}
use go_raft_kv.Raft.Types.{Store, StateMachine}
use go_raft_kv.Raft.Log.{entry_at}
use go_raft_kv.Raft.Node.{Node, finish_waiters}
use go_raft_kv.Raft.Apply.{entry, next_ready, run_entry, still_next, record_applied}
use go_raft_kv.Raft.Progress.{IsValid, Advances, Advances-refl, Advances-trans}
use go_raft_kv.Raft.Progress.Apply.{record_applied-Keeps}
use go_raft_kv.Raft.System.{Step, Step-Keeps}
use go_raft_kv.Raft.Guarantees.Replay.{replay_entries}
use go_raft_kv.Raft.Guarantees.Serving.{
  Served, run_all, run_all_snoc, replay_entries_snoc, Move, quiet, run, finish, give_up, Serves,
  stays, moves, run_to, IsServing, ready-IsNext, IsNext-still, IsNext-stays,
}

module _ {S M : Type 0} (st : Store S) (sm : StateMachine M) (s₀ : Served S M) where
  -- The start's machine after the next `k` of its entries.
  abbrev replayed : ℕ → M
  replayed = replay_entries sm s₀.node.snapshot s₀.node.log s₀.node.machine (run_to s₀)

  -- The machine has run some of the entries that were committed at the start, in the order of the log,
  -- or all of them and then some more.
  abbrev Ran : Served S M → Type 0
  Ran s =
      ((k : ℕ) × (run_to s₀ + k ≡ run_to s)
        × (run_to s ≤ s₀.node.commit_index)
        × (s.node.machine ≡ replayed k))
      ⊎ ((es : List LogEntry) × (s₀.node.commit_index + length es ≡ run_to s)
          × (s.node.machine ≡ run_all sm es (replayed (s₀.node.commit_index - run_to s₀))))

  abbrev Tracks : Served S M → Type 0
  Tracks s = record { serving : IsServing s; advances : Advances s₀.node s.node; ran : Ran s }

  start-Ran : IsServing s₀ → Ran s₀
  unfolding replay_entries
  start-Ran v = inl (0, omega arith, within s₀.applying refl, refl)
    where
      within :
          (o : Option (LogEntry × ApplyResult)) → s₀.applying ≡ o → run_to s₀ ≤ s₀.node.commit_index
      within none e = rw e (omega (arith, v.valid.applied))
      within (some x) e = rw e (let (a, b, _) = v.next x.0 x.1 e in omega (arith, a, b))

  -- The machine runs one more command.
  Ran-more :
      (n : Node S M) (e : LogEntry) (m : M)
      → IsValid s₀.node
      → s₀.node.snapshot.last_included_index ≤ run_to s₀
      → IsValid n
      → Advances s₀.node n
      → entry_at n.snapshot n.log (suc n.last_applied) ≡ some e
      → m ≡ (sm.apply n.machine e.command).0
      → Ran (record { node = n; applying = none })
      → ((o : LogEntry × ApplyResult)
          → Ran (record { node = record n { machine = m }; applying = some o }))
  Ran-more n e m v₀ low v a there after (inr (es, at_end, machine)) o = inr (
    es ++ e ∷ [],
    omega (arith, at_end, length-append es (e ∷ [])),
    after
        ∙ ap (λ (z : M). (sm.apply z e.command).0) machine
        ∙ sym (run_all_snoc sm es e (replayed (s₀.node.commit_index - run_to s₀))),
  )
  Ran-more n e m v₀ low v a there after (inl (k, reached, within, machine)) o =
      elim (dec_lt n.last_applied s₀.node.commit_index) [
        | yes more ↦
            let place : suc n.last_applied ≡ suc (run_to s₀ + k) = omega (arith, reached) in
            let same = a.entries (suc n.last_applied) more (omega (arith, v.covered)) in
            let old : entry_at s₀.node.snapshot s₀.node.log (suc (run_to s₀ + k)) ≡ some e =
              subst (λ i. entry_at s₀.node.snapshot s₀.node.log i ≡ some e) place
                (sym same ∙ there) in
            inl (
              suc k,
              omega (arith, reached),
              omega (arith, more),
              after
                  ∙ ap (λ (z : M). (sm.apply z e.command).0) machine
                  ∙ sym (
                      replay_entries_snoc sm s₀.node.snapshot s₀.node.log s₀.node.machine
                        (run_to s₀) k e v₀.contiguous low
                        (omega (arith, reached, within, v₀.committed)) old),
            )
        | no done ↦
            let all : k ≡ s₀.node.commit_index - run_to s₀ = omega (arith, reached, within) in
            inr (
              e ∷ [],
              omega (arith, reached, within),
              after ∙ ap (λ (z : M). (sm.apply z e.command).0) (machine ∙ ap (λ j. replayed j) all),
            )
      ]

  Ran-same :
      (s u : Served S M) → run_to s ≡ run_to u → u.node.machine ≡ s.node.machine → Ran s → Ran u
  Ran-same s u same machine (inl (k, reached, within, h)) =
      inl (k, omega (arith, reached, same), omega (arith, within, same), machine ∙ h)
  Ran-same s u same machine (inr (es, at_end, h)) =
      inr (es, omega (arith, at_end, same), machine ∙ h)

  serving_low : IsServing s₀ → s₀.node.snapshot.last_included_index ≤ run_to s₀
  serving_low v = omega (arith, v.valid.covered)

  quiet-Tracks :
      (s : Served S M) (m : Node S M)
      → Step st sm s.node m
      → m.machine ≡ s.node.machine
      → m.last_applied ≡ s.node.last_applied
      → Tracks s
      → Tracks (record { node = m; applying = s.applying })
  quiet-Tracks s m step machine applied t =
      let (v, a) = Step-Keeps st sm step t.serving.valid in
      record {
        serving = record {
          valid = v;
          next = IsNext-stays s.node m s.applying v a applied t.serving.next;
        };
        advances = Advances-trans s₀.node s.node m t.advances a;
        ran =
            Ran-same s (record { node = m; applying = s.applying }) (omega (arith, applied)) machine
              t.ran;
      }

  run-Tracks :
      (s : Served S M) (e : LogEntry)
      → IsServing s₀
      → s.applying ≡ none
      → next_ready s.node ≡ entry e
      → Tracks s
      → Tracks (record {
        node = (run_entry sm e s.node).0;
        applying = some (e, (run_entry sm e s.node).1);
      })
  unfolding run_entry
  run-Tracks s e v₀ none_yet ready t =
      let n = s.node in
      let (at_next, busy, there) = ready-IsNext n e t.serving.valid ready in
      record {
        serving = record {
          valid = t.serving.valid;
          next = λ x result k.
              let same : e ≡ x = ap (λ (p : LogEntry × ApplyResult). p.0) (some-injective _ _ k) in
              subst
                (λ (y : LogEntry).
                  (y.index ≡ suc n.last_applied)
                  × (y.index ≤ n.commit_index)
                  × (entry_at n.snapshot n.log y.index ≡ some y))
                same
                (
                  at_next,
                  omega (arith, at_next, busy),
                  ap (λ i. entry_at n.snapshot n.log i) at_next ∙ there,
                );
        };
        advances = t.advances;
        ran =
            Ran-more n e (sm.apply n.machine e.command).0 v₀.valid (serving_low v₀) t.serving.valid
              t.advances there refl
              (subst
                (λ (o : Option (LogEntry × ApplyResult)). Ran (record { node = n; applying = o }))
                none_yet t.ran)
              (e, (sm.apply n.machine e.command).1);
      }

  finish-Tracks :
      (s : Served S M) (e : LogEntry) (result : ApplyResult)
      → s.applying ≡ some (e, result)
      → still_next e s.node ≡ true
      → Tracks s
      → Tracks (record { node = record_applied e result s.node; applying = none })
  unfolding record_applied finish_waiters
  finish-Tracks s e result now still t =
      let n = s.node in
      let (v, a) = record_applied-Keeps e result n still t.serving.valid in
      let (at_next, within, there) = t.serving.next e result now in
      let one : run_to s ≡ suc n.last_applied = rw now (omega arith) in
      record {
        serving = record { valid = v; next = λ x r k. absurd (cc) };
        advances = Advances-trans s₀.node n (record_applied e result n) t.advances a;
        ran =
            Ran-same s (record { node = record_applied e result n; applying = none })
              (omega (arith, one, at_next)) refl t.ran;
      }

  Move-Tracks : {s u : Served S M} → IsServing s₀ → Move st sm s u → Tracks s → Tracks u
  Move-Tracks {s} v₀ (quiet m step machine applied) t = quiet-Tracks s m step machine applied t
  Move-Tracks {s} v₀ (run e none_yet ready) t = run-Tracks s e v₀ none_yet ready t
  Move-Tracks {s} v₀ (finish e result now still) t = finish-Tracks s e result now still t
  Move-Tracks {s} v₀ (give_up e result now gone) t =
      let still = IsNext-still s.node e t.serving.valid (t.serving.next e result now) in
      absurd (ground (arith, still, gone))

  pub Serves-Tracks : {u : Served S M} → IsServing s₀ → Serves st sm s₀ u → Tracks u
  Serves-Tracks v stays = record {
    serving = v;
    advances = Advances-refl s₀.node;
    ran = start-Ran v;
  }
  Serves-Tracks v (moves r m) = Move-Tracks v m (Serves-Tracks v r)

  -- The machine has run every entry that was committed at the start and not run yet, as the log of
  -- the start has them, and then some more.
  abbrev pub CaughtUp : Served S M → Type 0
  CaughtUp u =
      (es : List LogEntry) × (s₀.node.commit_index + length es ≡ run_to u)
      × (u.node.machine ≡ run_all sm es (replayed (s₀.node.commit_index - run_to s₀)))

  pub Tracks-CaughtUp :
      (u : Served S M) → s₀.node.commit_index ≤ u.node.last_applied → Tracks u → CaughtUp u
  Tracks-CaughtUp u enough t = elim t.ran [
    | inr more ↦ more
    | inl (k, reached, within, machine) ↦
        let all : k ≡ s₀.node.commit_index - run_to s₀ = omega (arith, reached, within, enough) in
        ([], omega (arith, within, enough), machine ∙ ap (λ j. replayed j) all)
  ]
