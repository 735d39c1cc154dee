-- ===== src/Raft/Guarantees/Conflict.antt =====
-- `conflictIndexLocked` of internal/raft/node.go: where a leader goes on after a mismatch.
use go_raft_kv.Prelude.{
  ℕ, zero, suc, ◌+◌, ◌-◌, ◌≤◌, ◌<◌, ◌≡◌, ◌≢◌, refl, sym, ap, ◌∙◌, ◌⊎◌, inl, inr, arith, Option,
  none, some, List, if◌then◌else◌, ltb, leb, ◌==◌, if-cases,
}
use native.Mathlib.Nat.{le_refl}
use native.Mathlib.Decide.{dec_lt}
use mathlib.Core.Option.{some-injective}
use go_raft_kv.Prelude.Word.{u64_mod, inc64, inc64_exact}
use go_raft_kv.Storage.Types.{LogEntry, Snapshot}
use go_raft_kv.Raft.Log.{last_index, term_at, run_start, conflict_index}
use go_raft_kv.Raft.Log.Contiguous.{
  Contiguous, entry_at_total, term_at-entry_at, last_index-Contiguous,
}

module _ (snap : Snapshot) (log : List LogEntry) (term : ℕ) where
  -- `r` is the first index of the run of entries of the term that ends at `i`.
  abbrev pub StartsRun : ℕ → ℕ → Type 0
  StartsRun i r =
      (snap.last_included_index < r)
      × (r ≤ i)
      × ((j : ℕ) → r ≤ j → j ≤ i → term_at snap log j ≡ some term)
      × ((r ≡ snap.last_included_index + 1) ⊎ (term_at snap log (r - 1) ≢ some term))

  run_start_lem :
      snap.last_included_index + 1 < u64_mod
      → (fuel i : ℕ) → i ≤ fuel
      → snap.last_included_index < i
      → term_at snap log i ≡ some term
      → StartsRun i (run_start fuel snap log term i)
  unfolding run_start
  run_start_lem small zero i enough above at = absurd (omega arith)
  run_start_lem small (suc fuel) i enough above at =
      if-cases (StartsRun i) (ltb (inc64 snap.last_included_index) i) _ _
        (λ more.
          before (run_start_lem small fuel (i - 1) (omega arith))
            (ground (arith, inc64_exact snap.last_included_index small)) (term_at snap log (i - 1))
            refl)
        (λ least. stays (inl (ground (arith, inc64_exact snap.last_included_index small))))
    where
      stays :
          (i ≡ snap.last_included_index + 1) ⊎ (term_at snap log (i - 1) ≢ some term)
          → StartsRun i i
      stays why = (above, le_refl _, λ j low high. let e : i ≡ j = omega arith in rw e at at, why)

      before :
          (snap.last_included_index < i - 1
            → term_at snap log (i - 1) ≡ some term
            → StartsRun (i - 1) (run_start fuel snap log term (i - 1)))
          → snap.last_included_index < i - 1
          → (o : Option ℕ) → term_at snap log (i - 1) ≡ o
          → StartsRun i (elim o [
            | none ↦ i
            | some t ↦ if t == term then run_start fuel snap log term (i - 1) else i
          ])
      before ih up none h = stays (inr (λ e. cc))
      before ih up (some t) h =
          if-cases (StartsRun i) (t == term) _ _
            (λ same.
              let (a, b, run, why) = ih up (h ∙ ap some (ground arith)) in
              (
                a,
                omega arith,
                λ j low high. elim (dec_lt j i) [
                  | yes below ↦ run j low (omega arith)
                  | no top ↦ let e : i ≡ j = omega arith in rw e at at
                ],
                why,
              ))
            (λ differs.
              stays (inr (λ e. let q = some-injective (sym h ∙ e) in absurd (ground arith))))

none-ne-some : {t : ℕ} → none ≢ some t
none-ne-some e = cc

-- On a log that is contiguous above its snapshot, with a last index below the largest uint64, and for
-- an index above the snapshot: beyond the log the answer is the index after the last one. In the log it
-- is the first index of the run of entries with the term of the one asked for.
pub conflict_index_lem :
    (snap : Snapshot) (log : List LogEntry) (i : ℕ)
    → Contiguous snap.last_included_index log
    → last_index snap log + 1 < u64_mod
    → snap.last_included_index < i
    → ((last_index snap log < i) × (conflict_index snap log i ≡ last_index snap log + 1))
      ⊎ ((term : ℕ) × (term_at snap log i ≡ some term)
          × StartsRun snap log term i (conflict_index snap log i))
unfolding conflict_index
conflict_index_lem snap log i c small above =
    if-cases P (ltb (last_index snap log) i) _ _
      (λ behind_log. inl (ground arith, inc64_exact (last_index snap log) small))
      λ in_log.
        if-cases P (leb i snap.last_included_index) _ _ (λ low. absurd (ground arith))
          λ _.
            let (e, found) = entry_at_total snap log i c above (ground arith) in
            pick (term_at snap log i) refl (term_at-entry_at snap log i above found)
  where
    room : snap.last_included_index + 1 < u64_mod
    room = omega (arith, last_index-Contiguous snap log c)

    P : ℕ → Type 0
    P r =
        ((last_index snap log < i) × (r ≡ last_index snap log + 1))
        ⊎ ((term : ℕ) × (term_at snap log i ≡ some term) × StartsRun snap log term i r)

    pick :
        {t : ℕ} (o : Option ℕ)
        → term_at snap log i ≡ o
        → term_at snap log i ≡ some t
        → P (elim o [
          | none ↦ inc64 (last_index snap log)
          | some term ↦ run_start i snap log term i
        ])
    pick none h k = absurd (none-ne-some (sym h ∙ k))
    pick (some term) h k = inr (term, h, run_start_lem snap log term room i i (le_refl _) above h)
