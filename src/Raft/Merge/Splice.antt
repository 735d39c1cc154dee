-- ===== src/Raft/Merge/Splice.antt =====
-- What each outcome of `mergeEntriesLocked` (internal/raft/node.go) means for the log.
use go_raft_kv.Prelude.{
  ℕ, suc, ◌+◌, ◌-◌, ◌≤◌, ◌<◌, ◌≡◌, refl, sym, ap, ◌∙◌, subst, true, false, List, [], ◌∷◌, ◌++◌,
  arith, length, take, length-append, length-take, get_elem?-append_right,
}
use mathlib.Core.List.{append_assoc}
use go_raft_kv.Prelude.Word.{u64_mod}
use go_raft_kv.Storage.Types.{LogEntry, Snapshot}
use go_raft_kv.Raft.Log.{last_index, entry_at}
use go_raft_kv.Raft.Log.Contiguous.{
  Contiguous, Contiguous-splice, last_index-Contiguous, entry_at-splice, term_at_cases,
  term_at-entry_at, entry_at-Contiguous,
}
use go_raft_kv.Raft.Merge.{MergeEntriesResult}
use go_raft_kv.Raft.Merge.Outcome.{Agrees, Merged, refused, held, spliced, grew, rewrote}

module _ (snap : Snapshot) (commit : ℕ) (log : List LogEntry) (p : ℕ) (entries : List LogEntry)
    (res : List LogEntry × MergeEntriesResult) (c : Contiguous snap.last_included_index log) where
  pub Merged-Contiguous :
      (last : ℕ)
      → Merged snap commit last log p entries res
      → Contiguous snap.last_included_index res.0
  Merged-Contiguous last (refused a _ _) = rw a c
  Merged-Contiguous last (held a _ _) = rw a c
  Merged-Contiguous last (spliced pre suf k _ _ _ h _ _ cs e _ _ _ _) =
      rw e (Contiguous-splice _ k log suf c cs h)

  pub Merged-committed :
      (last i : ℕ)
      → i ≤ commit
      → Merged snap commit last log p entries res
      → entry_at snap res.0 i ≡ entry_at snap log i
  Merged-committed last i h (refused a _ _) = rw a refl
  Merged-committed last i h (held a _ _) = rw a refl
  Merged-committed last i h (spliced pre suf k _ _ _ fits free _ cs e _ _ _ _) =
      rw e (entry_at-splice snap log suf k i c cs fits (omega arith))

  pub Merged-last_index :
      (last : ℕ)
      → commit ≤ last_index snap log
      → Merged snap commit last log p entries res
      → commit ≤ last_index snap res.0
  Merged-last_index last h (refused a _ _) = rw a h
  Merged-last_index last h (held a _ _) = rw a h
  Merged-last_index last h (spliced pre suf k _ _ _ fits free _ cs e _ _ _ _) = rw e (
      omega (
        arith,
        last_index-Contiguous snap (take k log ++ suf) (Contiguous-splice _ k log suf c cs fits),
        length-append (take k log) suf,
        length-take k log,
      ))

pub Merged_bounded :
    (snap : Snapshot) (commit last : ℕ) (log : List LogEntry) (p : ℕ) (entries : List LogEntry)
    (res : List LogEntry × MergeEntriesResult)
    → Contiguous snap.last_included_index log
    → last_index snap log < u64_mod
    → p + length entries < u64_mod
    → Merged snap commit last log p entries res
    → last_index snap res.0 < u64_mod
Merged_bounded snap commit last log p entries res c h room (refused a _ _) = rw a h
Merged_bounded snap commit last log p entries res c h room (held a _ _) = rw a h
Merged_bounded snap commit last log p entries res c h room
      (spliced pre suf k split _ at fits _ _ cs e _ _ _ _) =
    rw e (
      omega (
        arith,
        last_index-Contiguous snap (take k log ++ suf) (Contiguous-splice _ k log suf c cs fits),
        length-append (take k log) suf,
        length-take k log,
        length-append pre suf,
        ap length split,
      ))

-- Entries that are held by a log that another one extends up to their indexes.
Agrees-splice :
    (snap : Snapshot) (log suf : List LogEntry) (k p : ℕ) (pre : List LogEntry)
    → Contiguous snap.last_included_index log
    → Contiguous (snap.last_included_index + k) suf
    → k ≤ length log
    → Contiguous p pre
    → p + length pre ≤ snap.last_included_index + k
    → Agrees snap log pre
    → Agrees snap (take k log ++ suf) pre
Agrees-splice snap log suf k p [] c cs h cp hp a = tt
Agrees-splice snap log suf k p (e ∷ pre) c cs h cp hp a = (
  term_at_cases snap (take k log ++ suf) log e.index
        (entry_at-splice snap log suf k e.index c cs h (omega arith))
      ∙ a.0,
  Agrees-splice snap log suf k (suc p) pre c cs h cp.1 (omega arith) a.1,
)

-- The entries that are put behind a prefix are there.
Agrees-suffix :
    (snap : Snapshot) (log suf : List LogEntry)
    → Contiguous snap.last_included_index (log ++ suf)
    → Contiguous (snap.last_included_index + length log) suf
    → Agrees snap (log ++ suf) suf
Agrees-suffix snap log [] c cs = tt
Agrees-suffix snap log (e ∷ suf) c cs =
    let found = get_elem?-append_right log (e ∷ suf) (length log) 0 (omega arith) in
    let at : e.index - snap.last_included_index - 1 ≡ length log = omega arith in
    let more : (log ++ e ∷ []) ++ suf ≡ log ++ (e ∷ suf) = append_assoc log (e ∷ []) suf in
    (
      term_at-entry_at snap (log ++ (e ∷ suf)) e.index {e = e} (omega arith)
          (entry_at-Contiguous snap (log ++ (e ∷ suf)) e.index c (omega arith) ∙ rw at found),
      subst (λ (l : List LogEntry). Agrees snap l suf) more
          (Agrees-suffix snap (log ++ e ∷ []) suf
            (subst (λ (l : List LogEntry). Contiguous snap.last_included_index l) (sym more) c)
            (let next : suc (snap.last_included_index + length log)
                  ≡ snap.last_included_index + length (log ++ e ∷ []) =
                omega (arith, length-append log (e ∷ [])) in
              subst (λ m. Contiguous m suf) next cs.1)),
    )

Agrees-append :
    (snap : Snapshot) (log xs ys : List LogEntry)
    → Agrees snap log xs
    → Agrees snap log ys
    → Agrees snap log (xs ++ ys)
Agrees-append snap log [] ys a b = b
Agrees-append snap log (x ∷ xs) ys a b = (a.0, Agrees-append snap log xs ys a.1 b)

Contiguous-prefix : (p : ℕ) (xs ys : List LogEntry) → Contiguous p (xs ++ ys) → Contiguous p xs
Contiguous-prefix p [] ys c = tt
Contiguous-prefix p (x ∷ xs) ys c = (c.0, Contiguous-prefix (suc p) xs ys c.1)

module _ (snap : Snapshot) (commit : ℕ) (log : List LogEntry) (p : ℕ) (entries : List LogEntry)
    (res : List LogEntry × MergeEntriesResult) (c : Contiguous snap.last_included_index log)
    (ce : Contiguous p entries) where
  pub Merged-Agrees :
      (last : ℕ)
      → res.1.conflict_index ≡ 0
      → Merged snap commit last log p entries res
      → Agrees snap res.0 entries
        × (p + length entries ≤ last_index snap res.0)
        × (res.1.last_new_index ≡ last)
  Merged-Agrees last z (refused a _ bad) = absurd (omega arith)
  Merged-Agrees last z (held a b d) = rw a (b, d, refl)
  Merged-Agrees last z (spliced pre suf k split agrees at fits free _ cs e _ _ _ l) =
      let c' = Contiguous-splice snap.last_included_index k log suf c cs fits in
      let cs' : Contiguous (snap.last_included_index + length (take k log)) suf =
        let q : snap.last_included_index + k ≡ snap.last_included_index + length (take k log) =
          omega (arith, length-take k log) in
        subst (λ m. Contiguous m suf) q cs in
      let cp : Contiguous p pre =
        Contiguous-prefix p pre suf (subst (λ (t : List LogEntry). Contiguous p t) split ce) in
      (
        rw (e, split)
            (Agrees-append snap (take k log ++ suf) pre suf
              (Agrees-splice snap log suf k p pre c cs fits cp (omega arith) agrees)
              (Agrees-suffix snap (take k log) suf c' cs')),
        rw e (
            omega (
              arith,
              last_index-Contiguous snap (take k log ++ suf) c',
              length-append (take k log) suf,
              length-take k log,
              length-append pre suf,
              ap length split,
            )),
        l,
      )

-- What has to be written for the write-ahead log to hold the new log where it held the old one.
abbrev pub AppendedOrReplaced : List LogEntry → List LogEntry → MergeEntriesResult → Type 0
AppendedOrReplaced log log' r =
    (r.changed ≡ false → log' ≡ log)
    × (r.changed ≡ true → r.replaced ≡ false → log' ≡ log ++ r.appended)

pub Merged-written :
    (snap : Snapshot) (commit last : ℕ) (log : List LogEntry) (p : ℕ) (entries : List LogEntry)
    (res : List LogEntry × MergeEntriesResult)
    → Merged snap commit last log p entries res
    → AppendedOrReplaced log res.0 res.1
Merged-written snap commit last log p entries res (refused a b _) = (λ _. a, λ h _. cc)
Merged-written snap commit last log p entries res (held a _ _) =
    let same : res.1.changed ≡ false =
      ap (λ (t : List LogEntry × MergeEntriesResult). t.1.changed) a in
    (λ _. rw a refl, λ h _. cc same)
Merged-written snap commit last log p entries res
      (spliced pre suf k _ _ _ _ _ _ _ e (grew a _ b) ch _ _) =
    (λ h. cc, λ _ _. rw b a)
Merged-written snap commit last log p entries res
      (spliced pre suf k _ _ _ _ _ _ _ e (rewrote a) ch _ _) =
    (λ h. cc, λ _ h. cc)
