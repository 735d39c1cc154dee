-- ===== src/Raft/Log/Contiguous.antt =====
-- Logs whose indexes follow one another from the snapshot's, and what the accessors of
-- internal/raft/node.go do on them.
use go_raft_kv.Prelude.{
  ℕ, zero, suc, ◌+◌, ◌-◌, ◌≤◌, ◌<◌, ◌≡◌, refl, inl, inr, none, some, List, [], ◌∷◌, ◌++◌, arith,
  length, get_elem?, last_or, take, subst, length-take, get_elem?-take, get_elem?-append,
  get_elem?-append_right, Option-cases, lt→leb, sym, ◌∙◌, get_elem?_below, get_elem?_beyond,
}
use native.Mathlib.Decide.{dec_lt, dec_le}
use go_raft_kv.Storage.Types.{LogEntry, Snapshot}
use go_raft_kv.Raft.Log.{last_index, entry_at, term_at}

-- The first index is `k + 1`, and each next one is one more.
abbrev pub Contiguous : ℕ → List LogEntry → Type 0
Contiguous k [] = Unit
Contiguous k (e ∷ log) = (e.index ≡ suc k) × Contiguous (suc k) log

pub last_or-Contiguous :
    (k : ℕ) (e : LogEntry) (log : List LogEntry)
    → Contiguous k (e ∷ log)
    → (last_or e log).index ≡ k + length (e ∷ log)
last_or-Contiguous k e [] c = omega arith
last_or-Contiguous k e (f ∷ log) c = omega (arith, last_or-Contiguous (suc k) f log c.1)

pub last_index-Contiguous :
    (snap : Snapshot) (log : List LogEntry)
    → Contiguous snap.last_included_index log
    → last_index snap log ≡ snap.last_included_index + length log
unfolding last_index
last_index-Contiguous snap [] c = omega arith
last_index-Contiguous snap (e ∷ log) c = last_or-Contiguous snap.last_included_index e log c

pub Contiguous-append :
    (k : ℕ) (xs ys : List LogEntry)
    → Contiguous k xs
    → Contiguous (k + length xs) ys
    → Contiguous k (xs ++ ys)
Contiguous-append k [] ys cx cy =
    let e : k + 0 ≡ k = omega arith in subst (λ m. Contiguous m ys) e cy
Contiguous-append k (x ∷ xs) ys cx cy =
    let e : k + suc (length xs) ≡ suc k + length xs = omega arith in
    (cx.0, Contiguous-append (suc k) xs ys cx.1 (subst (λ m. Contiguous m ys) e cy))

pub Contiguous-take : (k n : ℕ) (log : List LogEntry) → Contiguous k log → Contiguous k (take n log)
Contiguous-take k zero log c = tt
Contiguous-take k (suc n) [] c = tt
Contiguous-take k (suc n) (e ∷ log) c = (c.0, Contiguous-take (suc k) n log c.1)

pub Contiguous-splice :
    (k n : ℕ) (log suf : List LogEntry)
    → Contiguous k log
    → Contiguous (k + n) suf
    → n ≤ length log
    → Contiguous k (take n log ++ suf)
Contiguous-splice k n log suf c cs h =
    let e : k + n ≡ k + length (take n log) = omega (arith, length-take n log) in
    Contiguous-append k (take n log) suf (Contiguous-take k n log c)
      (subst (λ m. Contiguous m suf) e cs)

pub get_elem?-Contiguous :
    (k i : ℕ) (log : List LogEntry) {e : LogEntry}
    → Contiguous k log
    → get_elem? log i ≡ some e
    → e.index ≡ suc (k + i)
get_elem?-Contiguous k i [] c h = cc
get_elem?-Contiguous k zero (x ∷ log) c h = ground arith
get_elem?-Contiguous k (suc i) (x ∷ log) c h =
    omega (arith, get_elem?-Contiguous (suc k) i log c.1 h)

-- On a contiguous log the check of `entryAtLocked` on the index never fails.
pub entry_at-Contiguous :
    (snap : Snapshot) (log : List LogEntry) (i : ℕ)
    → Contiguous snap.last_included_index log
    → snap.last_included_index < i
    → entry_at snap log i ≡ get_elem? log (i - snap.last_included_index - 1)
unfolding entry_at
entry_at-Contiguous snap log i c h =
    elim (Option-cases (get_elem? log (i - snap.last_included_index - 1))) [
      | inl e ↦ rw (e, lt→leb i snap.last_included_index h) refl
      | inr (x, e) ↦
          let at =
            get_elem?-Contiguous snap.last_included_index (i - snap.last_included_index - 1) log c
              e in
          rw (e, lt→leb i snap.last_included_index h) (ground arith)
    ]

pub entry_at_below :
    (snap : Snapshot) (log : List LogEntry) (i : ℕ)
    → i ≤ snap.last_included_index
    → entry_at snap log i ≡ none
unfolding entry_at
entry_at_below snap log i h = ground arith

pub entry_at-index :
    (snap : Snapshot) (log : List LogEntry) (i : ℕ) {e : LogEntry}
    → entry_at snap log i ≡ some e
    → e.index ≡ i
unfolding entry_at
entry_at-index snap log i h = ground arith

-- Every index above the snapshot and up to the last one has an entry.
pub entry_at_total :
    (snap : Snapshot) (log : List LogEntry) (i : ℕ)
    → Contiguous snap.last_included_index log
    → snap.last_included_index < i
    → i ≤ last_index snap log
    → (e : LogEntry) × (entry_at snap log i ≡ some e)
entry_at_total snap log i c h k =
    let below =
      get_elem?_below log (i - snap.last_included_index - 1)
        (omega (arith, last_index-Contiguous snap log c)) in
    (below.0, entry_at-Contiguous snap log i c h ∙ below.1)

pub entry_at_beyond :
    (snap : Snapshot) (log : List LogEntry) (i : ℕ)
    → Contiguous snap.last_included_index log
    → last_index snap log < i
    → entry_at snap log i ≡ none
entry_at_beyond snap log i c h =
    entry_at-Contiguous snap log i c (omega (arith, last_index-Contiguous snap log c))
    ∙ get_elem?_beyond log _ (omega (arith, last_index-Contiguous snap log c))

-- The first entries of a log are all that an index among them sees.
pub entry_at-splice :
    (snap : Snapshot) (log suf : List LogEntry) (k i : ℕ)
    → Contiguous snap.last_included_index log
    → Contiguous (snap.last_included_index + k) suf
    → k ≤ length log
    → i ≤ snap.last_included_index + k
    → entry_at snap (take k log ++ suf) i ≡ entry_at snap log i
entry_at-splice snap log suf k i c cs h hi = elim (dec_lt snap.last_included_index i) [
  | no low ↦
      entry_at_below snap (take k log ++ suf) i (omega arith)
      ∙ sym (entry_at_below snap log i (omega arith))
  | yes above ↦
      entry_at-Contiguous snap (take k log ++ suf) i (Contiguous-splice _ k log suf c cs h) above
      ∙ get_elem?-append (take k log) suf _ (omega (arith, length-take k log))
      ∙ get_elem?-take k _ log (omega arith)
      ∙ sym (entry_at-Contiguous snap log i c above)
]

pub entry_at-splice_right :
    (snap : Snapshot) (log suf : List LogEntry) (k i j : ℕ)
    → Contiguous snap.last_included_index log
    → Contiguous (snap.last_included_index + k) suf
    → k ≤ length log
    → i ≡ snap.last_included_index + k + suc j
    → entry_at snap (take k log ++ suf) i ≡ get_elem? suf j
entry_at-splice_right snap log suf k i j c cs h hi =
    entry_at-Contiguous snap (take k log ++ suf) i (Contiguous-splice _ k log suf c cs h)
      (omega arith)
    ∙ get_elem?-append_right (take k log) suf _ j (omega (arith, length-take k log))

pub term_at_cases :
    (snap : Snapshot) (log log' : List LogEntry) (i : ℕ)
    → entry_at snap log i ≡ entry_at snap log' i
    → term_at snap log i ≡ term_at snap log' i
unfolding term_at
term_at_cases snap log log' i h = rw h refl

pub term_at-entry_at :
    (snap : Snapshot) (log : List LogEntry) (i : ℕ) {e : LogEntry}
    → snap.last_included_index < i
    → entry_at snap log i ≡ some e
    → term_at snap log i ≡ some e.term
unfolding term_at
term_at-entry_at snap log i h k = ground arith

-- An index whose term is known is not behind the last one.
pub term_at_inside :
    (snap : Snapshot) (log : List LogEntry) (i : ℕ) {t : ℕ}
    → Contiguous snap.last_included_index log
    → term_at snap log i ≡ some t
    → i ≤ last_index snap log
term_at_inside snap log i c h = elim (dec_le i (last_index snap log)) [
  | yes in_log ↦ in_log
  | no behind ↦
      let none_there = entry_at_beyond snap log i c (omega arith) in
      absurd (unfold term_at in ground (arith, none_there, last_index-Contiguous snap log c))
]
