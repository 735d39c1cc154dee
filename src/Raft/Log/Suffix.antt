-- ===== src/Raft/Log/Suffix.antt =====
-- The entries behind an index, which compaction and snapshot installation (internal/raft/node.go)
-- keep of a log, and a log with one more entry.
use go_raft_kv.Prelude.{
  ℕ, suc, ◌+◌, ◌-◌, ◌≤◌, ◌<◌, ◌≡◌, refl, sym, ap, ◌∙◌, subst, List, [], ◌∷◌, ◌++◌, arith, length,
  get_elem?, keep, keep_yes, keep_no, ltb, lt→ltb, le→ltb, length-append, get_elem?-append,
}
use native.Mathlib.Decide.{dec_lt}
use go_raft_kv.Storage.Types.{LogEntry, Snapshot}
use go_raft_kv.Raft.Log.{last_index, entry_at}
use go_raft_kv.Raft.Log.Contiguous.{
  Contiguous, Contiguous-append, last_index-Contiguous, entry_at-Contiguous, entry_at_below,
}

abbrev pub behind : ℕ → List LogEntry → List LogEntry
behind k log = keep (λ (e : LogEntry). ltb k e.index) log

behind_keeps :
    (k : ℕ) (e : LogEntry) (log : List LogEntry)
    → k < e.index
    → behind k (e ∷ log) ≡ e ∷ behind k log
behind_keeps k e log h = keep_yes _ e log (lt→ltb k e.index h)

behind_drops :
    (k : ℕ) (e : LogEntry) (log : List LogEntry) → e.index ≤ k → behind k (e ∷ log) ≡ behind k log
behind_drops k e log h = keep_no _ e log (le→ltb k e.index h)

-- All entries of a log that begins at `k` or later are behind `k`.
behind_all : (k s : ℕ) (log : List LogEntry) → Contiguous s log → k ≤ s → behind k log ≡ log
behind_all k s [] c h = refl
behind_all k s (e ∷ log) c h =
    behind_keeps k e log (omega arith)
    ∙ ap (λ (l : List LogEntry). e ∷ l) (behind_all k (suc s) log c.1 (omega arith))

pub Contiguous-behind :
    (k s : ℕ) (log : List LogEntry)
    → Contiguous s log
    → s ≤ k
    → k ≤ s + length log
    → Contiguous k (behind k log)
Contiguous-behind k s [] c h top = tt
Contiguous-behind k s (e ∷ log) c h top = elim (dec_lt s k) [
  | yes more ↦
      subst (λ (l : List LogEntry). Contiguous k l) (sym (behind_drops k e log (omega arith)))
        (Contiguous-behind k (suc s) log c.1 more (omega arith))
  | no same ↦
      let q : s ≡ k = omega arith in
      subst (λ (l : List LogEntry). Contiguous k l) (sym (behind_all k s (e ∷ log) c (omega arith)))
        (subst (λ m. Contiguous m (e ∷ log)) q c)
]

pub length-behind :
    (k s : ℕ) (log : List LogEntry)
    → Contiguous s log
    → s ≤ k
    → k ≤ s + length log
    → k + length (behind k log) ≡ s + length log
length-behind k s [] c h top = omega arith
length-behind k s (e ∷ log) c h top = elim (dec_lt s k) [
  | yes more ↦ omega (
    arith,
    length-behind k (suc s) log c.1 more (omega arith),
    ap length (behind_drops k e log (omega arith)),
  )
  | no same ↦ omega (arith, ap length (behind_all k s (e ∷ log) c (omega arith)))
]

get_elem?-behind :
    (k s i : ℕ) (log : List LogEntry)
    → Contiguous s log
    → s ≤ k
    → get_elem? (behind k log) i ≡ get_elem? log (i + (k - s))
get_elem?-behind k s i [] c h = refl
get_elem?-behind k s i (e ∷ log) c h = elim (dec_lt s k) [
  | yes more ↦
      let next : i + (k - s) ≡ suc (i + (k - suc s)) = omega arith in
      ap (λ (l : List LogEntry). get_elem? l i) (behind_drops k e log (omega arith))
      ∙ get_elem?-behind k (suc s) i log c.1 more
      ∙ ap (get_elem? (e ∷ log)) (sym next)
  | no same ↦
      let at : i ≡ i + (k - s) = omega arith in
      ap (λ (l : List LogEntry). get_elem? l i) (behind_all k s (e ∷ log) c (omega arith))
      ∙ ap (get_elem? (e ∷ log)) at
]

module _ (snap new : Snapshot) (log : List LogEntry) (c : Contiguous snap.last_included_index log)
    (h : snap.last_included_index ≤ new.last_included_index)
    (top : new.last_included_index ≤ last_index snap log) where
  in_log : new.last_included_index ≤ snap.last_included_index + length log
  in_log = omega (arith, last_index-Contiguous snap log c)

  pub behind-Contiguous : Contiguous new.last_included_index (behind new.last_included_index log)
  behind-Contiguous =
      Contiguous-behind new.last_included_index snap.last_included_index log c h in_log

  -- What stays of the log ends where the log ended.
  pub last_index-behind : last_index new (behind new.last_included_index log) ≡ last_index snap log
  last_index-behind = omega (
    arith,
    last_index-Contiguous new (behind new.last_included_index log) behind-Contiguous,
    last_index-Contiguous snap log c,
    length-behind new.last_included_index snap.last_included_index log c h in_log,
  )

  -- And it has the entries that the log had.
  pub entry_at-behind :
      (i : ℕ)
      → new.last_included_index < i
      → entry_at new (behind new.last_included_index log) i ≡ entry_at snap log i
  entry_at-behind i above =
      let at : (i - new.last_included_index - 1)
            + (new.last_included_index - snap.last_included_index)
          ≡ i - snap.last_included_index - 1 =
        omega arith in
      entry_at-Contiguous new (behind new.last_included_index log) i behind-Contiguous above
      ∙ get_elem?-behind new.last_included_index snap.last_included_index _ log c h
      ∙ ap (get_elem? log) at
      ∙ sym (entry_at-Contiguous snap log i c (omega arith))

module _ (snap : Snapshot) (log : List LogEntry) (e : LogEntry)
    (c : Contiguous snap.last_included_index log) (at : e.index ≡ last_index snap log + 1) where
  pub Contiguous-snoc : Contiguous snap.last_included_index (log ++ e ∷ [])
  Contiguous-snoc =
      Contiguous-append snap.last_included_index log (e ∷ []) c
        (omega (arith, last_index-Contiguous snap log c), tt)

  pub last_index_snoc : last_index snap (log ++ e ∷ []) ≡ last_index snap log + 1
  last_index_snoc = omega (
    arith,
    last_index-Contiguous snap (log ++ e ∷ []) Contiguous-snoc,
    last_index-Contiguous snap log c,
    length-append log (e ∷ []),
  )

  pub entry_at_snoc :
      (i : ℕ) → i ≤ last_index snap log → entry_at snap (log ++ e ∷ []) i ≡ entry_at snap log i
  entry_at_snoc i h = elim (dec_lt snap.last_included_index i) [
    | no low ↦
        entry_at_below snap (log ++ e ∷ []) i (omega arith)
        ∙ sym (entry_at_below snap log i (omega arith))
    | yes above ↦
        entry_at-Contiguous snap (log ++ e ∷ []) i Contiguous-snoc above
        ∙ get_elem?-append log (e ∷ []) _ (omega (arith, last_index-Contiguous snap log c))
        ∙ sym (entry_at-Contiguous snap log i c above)
  ]
