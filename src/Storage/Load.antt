-- ===== src/Storage/Load.antt =====
-- What `Load` of internal/storage/wal.go makes of the log and the snapshot, and what a log is whose
-- base is beyond its first entry.
use mathlib.Core.Option.{some-injective}
use go_raft_kv.Prelude.{
  ℕ, suc, ◌-◌, some, get_elem?, ◌+◌, ◌≤◌, ◌<◌, ◌≡◌, refl, sym, subst, ◌⊎◌, inl, inr, String, Bool,
  true, false, ◌&&◌, Option, none, List, [], ◌∷◌, arith, length, ◌==◌, if-cases, Bool-cases, lt→ltb,
}
use go_raft_kv.Prelude.Word.{u64_mod}
use go_raft_kv.Storage.Types.{LogEntry, HardState, Snapshot}
use go_raft_kv.Storage.Wal.{
  Codec, content, encode_wal, has_snapshot_boundary_entry, entries_after,
  reconcile_wal_with_snapshot,
}
use go_raft_kv.Storage.Wal.ReadBack.{IsLawful, based}
use go_raft_kv.Storage.Wal.Crash.{read_wal-encode_wal}
use go_raft_kv.Storage.Store.{
  holds, Files, replaced, LoadError, write_atomic, or_zero, settle, after_read, load_wal, load,
}
use go_raft_kv.Raft.Log.Contiguous.{Contiguous, last_index-Contiguous}
use go_raft_kv.Raft.Log.Suffix.{behind, behind-Contiguous}

-- An entry at the snapshot's index stands between the base and the end of the log.
boundary_inside :
    (i : ℕ) (entries : List LogEntry) (snap : Snapshot)
    → Contiguous i entries
    → 0 < snap.last_included_index
    → has_snapshot_boundary_entry entries snap ≡ true
    → (i ≤ snap.last_included_index) × (snap.last_included_index ≤ i + length entries)
unfolding has_snapshot_boundary_entry
boundary_inside i [] snap c pos h = absurd (ground arith)
boundary_inside i (e ∷ entries) snap c pos h =
    elim (Bool-cases (e.index == snap.last_included_index)) [
      | inl here ↦ ground arith
      | inr there ↦
          let rest : has_snapshot_boundary_entry entries snap ≡ true = rw there at h in
          let (low, high) = boundary_inside (suc i) entries snap c.1 pos rest in
          (omega arith, omega arith)
    ]

-- The entry with the snapshot's index, behind the base, is there and has the snapshot's term.
abbrev HasBoundary : ℕ → List LogEntry → Snapshot → Type 0
HasBoundary i entries snap =
    (i < snap.last_included_index)
    × (e : LogEntry) × (get_elem? entries (snap.last_included_index - i - 1) ≡ some e)
    × (e.term ≡ snap.last_included_term)

-- The log has the snapshot's index with the snapshot's term, at its base or in an entry.
abbrev pub Meets : ℕ → ℕ → List LogEntry → Snapshot → Type 0
Meets i t entries snap =
    ((i ≡ snap.last_included_index) × (t ≡ snap.last_included_term)) ⊎ HasBoundary i entries snap

-- What is left of a log: the entries that the snapshot does not cover, if the log meets it, else none.
abbrev pub Reconciled : ℕ → ℕ → List LogEntry → Snapshot → List LogEntry → Type 0
Reconciled i t entries snap log =
    (Meets i t entries snap → log ≡ behind snap.last_included_index entries)
    × (¬ Meets i t entries snap → log ≡ [])

boundary-HasBoundary :
    (i : ℕ) (entries : List LogEntry) (snap : Snapshot)
    → Contiguous i entries
    → 0 < snap.last_included_index
    → has_snapshot_boundary_entry entries snap ≡ true
    → HasBoundary i entries snap
unfolding has_snapshot_boundary_entry
boundary-HasBoundary i [] snap c pos h = absurd (ground arith)
boundary-HasBoundary i (e ∷ entries) snap c pos h =
    elim (Bool-cases (e.index == snap.last_included_index)) [
      | inl here ↦
          let first : 0 ≡ snap.last_included_index - i - 1 = ground (arith, here, c.0) in
          let term : (e.term == snap.last_included_term) ≡ true = rw here at h in
          (
            ground (arith, here, c.0),
            e,
            subst (λ j. get_elem? (e ∷ entries) j ≡ some e) first refl,
            ground (arith, term),
          )
      | inr there ↦
          let rest : has_snapshot_boundary_entry entries snap ≡ true = rw there at h in
          let (low, x, at, term) = boundary-HasBoundary (suc i) entries snap c.1 pos rest in
          let shift : suc (snap.last_included_index - suc i - 1)
              ≡ snap.last_included_index - i - 1 =
            omega (arith, low) in
          (omega (arith, low), x, subst (λ j. get_elem? (e ∷ entries) j ≡ some x) shift at, term)
    ]

HasBoundary-boundary :
    (i : ℕ) (entries : List LogEntry) (snap : Snapshot) (x : LogEntry)
    → Contiguous i entries
    → i < snap.last_included_index
    → get_elem? entries (snap.last_included_index - i - 1) ≡ some x
    → x.term ≡ snap.last_included_term
    → has_snapshot_boundary_entry entries snap ≡ true
unfolding has_snapshot_boundary_entry
HasBoundary-boundary i [] snap x c low at same = absurd (cc)
HasBoundary-boundary i (e ∷ entries) snap x c low at same =
    elim (Bool-cases (e.index == snap.last_included_index)) [
      | inl here ↦
          let first : snap.last_included_index - i - 1 ≡ 0 = ground (arith, here, c.0) in
          let found : some e ≡ some x = subst (λ j. get_elem? (e ∷ entries) j ≡ some x) first at in
          let it : e ≡ x = some-injective e x found in
          let term : (e.term == snap.last_included_term) ≡ true =
            subst (λ (y : LogEntry). (y.term == snap.last_included_term) ≡ true) (sym it)
              (ground (arith, same)) in
          rw here term
      | inr there ↦
          let further : suc i < snap.last_included_index = ground (arith, low, there, c.0) in
          let shift : snap.last_included_index - i - 1
              ≡ suc (snap.last_included_index - suc i - 1) =
            omega (arith, further) in
          rw there (
            HasBoundary-boundary (suc i) entries snap x c.1 further
              (subst (λ j. get_elem? (e ∷ entries) j ≡ some x) shift at) same)
    ]

-- A snapshot that only has its index.
abbrev at_index : ℕ → Snapshot
at_index i = record { last_included_index = i; last_included_term = 0; contents = none }

behind-base :
    (i : ℕ) (entries : List LogEntry) (snap : Snapshot)
    → Contiguous i entries
    → i ≤ snap.last_included_index
    → snap.last_included_index ≤ i + length entries
    → Contiguous snap.last_included_index (behind snap.last_included_index entries)
behind-base i entries snap c low high =
    behind-Contiguous (at_index i) snap entries c low
      (omega (arith, last_index-Contiguous (at_index i) entries c))

-- What is left of a log with its base record follows the snapshot one by one, whatever the snapshot.
pub reconcile-Contiguous :
    (i t : ℕ) (entries : List LogEntry) (snap : Snapshot)
    → Contiguous i entries
    → 0 < snap.last_included_index
    → Contiguous snap.last_included_index (reconcile_wal_with_snapshot (based i t entries) snap).0
unfolding reconcile_wal_with_snapshot entries_after
reconcile-Contiguous i t entries snap c pos =
    let P : List LogEntry × Bool → Type 0 = λ r. Contiguous snap.last_included_index r.0 in
    if-cases P ((i == snap.last_included_index) && (t == snap.last_included_term)) _ _
      (λ same. behind-base i entries snap c (ground arith) (ground arith))
      (λ _.
        if-cases P (has_snapshot_boundary_entry entries snap) _ _
          (λ h.
            let (low, high) = boundary_inside i entries snap c pos h in
            behind-base i entries snap c low high)
          (λ _. if-cases P ((length entries == 0) && false) _ _ (λ _. tt) (λ _. tt)))

-- It is what the log has beyond the snapshot, if the log meets the snapshot, else nothing.
reconcile-Reconciled :
    (i t : ℕ) (entries : List LogEntry) (snap : Snapshot)
    → Contiguous i entries
    → 0 < snap.last_included_index
    → Reconciled i t entries snap (reconcile_wal_with_snapshot (based i t entries) snap).0
unfolding reconcile_wal_with_snapshot entries_after
reconcile-Reconciled i t entries snap c pos =
    let P : List LogEntry × Bool → Type 0 = λ r. Reconciled i t entries snap r.0 in
    if-cases P ((i == snap.last_included_index) && (t == snap.last_included_term)) _ _
      (λ same. (λ _. refl, λ none_met. absurd (none_met (inl (ground arith, ground arith)))))
      (λ other.
        if-cases P (has_snapshot_boundary_entry entries snap) _ _
          (λ h. (
            λ _. refl,
            λ none_met. absurd (none_met (inr (boundary-HasBoundary i entries snap c pos h))),
          ))
          (λ none_there.
            let met : Meets i t entries snap → ⊥ = not_met other none_there in
            if-cases P ((length entries == 0) && false) _ _ (λ _. (λ m. absurd (met m), λ _. refl))
              (λ _. (λ m. absurd (met m), λ _. refl))))
  where
    not_met :
        ((i == snap.last_included_index) && (t == snap.last_included_term)) ≡ false
        → has_snapshot_boundary_entry entries snap ≡ false
        → ¬ Meets i t entries snap
    not_met other none_there (inl (a, b)) = ground (arith, a, b, other)
    not_met other none_there (inr (low, x, at, same)) =
        ground (arith, HasBoundary-boundary i entries snap x c low at same, none_there)

-- A log that holds what the snapshot does not, and that loads with it.
abbrev pub Loaded :
    {B : Type 0}
    → ℕ
    → ℕ
    → List LogEntry
    → HardState
    → Snapshot
    → Files B × (LoadError ⊎ (HardState × List LogEntry × Snapshot))
    → Type 0
Loaded i t entries hs snap r =
    (log : List LogEntry) × (r.1 ≡ inr (hs, log, snap))
    × Contiguous snap.last_included_index log
    × Reconciled i t entries snap log

module _ {B : Type 0} (c : Codec B) where
  settle-Loaded :
      (hs : HardState) (snap : Snapshot) (i t : ℕ) (entries : List LogEntry) (f : Files B)
      → Contiguous i entries
      → 0 < snap.last_included_index
      → Loaded i t entries hs snap (settle c replaced hs snap (based i t entries) f)
  unfolding settle write_atomic
  settle-Loaded hs snap i t entries f ce pos =
      let wal = based i t entries in
      let (log, rewrite) = reconcile_wal_with_snapshot wal snap in
      let good = reconcile-Contiguous i t entries snap ce pos in
      let exact = reconcile-Reconciled i t entries snap ce pos in
      let some_snapshot = lt→ltb 0 snap.last_included_index pos in
      rw some_snapshot (
        if-cases (Loaded i t entries hs snap) rewrite _ _ (λ _. (log, refl, good, exact))
          (λ _. (log, refl, good, exact)))

module _ {B : Type 0} (c : Codec B) (lawful : IsLawful c) where
  -- With a hard state, a snapshot beyond index 0 and a log that was written with its base record and
  -- entries that follow the base one by one, with indexes below the largest uint64, `Load` succeeds if
  -- its write does, and gives the stored hard state and snapshot and a log that follows the snapshot
  -- one by one: all stored entries above the snapshot's index, as they are, if the stored log has the
  -- snapshot's term at that index, at its base or in an entry, and no entry otherwise.
  pub load-Loaded :
      (truncate : Option String) (hs : HardState) (snap : Snapshot) (i t : ℕ)
      (entries : List LogEntry)
      → Contiguous i entries
      → i + length entries + 1 < u64_mod
      → 0 < snap.last_included_index
      → Loaded i t entries hs snap (
          load c truncate replaced (record {
            hard_state = holds hs;
            wal = content (encode_wal c i t entries);
            snapshot = holds snap;
          }))
  unfolding load or_zero load_wal after_read
  load-Loaded truncate hs snap i t entries ce small pos =
      let bytes = encode_wal c i t entries in
      let f : Files B = record {
        hard_state = holds hs;
        wal = content bytes;
        snapshot = holds snap;
      } in
      subst (λ r. Loaded i t entries hs snap (after_read c replaced hs snap f r))
        (sym (read_wal-encode_wal c lawful truncate i t entries ce small))
        (settle-Loaded c hs snap i t entries f ce pos)
