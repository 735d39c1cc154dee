-- ===== src/Raft/Merge/Validate.antt =====
-- `validateEntriesLocked` of internal/raft/node.go decides whether the entries follow the previous
-- index one by one, and `lastNewIndex` is then the index of the last of them.
use go_raft_kv.Prelude.{
  ℕ, suc, ◌+◌, ◌<◌, ◌≡◌, refl, subst, ◌↔◌, List, [], ◌∷◌, arith, ◌&&◌, length, All, ltb, ◌==◌,
  if◌then◌else◌,
}
use go_raft_kv.Prelude.Word.{u64_mod, inc64_exact}
use go_raft_kv.Storage.Types.{LogEntry, Snapshot}
use go_raft_kv.Raft.Log.Contiguous.{Contiguous}
use go_raft_kv.Raft.Merge.{validate_loop, validate_entries, last_new}

-- Indexes above the snapshot, and below the largest uint64.
abbrev pub InRange : Snapshot → List LogEntry → Type 0
InRange snap = All (λ e. (snap.last_included_index < e.index) × (e.index + 1 < u64_mod))

module _ (snap : Snapshot) (q : ℕ) (room : q + 1 < u64_mod) where
  validate_loop_sound :
      (prev : ℕ) (entries : List LogEntry)
      → InRange snap entries
      → prev + 1 < u64_mod
      → validate_loop snap q prev entries ≡ 0
      → Contiguous (if prev == 0 then q else prev) entries
  unfolding validate_loop
  validate_loop_sound prev [] ok small h = tt
  validate_loop_sound prev (e ∷ entries) ok small h =
      let first : e.index ≡ suc (if prev == 0 then q else prev) =
        ground (arith, inc64_exact q, inc64_exact prev) in
      let rest : Contiguous (if e.index == 0 then q else e.index) entries =
        validate_loop_sound e.index entries ok.1 (ok.0.1)
          (ground (arith, inc64_exact q, inc64_exact prev)) in
      let step : (if e.index == 0 then q else e.index) ≡ suc (if prev == 0 then q else prev) =
        ground arith in
      (first, subst (λ m. Contiguous m entries) step rest)

  validate_loop_complete :
      (prev : ℕ) (entries : List LogEntry)
      → InRange snap entries
      → prev + 1 < u64_mod
      → Contiguous (if prev == 0 then q else prev) entries
      → validate_loop snap q prev entries ≡ 0
  unfolding validate_loop
  validate_loop_complete prev [] ok small c = refl
  validate_loop_complete prev (e ∷ entries) ok small c =
      let step : suc (if prev == 0 then q else prev) ≡ (if e.index == 0 then q else e.index) =
        ground arith in
      let rest =
        validate_loop_complete e.index entries ok.1 ok.0.1
          (subst (λ m. Contiguous m entries) step c.1) in
      ground (arith, inc64_exact q, inc64_exact prev)

  -- Entries above the snapshot, with indexes below the largest uint64, pass the validation exactly when
  -- they follow the previous index one by one; that index is below the largest uint64 too.
  pub validate_entries_iff :
      (entries : List LogEntry)
      → InRange snap entries
      → (validate_entries snap q entries ≡ 0) ↔ Contiguous q entries
  unfolding validate_entries
  validate_entries_iff entries ok = (
    validate_loop_sound 0 entries ok (omega arith),
    validate_loop_complete 0 entries ok (omega arith),
  )

pub last_new-Contiguous :
    (snap : Snapshot) (p : ℕ) (entries : List LogEntry)
    → InRange snap entries
    → Contiguous p entries
    → last_new snap p entries ≡ p + length entries
unfolding last_new
last_new-Contiguous snap p [] ok c = omega arith
last_new-Contiguous snap p (e ∷ entries) ok c =
    let at : (if ltb snap.last_included_index e.index && ltb p e.index then e.index else p)
        ≡ suc p =
      ground arith in
    rw at (omega (arith, last_new-Contiguous snap (suc p) entries ok.1 c.1))

-- The last index is below the largest uint64.
pub length-InRange :
    (snap : Snapshot) (p : ℕ) (entries : List LogEntry)
    → InRange snap entries
    → p + 1 < u64_mod
    → Contiguous p entries
    → p + length entries + 1 < u64_mod
length-InRange snap p [] ok room c = omega arith
length-InRange snap p (e ∷ entries) ok room c =
    omega (arith, length-InRange snap (suc p) entries ok.1 (omega arith) c.1)
