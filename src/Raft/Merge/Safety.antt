-- ===== src/Raft/Merge/Safety.antt =====
-- What `mergeEntriesLocked` of internal/raft/node.go guarantees to the AppendEntries handler.
use go_raft_kv.Prelude.{
  ℕ, ◌+◌, ◌≤◌, ◌<◌, ◌≡◌, refl, ◌⊎◌, inl, inr, false, List, arith, length, Bool-cases, ltb,
}
use go_raft_kv.Prelude.Word.{u64_mod}
use go_raft_kv.Storage.Types.{LogEntry, Snapshot}
use go_raft_kv.Raft.Log.{last_index, entry_at}
use go_raft_kv.Raft.Log.Contiguous.{Contiguous}
use go_raft_kv.Raft.Merge.{MergeEntriesResult, merge_entries, validate_entries}
use go_raft_kv.Raft.Merge.Outcome.{Agrees, Merged, merge_loop-Merged}
use go_raft_kv.Raft.Merge.Validate.{
  InRange, validate_entries_iff, last_new-Contiguous, length-InRange,
}
use go_raft_kv.Raft.Merge.Splice.{
  Merged-Contiguous, Merged-committed, Merged-last_index, Merged_bounded, Merged-Agrees,
  AppendedOrReplaced, Merged-written,
}

-- What the merge theorems ask: the handler has checked that the previous index is in the log and not
-- under the snapshot, a valid node has the log and the commit index, and the sender keeps the indexes in
-- range, which the handler does not check.
pub record Mergeable (snap : Snapshot) (commit : ℕ) (log : List LogEntry) (p : ℕ)
    (entries : List LogEntry) : Type 0 where
  pub contiguous : Contiguous snap.last_included_index log
  pub above : snap.last_included_index ≤ p
  pub inside : p ≤ last_index snap log
  pub committed : commit ≤ last_index snap log
  pub room : p + 1 < u64_mod
  pub in_range : InRange snap entries

module _ (snap : Snapshot) (commit : ℕ) (log : List LogEntry) (p : ℕ) (entries : List LogEntry)
    (m : Mergeable snap commit log p entries) where
  -- Either the entries fail the validation, or they follow `p` and are merged.
  pub merge_entries-Merged :
      ((merge_entries snap commit log p entries).0 ≡ log)
        × ((merge_entries snap commit log p entries).1.changed ≡ false)
        × (0 < (merge_entries snap commit log p entries).1.conflict_index)
      ⊎ Contiguous p entries
        × Merged snap commit
            (p + length entries)
            log
            p
            entries
            (merge_entries snap commit log p entries)
  unfolding merge_entries
  merge_entries-Merged = elim (Bool-cases (ltb 0 (validate_entries snap p entries))) [
    | inl bad ↦ inl (ground arith, ground arith, ground arith)
    | inr good ↦
        let c : Contiguous p entries =
          (validate_entries_iff snap p m.room entries m.in_range).0 (ground arith) in
        let l = last_new-Contiguous snap p entries m.in_range c in
        inr (
          c,
          rw (good, l)
              (merge_loop-Merged snap commit (p + length entries) log p entries m.contiguous m.above
                m.inside m.committed
                (omega (arith, length-InRange snap p entries m.in_range m.room c)) c),
        )
  ]

module _ (snap : Snapshot) (commit : ℕ) (log : List LogEntry) (p : ℕ) (entries : List LogEntry)
    (m : Mergeable snap commit log p entries) where
  abbrev merged : List LogEntry × MergeEntriesResult
  merged = merge_entries snap commit log p entries

  outcome :
      ((merged.0 ≡ log) × (merged.1.changed ≡ false) × (0 < merged.1.conflict_index))
      ⊎ (Contiguous p entries × Merged snap commit (p + length entries) log p entries merged)
  outcome = merge_entries-Merged snap commit log p entries m

  -- On a log that is contiguous above its snapshot and reaches the commit index, the merge of
  -- entries that are above the snapshot, with indexes below the largest uint64, behind a previous
  -- index that is neither below the snapshot's nor above the last one and is below the largest
  -- uint64, leaves a log that is contiguous above the snapshot.
  pub merge_entries-Contiguous : Contiguous snap.last_included_index merged.0
  merge_entries-Contiguous = elim outcome [
    | inl (same, _, _) ↦ rw same m.contiguous
    | inr (_, o) ↦ Merged-Contiguous snap commit log p entries merged m.contiguous _ o
  ]

  -- On a log that is contiguous above its snapshot and reaches the commit index, the merge of
  -- entries that are above the snapshot, with indexes below the largest uint64, behind a previous
  -- index that is neither below the snapshot's nor above the last one and is below the largest
  -- uint64, leaves every entry up to the commit index as it is, in whatever order and with whatever
  -- terms the entries come.
  pub merge_entries_committed :
      (i : ℕ) → i ≤ commit → entry_at snap merged.0 i ≡ entry_at snap log i
  merge_entries_committed i h = elim outcome [
    | inl (same, _, _) ↦ rw same refl
    | inr (_, o) ↦ Merged-committed snap commit log p entries merged m.contiguous _ i h o
  ]

  pub merge_entries_last : commit ≤ last_index snap merged.0
  merge_entries_last = elim outcome [
    | inl (same, _, _) ↦ rw same m.committed
    | inr (_, o) ↦ Merged-last_index snap commit log p entries merged m.contiguous _ m.committed o
  ]

  pub merge_entries_bounded : last_index snap log < u64_mod → last_index snap merged.0 < u64_mod
  merge_entries_bounded h = elim outcome [
    | inl (same, _, _) ↦ rw same h
    | inr (ce, o) ↦
        Merged_bounded snap commit _ log p entries merged m.contiguous h
          (omega (arith, length-InRange snap p entries m.in_range m.room ce)) o
  ]

  -- On a log that is contiguous above its snapshot and reaches the commit index, if the merge of
  -- entries that are above the snapshot, with indexes below the largest uint64, behind a previous
  -- index that is neither below the snapshot's nor above the last one and is below the largest
  -- uint64, reports no conflict, the entries follow the previous index one by one, the merged log
  -- has at each of their indexes an entry of that term and reaches the last of them, and the index
  -- that is reported as the last new one is the last of them.
  pub merge_entries-Agrees :
      merged.1.conflict_index ≡ 0
      → Contiguous p entries
        × Agrees snap merged.0 entries
        × (p + length entries ≤ last_index snap merged.0)
        × (merged.1.last_new_index ≡ p + length entries)
  merge_entries-Agrees z = elim outcome [
    | inl (_, _, bad) ↦ absurd (omega arith)
    | inr (ce, o) ↦
        let (a, b, l) = Merged-Agrees snap commit log p entries merged m.contiguous ce _ z o in
        (ce, a, b, l)
  ]

  -- On a log that is contiguous above its snapshot and reaches the commit index, what the merge of
  -- entries that are above the snapshot, with indexes below the largest uint64, behind a previous
  -- index that is neither below the snapshot's nor above the last one and is below the largest
  -- uint64, tells the caller to write is enough: with `changed` false the log is the old one, and
  -- with `replaced` false it is the old one followed by `appended`.
  pub merge_entries_written : AppendedOrReplaced log merged.0 merged.1
  merge_entries_written = elim outcome [
    | inl (same, ch, _) ↦ (λ _. same, λ h _. cc)
    | inr (_, o) ↦ Merged-written snap commit _ log p entries merged o
  ]
