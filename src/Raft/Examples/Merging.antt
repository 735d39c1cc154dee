-- ===== src/Raft/Examples/Merging.antt =====
-- The theorems on the log of internal/raft/node.go at a log of three entries and a request that
-- replaces the last of them.
use go_raft_kv.Prelude.{ℕ, ◌+◌, ◌≤◌, ◌<◌, ◌≡◌, ◌↔◌, ◌⊎◌, refl, List, [], ◌∷◌, some, arith}
use go_raft_kv.Prelude.Word.{inc64}
use go_raft_kv.Storage.Types.{LogEntry}
use go_raft_kv.Raft.Examples.{e1, e2, e3, no_snapshot}
use go_raft_kv.Raft.Log.{last_index, entry_at, term_at, conflict_index}
use go_raft_kv.Raft.Log.Contiguous.{Contiguous}
use go_raft_kv.Raft.Merge.{merge_entries, validate_entries, merge_loop}
use go_raft_kv.Raft.Merge.Outcome.{Agrees}
use go_raft_kv.Raft.Merge.Splice.{AppendedOrReplaced}
use go_raft_kv.Raft.Merge.Validate.{validate_entries_iff}
use go_raft_kv.Raft.Merge.Safety.{
  Mergeable, merge_entries-Contiguous, merge_entries_committed, merge_entries-Agrees,
  merge_entries_written,
}
use go_raft_kv.Raft.Guarantees.Conflict.{StartsRun, conflict_index_lem}

abbrev held : List LogEntry
held = e1 ∷ e2 ∷ record e3 { term = 2 } ∷ []

abbrev sent : List LogEntry
sent = e2 ∷ e3 ∷ []

sent-Mergeable : Mergeable no_snapshot 1 held 1 sent
unfolding last_index
sent-Mergeable = record {
  contiguous = (refl, (refl, (refl, tt)));
  above = omega arith;
  inside = omega arith;
  committed = omega arith;
  room = omega arith;
  in_range = ground arith;
}

merge_entries_committed_example :
    entry_at no_snapshot (merge_entries no_snapshot 1 held 1 sent).0 1 ≡ entry_at no_snapshot held 1
merge_entries_committed_example =
    merge_entries_committed no_snapshot 1 held 1 sent sent-Mergeable 1 (omega arith)

merge_entries-Agrees_example :
    Contiguous 1 sent
    × Agrees no_snapshot (merge_entries no_snapshot 1 held 1 sent).0 sent
    × (3 ≤ last_index no_snapshot (merge_entries no_snapshot 1 held 1 sent).0)
    × ((merge_entries no_snapshot 1 held 1 sent).1.last_new_index ≡ 3)
unfolding merge_entries validate_entries inc64 merge_loop last_index term_at entry_at
merge_entries-Agrees_example = merge_entries-Agrees no_snapshot 1 held 1 sent sent-Mergeable refl

merge_entries_written_example :
    AppendedOrReplaced held
      (merge_entries no_snapshot 1 held 1 sent).0
      (merge_entries no_snapshot 1 held 1 sent).1
merge_entries_written_example = merge_entries_written no_snapshot 1 held 1 sent sent-Mergeable

merge_entries-Contiguous_example : Contiguous 0 (merge_entries no_snapshot 1 held 1 sent).0
merge_entries-Contiguous_example = merge_entries-Contiguous no_snapshot 1 held 1 sent sent-Mergeable

validate_entries_iff_example : (validate_entries no_snapshot 1 sent ≡ 0) ↔ Contiguous 1 sent
validate_entries_iff_example = validate_entries_iff no_snapshot 1 (omega arith) sent (ground arith)

conflict_index_lem_example :
    ((last_index no_snapshot held < 3)
      × (conflict_index no_snapshot held 3 ≡ last_index no_snapshot held + 1))
    ⊎ ((term : ℕ) × (term_at no_snapshot held 3 ≡ some term)
        × StartsRun no_snapshot held term 3 (conflict_index no_snapshot held 3))
unfolding last_index
conflict_index_lem_example =
    conflict_index_lem no_snapshot held 3 (refl, (refl, (refl, tt))) (omega arith) (omega arith)
