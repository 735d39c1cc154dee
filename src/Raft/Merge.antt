-- ===== src/Raft/Merge.antt =====
-- internal/raft/node.go: `validateEntriesLocked` and `mergeEntriesLocked`, which put the entries of
-- an AppendEntries request into the log. `n.log` is an argument, and is returned with the result.
pub mod Loop
pub mod Outcome
pub mod Validate
pub mod Splice
pub mod Safety
use go_raft_kv.Prelude.{
  ℕ, Option, none, some, Bool, true, false, not, ◌&&◌, List, [], ◌∷◌, ◌++◌, ltb, leb, ◌==◌,
  if◌then◌else◌,
}
use go_raft_kv.Prelude.Word.{inc64}
use go_raft_kv.Storage.Types.{LogEntry, Snapshot}
use go_raft_kv.Raft.Log.{last_index, term_at, truncate_from}

pub record MergeEntriesResult : Type 0 where
  pub changed : Bool
  pub replaced : Bool
  pub appended : List LogEntry
  pub conflict_index : ℕ
  pub last_new_index : ℕ

-- The loop of `validateEntriesLocked`; `prev` is 0 until an entry above the snapshot is seen.
unfoldable pub validate_loop : Snapshot → ℕ → ℕ → List LogEntry → ℕ
validate_loop snap prev_log_index prev [] = 0
validate_loop snap prev_log_index prev (e ∷ entries) =
    let skipped = validate_loop snap prev_log_index prev entries in
    let checked = validate_loop snap prev_log_index e.index entries in
    if leb e.index snap.last_included_index
    then skipped
    else if prev == 0 && not (e.index == inc64 prev_log_index)
    then inc64 prev_log_index
    else if not (prev == 0) && not (e.index == inc64 prev)
    then inc64 prev
    else checked

unfoldable pub validate_entries : Snapshot → ℕ → List LogEntry → ℕ
unfolding validate_loop
validate_entries snap prev_log_index entries = validate_loop snap prev_log_index 0 entries

-- The first loop of `mergeEntriesLocked`: the largest index above the snapshot and `last`.
unfoldable pub last_new : Snapshot → ℕ → List LogEntry → ℕ
last_new snap last [] = last
last_new snap last (e ∷ entries) =
    last_new snap
      (if ltb snap.last_included_index e.index && ltb last e.index then e.index else last) entries

abbrev pub has_term : Option ℕ → ℕ → Bool
has_term none t = false
has_term (some u) t = u == t

-- The second loop of `mergeEntriesLocked`.
unfoldable pub merge_loop :
    Snapshot
    → ℕ
    → ℕ
    → List LogEntry
    → MergeEntriesResult
    → List LogEntry
    → List LogEntry × MergeEntriesResult
merge_loop snap commit last_new log result [] = (log, result)
merge_loop snap commit last_new log result (e ∷ entries) =
    let skipped = merge_loop snap commit last_new log result entries in
    let grown =
      merge_loop snap commit last_new (log ++ e ∷ [])
        (record result { changed = true; appended = result.appended ++ e ∷ [] }) entries in
    if leb e.index snap.last_included_index
    then skipped
    else if leb e.index (last_index snap log)
    then (if has_term (term_at snap log e.index) e.term
        then skipped
        else if leb e.index commit
        then (
          log,
          record {
            changed = false;
            replaced = false;
            appended = [];
            conflict_index = e.index;
            last_new_index = last_new;
          },
        )
        else (
          truncate_from snap log e.index ++ (e ∷ entries),
          record {
            changed = true;
            replaced = true;
            appended = [];
            conflict_index = 0;
            last_new_index = last_new;
          },
        ))
    else if not (e.index == inc64 (last_index snap log))
    then (
      log,
      record {
        changed = false;
        replaced = false;
        appended = [];
        conflict_index = inc64 (last_index snap log);
        last_new_index = 0;
      },
    )
    else grown

unfoldable pub merge_entries :
    Snapshot → ℕ → List LogEntry → ℕ → List LogEntry → List LogEntry × MergeEntriesResult
merge_entries snap commit log prev_log_index entries =
    let last = last_new snap prev_log_index entries in
    let conflict = validate_entries snap prev_log_index entries in
    if ltb 0 conflict
    then (
      log,
      record {
        changed = false;
        replaced = false;
        appended = [];
        conflict_index = conflict;
        last_new_index = 0;
      },
    )
    else merge_loop snap commit last log
        (record {
          changed = false;
          replaced = false;
          appended = [];
          conflict_index = 0;
          last_new_index = last;
        })
        entries
