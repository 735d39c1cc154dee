-- ===== src/Raft/Merge/Loop.antt =====
-- What the merge loop of internal/raft/node.go does on a contiguous log and contiguous entries.
use go_raft_kv.Prelude.{
  ℕ, suc, ◌+◌, ◌≤◌, ◌<◌, ◌≡◌, refl, ap, subst, true, false, List, [], ◌∷◌, ◌++◌, arith, length,
  length-append, append-nil,
}
use mathlib.Core.List.{append_assoc}
use go_raft_kv.Prelude.Word.{u64_mod, inc64_exact}
use go_raft_kv.Storage.Types.{LogEntry, Snapshot}
use go_raft_kv.Raft.Log.{last_index, term_at, truncate_from}
use go_raft_kv.Raft.Log.Contiguous.{Contiguous, last_index-Contiguous, Contiguous-append}
use go_raft_kv.Raft.Merge.{MergeEntriesResult, has_term, merge_loop}

-- The result after the entries were appended one by one.
abbrev pub grown : MergeEntriesResult → List LogEntry → MergeEntriesResult
grown r [] = r
grown r (e ∷ entries) = record r { changed = true; appended = r.appended ++ (e ∷ entries) }

grown-append :
    (r : MergeEntriesResult) (e : LogEntry) (entries : List LogEntry)
    → grown (record r { changed = true; appended = r.appended ++ e ∷ [] }) entries
      ≡ grown r (e ∷ entries)
grown-append r e [] = refl
grown-append r e (f ∷ entries) =
    ap (λ (l : List LogEntry). record r { changed = true; appended = l })
      (append_assoc r.appended (e ∷ []) (f ∷ entries))

module _ (snap : Snapshot) (commit last_new : ℕ) where
  -- Entries that start right behind the log are appended to it.
  pub merge_loop_append :
      (log : List LogEntry) (r : MergeEntriesResult) (entries : List LogEntry) (p : ℕ)
      → Contiguous snap.last_included_index log
      → p ≡ snap.last_included_index + length log
      → p + length entries < u64_mod
      → Contiguous p entries
      → merge_loop snap commit last_new log r entries ≡ (log ++ entries, grown r entries)
  unfolding merge_loop
  merge_loop_append log r [] p cl at small ce = rw append-nil
  merge_loop_append log r (e ∷ entries) p cl at small ce =
      let ih =
        merge_loop_append (log ++ e ∷ [])
          (record r { changed = true; appended = r.appended ++ e ∷ [] }) entries (suc p)
          (Contiguous-append _ log (e ∷ []) cl (subst (λ k. Contiguous k (e ∷ [])) at (ce.0, tt)))
          (omega (arith, length-append log (e ∷ []))) (omega arith) ce.1 in
      ground (
        arith,
        ih,
        last_index-Contiguous snap log cl,
        inc64_exact (last_index snap log),
        append_assoc log (e ∷ []) entries,
        grown-append r e entries,
      )

  -- An entry that the log does not have with its term, above the commit index, replaces the rest.
  pub merge_loop_replace :
      (log : List LogEntry) (r : MergeEntriesResult) (e : LogEntry) (entries : List LogEntry)
      → snap.last_included_index < e.index
      → e.index ≤ last_index snap log
      → has_term (term_at snap log e.index) e.term ≡ false
      → commit < e.index
      → merge_loop snap commit last_new log r (e ∷ entries) ≡ (
        truncate_from snap log e.index ++ (e ∷ entries),
        record {
          changed = true;
          replaced = true;
          appended = [];
          conflict_index = 0;
          last_new_index = last_new;
        },
      )
  unfolding merge_loop
  merge_loop_replace log r e entries above in_log differs free = ground arith

  pub merge_loop_refuse :
      (log : List LogEntry) (r : MergeEntriesResult) (e : LogEntry) (entries : List LogEntry)
      → snap.last_included_index < e.index
      → e.index ≤ last_index snap log
      → has_term (term_at snap log e.index) e.term ≡ false
      → e.index ≤ commit
      → merge_loop snap commit last_new log r (e ∷ entries) ≡ (
        log,
        record {
          changed = false;
          replaced = false;
          appended = [];
          conflict_index = e.index;
          last_new_index = last_new;
        },
      )
  unfolding merge_loop
  merge_loop_refuse log r e entries above in_log differs held = ground arith

  pub merge_loop_skip :
      (log : List LogEntry) (r : MergeEntriesResult) (e : LogEntry) (entries : List LogEntry)
      → snap.last_included_index < e.index
      → e.index ≤ last_index snap log
      → has_term (term_at snap log e.index) e.term ≡ true
      → merge_loop snap commit last_new log r (e ∷ entries)
        ≡ merge_loop snap commit last_new log r entries
  unfolding merge_loop
  merge_loop_skip log r e entries above in_log same = ground arith
