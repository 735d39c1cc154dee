-- ===== src/Raft/Merge/Outcome.antt =====
-- The outcome of `mergeEntriesLocked` (internal/raft/node.go) on a contiguous log: the entries
-- refused, all of them held already, or those from the first new one on put behind their
-- predecessor.
use go_raft_kv.Prelude.{
  ℕ, suc, ◌+◌, ◌-◌, ◌≤◌, ◌<◌, ◌≡◌, refl, sym, ap, subst, inl, inr, Option, none, some, true, false,
  List, [], ◌∷◌, ◌++◌, arith, length, take, Bool-cases, All,
}
use native.Mathlib.Decide.{dec_le}
use go_raft_kv.Prelude.Word.{u64_mod}
use go_raft_kv.Storage.Types.{LogEntry, Snapshot}
use go_raft_kv.Raft.Log.{last_index, term_at, truncate_from}
use go_raft_kv.Raft.Log.Contiguous.{Contiguous, last_index-Contiguous}
use go_raft_kv.Raft.Merge.{MergeEntriesResult, has_term, merge_loop}
use go_raft_kv.Raft.Merge.Loop.{
  merge_loop_append, merge_loop_replace, merge_loop_refuse, merge_loop_skip,
}

-- The log holds each of the entries' terms at its index.
abbrev pub Agrees : Snapshot → List LogEntry → List LogEntry → Type 0
Agrees snap log = All (λ e. term_at snap log e.index ≡ some e.term)

abbrev pub unchanged : ℕ → MergeEntriesResult
unchanged last = record {
  changed = false;
  replaced = false;
  appended = [];
  conflict_index = 0;
  last_new_index = last;
}

-- What is written to the write-ahead log: the new entries behind the old log, or the whole new log.
pub data Written (log log' suf : List LogEntry) (r : MergeEntriesResult) : Type 0 where
  grew : log' ≡ log ++ suf → r.replaced ≡ false → r.appended ≡ suf → Written log log' suf r
  rewrote : r.replaced ≡ true → Written log log' suf r

-- `p` is the index that the entries follow.
pub data Merged (snap : Snapshot) (commit last : ℕ) (log : List LogEntry) (p : ℕ)
    (entries : List LogEntry) (res : List LogEntry × MergeEntriesResult) : Type 0 where
  refused :
      res.0 ≡ log
      → res.1.changed ≡ false
      → 0 < res.1.conflict_index
      → Merged snap commit last log p entries res
  held :
      res ≡ (log, unchanged last)
      → Agrees snap log entries
      → p + length entries ≤ last_index snap log
      → Merged snap commit last log p entries res
  spliced :
      (pre suf : List LogEntry) (k : ℕ)
      → entries ≡ pre ++ suf
      → Agrees snap log pre
      → p + length pre ≡ snap.last_included_index + k
      → k ≤ length log
      → commit ≤ snap.last_included_index + k
      → 0 < length suf
      → Contiguous (snap.last_included_index + k) suf
      → res.0 ≡ take k log ++ suf
      → Written log res.0 suf res.1
      → res.1.changed ≡ true
      → res.1.conflict_index ≡ 0
      → res.1.last_new_index ≡ last
      → Merged snap commit last log p entries res

pub has_term_lem : (o : Option ℕ) (t : ℕ) → has_term o t ≡ true → o ≡ some t
has_term_lem none t h = cc
has_term_lem (some u) t h = ground arith

take_all : (log : List LogEntry) → take (length log) log ≡ log
take_all [] = refl
take_all (e ∷ log) = ap (λ (l : List LogEntry). e ∷ l) (take_all log)

module _ (snap : Snapshot) (commit last : ℕ) (log : List LogEntry) where
  -- One more entry in front that the log holds.
  Merged-cons :
      (p : ℕ) (e : LogEntry) (entries : List LogEntry) (res : List LogEntry × MergeEntriesResult)
      → term_at snap log e.index ≡ some e.term
      → Merged snap commit last log (suc p) entries res
      → Merged snap commit last log p (e ∷ entries) res
  Merged-cons p e entries res h (refused a b c) = refused a b c
  Merged-cons p e entries res h (held a b c) = held a (h, b) (omega arith)
  Merged-cons p e entries res h (spliced pre suf k a b c d f g i j l m n o) =
      spliced (e ∷ pre) suf k (ap (λ (t : List LogEntry). e ∷ t) a) (h, b) (omega arith) d f g i j l
        m n o

  Merged_append :
      (p : ℕ) (e : LogEntry) (entries : List LogEntry)
      → Contiguous snap.last_included_index log
      → p ≡ snap.last_included_index + length log
      → commit ≤ p
      → p + length (e ∷ entries) < u64_mod
      → Contiguous p (e ∷ entries)
      → Merged snap commit last log p
          (e ∷ entries)
          (merge_loop snap commit last log (unchanged last) (e ∷ entries))
  Merged_append p e entries c at free small ce =
      rw (merge_loop_append snap commit last log (unchanged last) (e ∷ entries) p c at small ce) (
        spliced [] (e ∷ entries) (length log) refl tt (omega arith) (omega arith) (omega arith)
          (omega arith) (subst (λ m. Contiguous m (e ∷ entries)) at ce)
          (ap (λ (l : List LogEntry). l ++ (e ∷ entries)) (sym (take_all log)))
          (grew refl refl refl) refl refl refl)

  truncate_lem :
      (p i : ℕ)
      → Contiguous snap.last_included_index log
      → snap.last_included_index ≤ p
      → i ≡ suc p
      → i ≤ last_index snap log
      → truncate_from snap log i ≡ take (p - snap.last_included_index) log
  unfolding truncate_from
  truncate_lem p i c low at h =
      let k : i - snap.last_included_index - 1 ≡ p - snap.last_included_index = omega arith in
      rw k (ground (arith, last_index-Contiguous snap log c))

  pub merge_loop-Merged :
      (p : ℕ) (entries : List LogEntry)
      → Contiguous snap.last_included_index log
      → snap.last_included_index ≤ p
      → p ≤ last_index snap log
      → commit ≤ last_index snap log
      → p + length entries < u64_mod
      → Contiguous p entries
      → Merged snap commit last log p entries
          (merge_loop snap commit last log (unchanged last) entries)
  merge_loop-Merged p [] c low high free small ce = unfold merge_loop in held refl tt (omega arith)
  merge_loop-Merged p (e ∷ entries) c low high free small ce =
      elim (dec_le (suc p) (last_index snap log)) [
        | no out ↦
            Merged_append p e entries c (omega (arith, last_index-Contiguous snap log c))
              (omega arith) small ce
        | yes inside ↦ elim (Bool-cases (has_term (term_at snap log e.index) e.term)) [
          | inl same ↦
              rw
                (merge_loop_skip snap commit last log (unchanged last) e entries (omega arith)
                  (omega arith) same)
                (Merged-cons p e entries _ (has_term_lem _ _ same) (
                  merge_loop-Merged (suc p) entries c (omega arith) inside free (omega arith) ce.1))
          | inr differs ↦ elim (dec_le e.index commit) [
            | yes committed ↦
                rw
                  (merge_loop_refuse snap commit last log (unchanged last) e entries (omega arith)
                    (omega arith) differs committed)
                  (refused refl refl (omega arith))
            | no open_slot ↦
                rw
                  (merge_loop_replace snap commit last log (unchanged last) e entries (omega arith)
                    (omega arith) differs (omega arith))
                  (spliced [] (e ∷ entries) (p - snap.last_included_index) refl tt (omega arith)
                    (omega (arith, last_index-Contiguous snap log c)) (omega arith) (omega arith)
                    (let at : p ≡ snap.last_included_index + (p - snap.last_included_index) =
                        omega arith in
                      subst (λ m. Contiguous m (e ∷ entries)) at ce)
                    (ap (λ (l : List LogEntry). l ++ (e ∷ entries))
                      (truncate_lem p e.index c low ce.0 (omega arith)))
                    (rewrote refl) refl refl refl)
          ]
        ]
      ]
