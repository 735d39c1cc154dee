-- ===== src/Raft/Log.antt =====
-- internal/raft/node.go: the accessors of a node's log above its snapshot. A method that reads
-- `n.snapshot` and `n.log` takes the two as arguments; `(value, ok)` is an `Option`.
pub mod Contiguous
pub mod Suffix
use go_raft_kv.Prelude.{
  ℕ, zero, suc, ◌-◌, Option, none, some, Bool, true, false, not, ◌||◌, ◌&&◌, List, [], ◌∷◌, ◌++◌,
  ltb, leb, ◌==◌, if◌then◌else◌, get_elem?, get_last?, length, take, keep,
}
use go_raft_kv.Prelude.Word.{inc64}
use go_raft_kv.Storage.Types.{LogEntry, Snapshot}

-- `lastIndex`, which `lastIndexLocked` calls
unfoldable pub last_index : Snapshot → List LogEntry → ℕ
last_index snap log = elim (get_last? log) [ none ↦ snap.last_included_index | some e ↦ e.index ]

unfoldable pub last_term : Snapshot → List LogEntry → ℕ
last_term snap log = elim (get_last? log) [ none ↦ snap.last_included_term | some e ↦ e.term ]

unfoldable pub entry_at : Snapshot → List LogEntry → ℕ → Option LogEntry
entry_at snap log i =
    if leb i snap.last_included_index
    then none
    else elim (get_elem? log (i - snap.last_included_index - 1)) [
      | none ↦ none
      | some e ↦ if e.index == i then some e else none
    ]

unfoldable pub term_at : Snapshot → List LogEntry → ℕ → Option ℕ
term_at snap log i =
    if i == 0
    then some 0
    else if i == snap.last_included_index
    then some snap.last_included_term
    else elim (entry_at snap log i) [ none ↦ none | some e ↦ some e.term ]

unfoldable pub entries_from : List LogEntry → ℕ → List LogEntry
entries_from log i = keep (λ e. leb i e.index) log

unfoldable pub truncate_from : Snapshot → List LogEntry → ℕ → List LogEntry
truncate_from snap log i =
    if leb i snap.last_included_index
    then []
    else let kept = i - snap.last_included_index - 1 in
      if ltb kept (length log) then take kept log else log

-- The entries that a snapshot leaves: all of those after it if the log agrees with its boundary.
unfoldable pub log_after_snapshot : Snapshot → List LogEntry → Snapshot → List LogEntry
log_after_snapshot snap log new = elim (term_at snap log new.last_included_index) [
  | none ↦ []
  | some t ↦
      if t == new.last_included_term
      then keep (λ e. ltb new.last_included_index e.index) log
      else []
]

-- The loop of `conflictIndexLocked`, on fuel: `for index > n.snapshot.LastIncludedIndex+1`.
unfoldable pub run_start : ℕ → Snapshot → List LogEntry → ℕ → ℕ → ℕ
run_start zero snap log term i = i
run_start (suc fuel) snap log term i =
    if ltb (inc64 snap.last_included_index) i
    then elim (term_at snap log (i - 1)) [
      | none ↦ i
      | some t ↦ if t == term then run_start fuel snap log term (i - 1) else i
    ]
    else i

unfoldable pub conflict_index : Snapshot → List LogEntry → ℕ → ℕ
conflict_index snap log i =
    let last = last_index snap log in
    if ltb last i
    then inc64 last
    else if leb i snap.last_included_index
    then inc64 snap.last_included_index
    else elim (term_at snap log i) [ none ↦ inc64 last | some t ↦ run_start i snap log t i ]
