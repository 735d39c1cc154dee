-- ===== src/Raft/Compact.antt =====
-- internal/raft/node.go: `snapshotAtLocked` and `persistSnapshot`, by which a node compacts its log.
use go_raft_kv.Prelude.{ℕ, Bool, ◌||◌, Option, none, some, ltb, leb, if◌then◌else◌, keep}
use go_raft_kv.Storage.Types.{LogEntry, Snapshot}
use go_raft_kv.Raft.Types.{Store, StateMachine}
use go_raft_kv.Raft.Log.{term_at}
use go_raft_kv.Raft.Node.{Node}

-- The clone of a map is the map.
unfoldable pub snapshot_at : {S M : Type 0} → StateMachine M → Node S M → ℕ → Option Snapshot
snapshot_at sm n index = elim (term_at n.snapshot n.log index) [
  | none ↦ none
  | some term ↦ some (record {
    last_included_index = index;
    last_included_term = term;
    contents = some (sm.snapshot n.machine);
  })
]

module _ {S M : Type 0} where
  abbrev pub outdated_snapshot : Snapshot → Node S M → Bool
  outdated_snapshot snap n =
      leb snap.last_included_index n.snapshot.last_included_index
      || ltb n.last_applied snap.last_included_index

module _ {S M : Type 0} (st : Store S) where
  -- The second critical section, once the snapshot is saved.
  unfoldable pub compact_log : Snapshot → Node S M → Node S M
  compact_log snap n =
      if outdated_snapshot snap n
      then n
      else (let log = keep (λ (e : LogEntry). ltb snap.last_included_index e.index) n.log in
          let (s, err) = st.replace_entries n.store log in
          elim err [
            | some e ↦ record n { store = s; last_err = some e }
            | none ↦ record n { store = s; snapshot = snap; log = log }
          ])

  -- `other` is what other threads do to the node wherever its lock is not held: before the first
  -- check, between the check and the save, and between the save and the section that follows it.
  unfoldable pub persist_snapshot : (Node S M → Node S M) → Snapshot → Node S M → Node S M
  unfolding compact_log
  persist_snapshot other snap n =
      let checked = other n in
      if outdated_snapshot snap checked
      then checked
      else (let unlocked = other checked in
          let (s, err) = st.save_snapshot unlocked.store snap in
          let after = other (record unlocked { store = s }) in
          elim err [ some e ↦ record after { last_err = some e } | none ↦ compact_log snap after ])
