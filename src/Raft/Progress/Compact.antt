-- ===== src/Raft/Progress/Compact.antt =====
-- `persistSnapshot` of internal/raft/node.go keeps the node valid and the entries that it leaves.
use go_raft_kv.Prelude.{◌≤◌, arith, Option, none, some, if-cases}
use go_raft_kv.Storage.Types.{Snapshot}
use go_raft_kv.Raft.Types.{Error, Store}
use go_raft_kv.Raft.Log.Suffix.{behind}
use go_raft_kv.Raft.Node.{Node}
use go_raft_kv.Raft.Compact.{outdated_snapshot, compact_log, persist_snapshot}
use go_raft_kv.Raft.Progress.{Keeps, Keeps-refl, Keeps-trans, Keeps-compact}

module _ {S M : Type 0} (st : Store S) where
  pub compact_log-Keeps : (snap : Snapshot) (n : Node S M) → Keeps n (compact_log st snap n)
  unfolding compact_log
  compact_log-Keeps snap n =
      if-cases (Keeps n) (outdated_snapshot snap n) _ _ (λ _. Keeps-refl n)
        λ fresh.
          written (ground arith) (ground arith)
            (st.replace_entries n.store (behind snap.last_included_index n.log))
    where
      written :
          n.snapshot.last_included_index ≤ snap.last_included_index
          → snap.last_included_index ≤ n.last_applied
          → (r : S × Option Error)
          → Keeps n (elim r.1 [
            | some e ↦ record n { store = r.0; last_err = some e }
            | none ↦ record n {
              store = r.0;
              snapshot = snap;
              log = behind snap.last_included_index n.log;
            }
          ])
      written up done (s, some e) = Keeps-refl n
      written up done (s, none) = Keeps-compact n snap up done

  -- What other threads do while the snapshot is saved is one of the steps that keep the node.
  pub persist_snapshot-Keeps :
      (other : Node S M → Node S M) (snap : Snapshot) (n : Node S M)
      → ((m : Node S M) → Keeps m (other m))
      → Keeps n (persist_snapshot st other snap n)
  unfolding persist_snapshot
  persist_snapshot-Keeps other snap n k =
      if-cases (Keeps n) (outdated_snapshot snap (other n)) _ _ (λ _. k n)
        (λ _. saved (st.save_snapshot (other (other n)).store snap))
    where
      unlocked : Keeps n (other (other n))
      unlocked = Keeps-trans n (other n) (other (other n)) (k n) (k (other n))

      after : (s : S) → Keeps n (other (record (other (other n)) { store = s }))
      after s =
          Keeps-trans n (other (other n)) (other (record (other (other n)) { store = s })) unlocked
            (k (record (other (other n)) { store = s }))

      saved :
          (r : S × Option Error)
          → Keeps n (
              let m = other (record (other (other n)) { store = r.0 }) in
              elim r.1 [ some e ↦ record m { last_err = some e } | none ↦ compact_log st snap m ])
      saved (s, some e) = after s
      saved (s, none) =
          let m = other (record (other (other n)) { store = s }) in
          Keeps-trans n m (compact_log st snap m) (after s) (compact_log-Keeps snap m)
