-- ===== src/Raft/Progress/Apply.antt =====
-- The loop `applyReady` of internal/raft/node.go keeps the node valid.
use go_raft_kv.Prelude.{
  ℕ, zero, suc, ◌+◌, ◌≤◌, ◌<◌, ◌≡◌, ◌≢◌, refl, Bool, true, false, arith, Option, none, some,
  if-cases,
}
use native.Mathlib.Nat.{le_refl}
use native.Mathlib.Decide.{dec_le}
use go_raft_kv.Prelude.Word.{u64_mod, inc64, inc64_exact, inc64_pos}
use go_raft_kv.Storage.Types.{ApplyResult, LogEntry, Snapshot}
use go_raft_kv.Raft.Types.{Store, StateMachine}
use go_raft_kv.Raft.Log.Contiguous.{entry_at_below}
use go_raft_kv.Raft.Node.{Node}
use go_raft_kv.Raft.Compact.{persist_snapshot}
use go_raft_kv.Raft.Apply.{
  Ready, idle, covered, entry, next_ready, still_next, record_applied, due_snapshot, finish_apply,
  apply_one, apply_ready,
}
use go_raft_kv.Raft.Progress.{IsValid, Advances, Keeps, Keeps-refl, Keeps-trans}
use go_raft_kv.Raft.Progress.Compact.{persist_snapshot-Keeps}

module _ {S M : Type 0} where
  -- The entry that passes the check is the one behind the last applied, and is committed.
  pub still_next_lem :
      (e : LogEntry) (n : Node S M)
      → IsValid n
      → still_next e n ≡ true
      → (e.index ≡ n.last_applied + 1) × (e.index ≤ n.commit_index)
  unfolding still_next
  still_next_lem e n v h = elim (dec_le e.index n.snapshot.last_included_index) [
    | yes low ↦ let gone = entry_at_below n.snapshot n.log e.index low in absurd (ground arith)
    | no above ↦
        let small : n.last_applied < u64_mod = omega (arith, v.applied, v.committed, v.bounded) in
        let next : e.index ≡ inc64 n.last_applied = ground arith in
        (omega (arith, inc64_pos n.last_applied), ground arith)
  ]

  pub record_applied-Keeps :
      (e : LogEntry) (result : ApplyResult) (n : Node S M)
      → still_next e n ≡ true
      → Keeps n (record_applied e result n)
  unfolding record_applied
  record_applied-Keeps e result n h v =
      let (next, in_commit) = still_next_lem e n v h in
      (
        record {
          contiguous = v.contiguous;
          covered = omega (arith, v.covered);
          applied = in_commit;
          committed = v.committed;
          bounded = v.bounded;
        },
        record {
          terms = le_refl _;
          votes = λ _ _. refl;
          snapshots = le_refl _;
          commits = le_refl _;
          applies = omega arith;
          entries = λ i _ _. refl;
        },
      )

module _ {S M : Type 0} (st : Store S) (sm : StateMachine M) (other : Node S M → Node S M)
    (k : (n : Node S M) → Keeps n (other n)) where
  finish_apply-Keeps :
      (e : LogEntry) (result : ApplyResult) (n : Node S M)
      → Keeps n (finish_apply st sm other e result n).0
  unfolding finish_apply
  finish_apply-Keeps e result n =
      if-cases (λ (r : Node S M × Bool). Keeps n r.0) (still_next e n) _ _
        (λ h. snapped (record_applied-Keeps e result n h) (due_snapshot sm applied))
        (λ _. Keeps-refl n)
    where
      applied : Node S M
      applied = record_applied e result n

      snapped :
          Keeps n applied
          → (o : Option Snapshot)
          → Keeps n (
              let x : Node S M × Bool = elim o [
                | none ↦ (applied, true)
                | some snap ↦ (persist_snapshot st other snap applied, true)
              ] in
              x.0)
      snapped h none = h
      snapped h (some snap) =
          Keeps-trans n applied (persist_snapshot st other snap applied) h
            (persist_snapshot-Keeps st other snap applied k)

  -- In a valid node no entry to apply lies under the snapshot.
  next_ready_lem : (n : Node S M) → IsValid n → next_ready n ≢ covered
  unfolding next_ready
  next_ready_lem n v h =
      let exact = inc64_exact n.last_applied in
      ground (arith, exact, v.covered, v.committed, v.bounded)

  pub apply_one-Keeps : (n : Node S M) → Keeps n (apply_one st sm other n).0
  unfolding apply_one
  apply_one-Keeps n v = go (next_ready n) refl
    where
      go :
          (r : Ready)
          → next_ready n ≡ r
          → let x : Node S M × Bool = elim r [
            | idle ↦ (n, false)
            | covered ↦ (record n { last_applied = n.snapshot.last_included_index }, true)
            | entry e ↦
                let (machine, result) = sm.apply n.machine e.command in
                finish_apply st sm other e result (other (record n { machine = machine }))
          ] in
            IsValid x.0 × Advances n x.0
      go idle h = Keeps-refl n v
      go covered h = absurd (next_ready_lem n v h)
      go (entry e) h =
          let (machine, result) = sm.apply n.machine e.command in
          let m = other (record n { machine = machine }) in
          Keeps-trans n m (finish_apply st sm other e result m).0
            (k (record n { machine = machine })) (finish_apply-Keeps e result m) v

  -- Any number of rounds of the apply loop leave a valid node valid, if what other threads do before
  -- each round, while a command is run, and before, between and after the check and the save of a
  -- snapshot keeps a node valid and goes back on nothing: no term or index of the node falls, a
  -- vote is kept within its term, and committed entries stay until a snapshot covers them.
  pub apply_ready-Keeps :
      (fuel : ℕ) (n : Node S M)
      → IsValid n
      → IsValid (apply_ready st sm fuel other n) × Advances n (apply_ready st sm fuel other n)
  unfolding apply_ready
  apply_ready-Keeps zero n = Keeps-refl n
  apply_ready-Keeps (suc fuel) n =
      let (next, more) = apply_one st sm other (other n) in
      let rest = apply_ready st sm fuel other next in
      let round : Keeps n next = Keeps-trans n (other n) next (k n) (apply_one-Keeps (other n)) in
      if-cases (Keeps n) more _ _ (λ _. Keeps-trans n next rest round (apply_ready-Keeps fuel next))
        (λ _. round)
