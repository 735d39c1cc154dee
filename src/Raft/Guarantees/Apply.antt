-- ===== src/Raft/Guarantees/Apply.antt =====
-- The loop `applyReady` of internal/raft/node.go against its specification: the committed entries
-- that are not applied yet are applied in the order of the log, each once.
use go_raft_kv.Prelude.{
  ℕ, zero, suc, ◌+◌, ◌-◌, ◌<◌, ◌≡◌, refl, sym, ap, ◌∙◌, Bool, true, false, arith, Option, none,
  some, ltb, if-cases, ◌==◌, leb, keep, le→leb, lt→leb,
}
use go_raft_kv.Prelude.Word.{inc64, inc64_exact}
use go_raft_kv.Storage.Types.{ApplyResult, LogEntry, Snapshot}
use go_raft_kv.Raft.Types.{Error, Store, StateMachine}
use go_raft_kv.Raft.Log.{entry_at}
use go_raft_kv.Raft.Log.Contiguous.{entry_at_total, entry_at-index}
use go_raft_kv.Raft.Node.{Node}
use go_raft_kv.Raft.Compact.{outdated_snapshot, compact_log, persist_snapshot}
use go_raft_kv.Raft.Apply.{
  idle, entry, next_ready, still_next, record_applied, due_snapshot, finish_apply, apply_one,
  apply_ready,
}
use go_raft_kv.Raft.Guarantees.Replay.{replay_entries, replay_entries_step, replay_entries_same}
use go_raft_kv.Raft.Progress.{IsValid, Keeps-refl}
use go_raft_kv.Raft.Progress.Apply.{apply_one-Keeps}

==_refl : (a : ℕ) → (a == a) ≡ true
==_refl a = ground arith

-- The counters and the machine are as they were.
abbrev SameCounters : {S M : Type 0} → Node S M → Node S M → Type 0
SameCounters n m =
    (m.last_applied ≡ n.last_applied) × (m.commit_index ≡ n.commit_index) × (m.machine ≡ n.machine)

module _ {S M : Type 0} (st : Store S) where
  compact_log-SameCounters :
      (snap : Snapshot) (n : Node S M) → SameCounters n (compact_log st snap n)
  unfolding compact_log
  compact_log-SameCounters snap n =
      if-cases (SameCounters n) (outdated_snapshot snap n) _ _ (λ _. (refl, refl, refl))
        (λ _. go _ _)
    where
      go :
          (s : S) (o : Option Error)
          → SameCounters n (elim o [
            | some e ↦ record n { store = s; last_err = some e }
            | none ↦ record n {
              store = s;
              snapshot = snap;
              log = keep (λ (e : LogEntry). ltb snap.last_included_index e.index) n.log;
            }
          ])
      go s none = (refl, refl, refl)
      go s (some e) = (refl, refl, refl)

  persist_snapshot-SameCounters :
      (snap : Snapshot) (n : Node S M) → SameCounters n (persist_snapshot st (λ m. m) snap n)
  unfolding persist_snapshot
  persist_snapshot-SameCounters snap n =
      if-cases (SameCounters n) (outdated_snapshot snap n) _ _ (λ _. (refl, refl, refl))
        (λ _. go _ _)
    where
      go :
          (s : S) (o : Option Error)
          → SameCounters n (elim o [
            | some e ↦ record n { store = s; last_err = some e }
            | none ↦ compact_log st snap (record n { store = s })
          ])
      go s none = compact_log-SameCounters snap (record n { store = s })
      go s (some e) = (refl, refl, refl)

module _ {S M : Type 0} (st : Store S) (sm : StateMachine M) where
  -- One round applies the next entry.
  abbrev Applied : Node S M → LogEntry → Node S M × Bool → Type 0
  Applied n e r =
      (r.1 ≡ true)
      × (r.0.last_applied ≡ suc n.last_applied)
      × (r.0.commit_index ≡ n.commit_index)
      × (r.0.machine ≡ (sm.apply n.machine e.command).0)

  finish_apply_lem :
      (e : LogEntry) (result : ApplyResult) (n : Node S M)
      → still_next e n ≡ true
      → let r = finish_apply st sm (λ m. m) e result n in
        (r.1 ≡ true)
        × (r.0.last_applied ≡ e.index)
        × (r.0.commit_index ≡ n.commit_index)
        × (r.0.machine ≡ n.machine)
  unfolding finish_apply
  finish_apply_lem e result n h =
      rw (h, finish_apply) (go (due_snapshot sm (record_applied e result n)))
    where
      go :
          (o : Option Snapshot)
          → let r : Node S M × Bool = elim o [
            | none ↦ (record_applied e result n, true)
            | some snap ↦ (persist_snapshot st (λ m. m) snap (record_applied e result n), true)
          ] in
            (r.1 ≡ true)
            × (r.0.last_applied ≡ e.index)
            × (r.0.commit_index ≡ n.commit_index)
            × (r.0.machine ≡ n.machine)
      go none = unfold record_applied in (refl, refl, refl, refl)
      go (some snap) =
          let (a, c, m) = persist_snapshot-SameCounters st snap (record_applied e result n) in
          unfold record_applied in (refl, a, c, m)

  -- The entry behind the last applied one is what `next_ready` finds and what `still_next` asks.
  ready_entry :
      (n : Node S M) (e : LogEntry)
      → IsValid n
      → n.last_applied < n.commit_index
      → entry_at n.snapshot n.log (suc n.last_applied) ≡ some e
      → e.index ≡ suc n.last_applied
      → (next_ready n ≡ entry e) × (still_next e n ≡ true)
  unfolding next_ready still_next
  ready_entry n e v h at i =
      let wide = inc64_exact n.last_applied (omega (arith, v.committed, v.bounded)) in
      let exact : inc64 n.last_applied ≡ suc n.last_applied = omega (arith, wide) in
      let busy : leb n.commit_index n.last_applied ≡ false = lt→leb _ _ h in
      let above : leb (suc n.last_applied) n.snapshot.last_included_index ≡ false =
        lt→leb _ _ (omega (arith, v.covered)) in
      let here : entry_at n.snapshot n.log e.index ≡ some e =
        ap (λ j. entry_at n.snapshot n.log j) i ∙ at in
      (rw (exact, busy, above, at) refl, ground (arith, here, exact, i))

  apply_one_lem :
      (n : Node S M)
      → IsValid n
      → n.last_applied < n.commit_index
      → (e : LogEntry) × (entry_at n.snapshot n.log (suc n.last_applied) ≡ some e)
        × Applied n e (apply_one st sm (λ m. m) n)
  unfolding apply_one still_next
  apply_one_lem n v h =
      let (e, at) =
        entry_at_total n.snapshot n.log (suc n.last_applied) v.contiguous (omega (arith, v.covered))
          (omega (arith, v.committed)) in
      let i = entry_at-index n.snapshot n.log (suc n.last_applied) at in
      let (ready, next) = ready_entry n e v h at i in
      let (machine, result) = sm.apply n.machine e.command in
      let (more, applied, commit, same) =
        finish_apply_lem e result (record n { machine = machine }) next in
      (e, at, rw (ready, apply_one) (more, applied ∙ i, commit, same))

  idle_lem :
      (n : Node S M) → n.last_applied ≡ n.commit_index → apply_one st sm (λ m. m) n ≡ (n, false)
  unfolding apply_one next_ready
  idle_lem n h =
      let all : leb n.commit_index n.last_applied ≡ true = le→leb _ _ (omega arith) in
      let ready : next_ready n ≡ idle = rw all refl in rw (ready, apply_one) refl

  -- What the loop is to reach: everything committed is applied, once and in the order of the log.
  abbrev pub Caught : Node S M → ℕ → Node S M → Type 0
  Caught n count m =
      (m.last_applied ≡ n.commit_index)
      × (m.commit_index ≡ n.commit_index)
      × (m.machine ≡ replay_entries sm n.snapshot n.log n.machine n.last_applied count)

  round_lem :
      (count fuel : ℕ) (n : Node S M)
      → IsValid n
      → n.last_applied + suc count ≡ n.commit_index
      → let next = (apply_one st sm (λ m. m) n).0 in
        IsValid next
        × (next.last_applied + count ≡ next.commit_index)
        × (apply_ready st sm (suc fuel) (λ m. m) n ≡ apply_ready st sm fuel (λ m. m) next)
        × ((m : Node S M) → Caught next count m → Caught n (suc count) m)
  unfolding apply_ready
  round_lem count fuel n v h =
      let one = apply_one st sm (λ m. m) n in
      let next = one.0 in
      let (e, at, step) = apply_one_lem n v (omega arith) in
      let (more, applied, commit, machine) = step in
      let (valid, kept) = apply_one-Keeps st sm (λ m. m) (λ m. Keeps-refl m) n v in
      (
        valid,
        omega (arith, applied, commit),
        rw more refl,
        λ m caught.
            let (done, same, result) = caught in
            (
              done ∙ commit,
              same ∙ commit,
              result
                  ∙ replay_entries_same sm n.snapshot next.snapshot n.log next.log next.machine
                      next.last_applied count
                      (λ j low high. kept.entries j (omega arith) (omega (arith, valid.covered)))
                  ∙ rw (applied, machine)
                      (sym (
                        replay_entries_step sm n.snapshot n.log n.machine n.last_applied count e
                          at)),
            ),
      )

  apply_ready-Caught :
      (count fuel : ℕ) (n : Node S M)
      → IsValid n
      → n.last_applied + count ≡ n.commit_index
      → count < fuel
      → Caught n count (apply_ready st sm fuel (λ m. m) n)
  unfolding apply_ready replay_entries
  apply_ready-Caught zero zero n v h small = absurd (omega arith)
  apply_ready-Caught (suc count) zero n v h small = absurd (omega arith)
  apply_ready-Caught zero (suc fuel) n v h small =
      let all : n.last_applied ≡ n.commit_index = omega arith in
      rw (idle_lem n all) (all, refl, refl)
  apply_ready-Caught (suc count) (suc fuel) n v h small =
      let next = (apply_one st sm (λ m. m) n).0 in
      let (valid, sum, same, back) = round_lem count fuel n v h in
      rw same (
        back (apply_ready st sm fuel (λ m. m) next)
          (apply_ready-Caught count fuel next valid sum (omega arith)))

  -- `apply_ready` on a valid node, with more fuel than there are committed entries to apply and with
  -- nothing done to the node meanwhile: afterwards every committed entry is applied, the commit index
  -- is as before, and the machine is the old one after the committed entries behind the last applied
  -- index, each applied once in the order of the log, whatever snapshots the loop takes on its way.
  pub apply_ready_lem :
      (fuel : ℕ) (n : Node S M)
      → IsValid n
      → n.commit_index - n.last_applied < fuel
      → Caught n (n.commit_index - n.last_applied) (apply_ready st sm fuel (λ m. m) n)
  apply_ready_lem fuel n v small =
      apply_ready-Caught (n.commit_index - n.last_applied) fuel n v (omega (arith, v.applied)) small
