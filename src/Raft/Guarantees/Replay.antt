-- ===== src/Raft/Guarantees/Replay.antt =====
-- The machine after a range of the log's entries: what `applyReady` and the recovery in `NewNode`
-- (internal/raft/node.go) are to reach.
use go_raft_kv.Prelude.{ℕ, zero, suc, ◌+◌, ◌≤◌, ◌<◌, ◌≡◌, refl, arith, Option, none, some, List}
use mathlib.Core.Option.{some-injective}
use go_raft_kv.Storage.Types.{LogEntry, Snapshot}
use go_raft_kv.Raft.Types.{StateMachine}
use go_raft_kv.Raft.Log.{entry_at}

module _ {M : Type 0} (sm : StateMachine M) where
  -- The machine after the `count` entries behind index `i`.
  unfoldable pub replay_entries : Snapshot → List LogEntry → M → ℕ → ℕ → M
  replay_entries snap log machine i zero = machine
  replay_entries snap log machine i (suc count) = elim (entry_at snap log (suc i)) [
    | none ↦ machine
    | some e ↦ replay_entries snap log (sm.apply machine e.command).0 (suc i) count
  ]

  pub replay_entries_step :
      (snap : Snapshot) (log : List LogEntry) (machine : M) (i count : ℕ) (e : LogEntry)
      → entry_at snap log (suc i) ≡ some e
      → replay_entries snap log machine i (suc count)
        ≡ replay_entries snap log (sm.apply machine e.command).0 (suc i) count
  unfolding replay_entries
  replay_entries_step snap log machine i count e h = rw (h, replay_entries) refl

  -- Logs with the same entries in the range replay alike.
  pub replay_entries_same :
      (snap snap' : Snapshot) (log log' : List LogEntry) (machine : M) (i count : ℕ)
      → ((j : ℕ) → i < j → j ≤ i + count → entry_at snap' log' j ≡ entry_at snap log j)
      → replay_entries snap' log' machine i count ≡ replay_entries snap log machine i count
  unfolding replay_entries
  replay_entries_same snap snap' log log' machine i zero same = refl
  replay_entries_same snap snap' log log' machine i (suc count) same =
      go (entry_at snap' log' (suc i)) (entry_at snap log (suc i))
        (same (suc i) (omega arith) (omega arith))
        λ m.
          replay_entries_same snap snap' log log' m (suc i) count
            λ j low high. same j (omega arith) (omega arith)
    where
      go :
          (a b : Option LogEntry)
          → a ≡ b
          → ((m : M)
              → replay_entries snap' log' m (suc i) count ≡ replay_entries snap log m (suc i) count)
          → (elim a [
            | none ↦ machine
            | some e ↦ replay_entries snap' log' (sm.apply machine e.command).0 (suc i) count
          ])
            ≡ (elim b [
              | none ↦ machine
              | some e ↦ replay_entries snap log (sm.apply machine e.command).0 (suc i) count
            ])
      go none none e ih = refl
      go none (some y) e ih = cc
      go (some x) none e ih = cc
      go (some x) (some y) e ih =
          let same_entry : x ≡ y = some-injective x y e in
          rw same_entry (ih (sm.apply machine y.command).0)
