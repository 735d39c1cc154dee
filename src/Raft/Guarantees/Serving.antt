-- ===== src/Raft/Guarantees/Serving.antt =====
-- internal/raft/node.go: a node with its apply loop, which runs a command without the node's lock and
-- records it under the lock; the state machine that others read meanwhile.
use go_raft_kv.Prelude.{
  ℕ, zero, suc, ◌+◌, ◌≤◌, ◌<◌, ◌≡◌, refl, sym, ap, ◌∙◌, true, false, arith, Option, none, some,
  List, [], ◌∷◌, ◌++◌, leb, if-cases,
}
use go_raft_kv.Prelude.Word.{inc64, inc64_exact}
use go_raft_kv.Storage.Types.{ApplyResult, LogEntry, Snapshot}
use go_raft_kv.Raft.Types.{Store, StateMachine}
use go_raft_kv.Raft.Log.{last_index, entry_at}
use go_raft_kv.Raft.Log.Contiguous.{Contiguous, entry_at_total, entry_at-index}
use go_raft_kv.Raft.Node.{Node}
use go_raft_kv.Raft.Apply.{Ready, idle, entry, next_ready, run_entry, still_next, record_applied}
use go_raft_kv.Raft.Progress.{IsValid, Advances}
use go_raft_kv.Raft.System.{Step, Reach, here, next, run_command, apply}
use go_raft_kv.Raft.Guarantees.Replay.{replay_entries, replay_entries_step}

-- The node, and the entry whose command has been run but is not recorded yet, with its result.
-- `applyMu` lets one apply loop at a time do this.
pub record Served (S M : Type 0) : Type 0 where
  pub node : Node S M
  pub applying : Option (LogEntry × ApplyResult)

module _ {M : Type 0} (sm : StateMachine M) where
  -- The machine after the commands of some entries.
  abbrev pub run_all : List LogEntry → M → M
  run_all [] m = m
  run_all (e ∷ es) m = run_all es (sm.apply m e.command).0

  pub run_all_snoc :
      (es : List LogEntry) (e : LogEntry) (m : M)
      → run_all (es ++ e ∷ []) m ≡ (sm.apply (run_all es m) e.command).0
  run_all_snoc [] e m = refl
  run_all_snoc (x ∷ es) e m = run_all_snoc es e (sm.apply m x.command).0

  -- One more entry at the end of a replay within the log.
  pub replay_entries_snoc :
      (snap : Snapshot) (log : List LogEntry) (m : M) (i k : ℕ) (e : LogEntry)
      → Contiguous snap.last_included_index log
      → snap.last_included_index ≤ i
      → i + k ≤ last_index snap log
      → entry_at snap log (suc (i + k)) ≡ some e
      → replay_entries sm snap log m i (suc k)
        ≡ (sm.apply (replay_entries sm snap log m i k) e.command).0
  unfolding replay_entries
  replay_entries_snoc snap log m i zero e c low high there =
      let place : suc (i + 0) ≡ suc i = omega arith in
      replay_entries_step sm snap log m i 0 e (ap (λ j. entry_at snap log j) (sym place) ∙ there)
  replay_entries_snoc snap log m i (suc k) e c low high there =
      let (x, found) = entry_at_total snap log (suc i) c (omega arith) (omega arith) in
      let place : suc (i + suc k) ≡ suc (suc i + k) = omega arith in
      replay_entries_step sm snap log m i (suc k) x found
      ∙ replay_entries_snoc snap log (sm.apply m x.command).0 (suc i) k e c (omega arith)
          (omega arith) (ap (λ j. entry_at snap log j) (sym place) ∙ there)
      ∙ ap (λ (z : M). (sm.apply z e.command).0)
          (sym (replay_entries_step sm snap log m i k x found))

module _ {S M : Type 0} (st : Store S) (sm : StateMachine M) where
  -- The apply loop runs the next command, records it, or finds that its entry is gone; or another step
  -- is made that leaves the machine and the last applied index, which is every step but the
  -- installation of a snapshot.
  pub data Move (s : Served S M) : Served S M → Type 0 where
    quiet :
        (m : Node S M)
        → Step st sm s.node m
        → m.machine ≡ s.node.machine
        → m.last_applied ≡ s.node.last_applied
        → Move s (record { node = m; applying = s.applying })
    run :
        (e : LogEntry)
        → s.applying ≡ none
        → next_ready s.node ≡ entry e
        → Move s (record {
          node = (run_entry sm e s.node).0;
          applying = some (e, (run_entry sm e s.node).1);
        })
    finish :
        (e : LogEntry) (result : ApplyResult)
        → s.applying ≡ some (e, result)
        → still_next e s.node ≡ true
        → Move s (record { node = record_applied e result s.node; applying = none })
    give_up :
        (e : LogEntry) (result : ApplyResult)
        → s.applying ≡ some (e, result)
        → still_next e s.node ≡ false
        → Move s (record { node = s.node; applying = none })

  pub data Serves (s : Served S M) : Served S M → Type 0 where
    stays : Serves s s
    moves : {u v : Served S M} → Serves s u → Move u v → Serves s v

  pub Serves-trans : {s u v : Served S M} → Serves s u → Serves u v → Serves s v
  Serves-trans r stays = r
  Serves-trans r (moves q m) = moves (Serves-trans r q) m

  pub Serves-Reach : {s u : Served S M} → Serves s u → Reach st sm s.node u.node
  Serves-Reach stays = here
  Serves-Reach (moves r (quiet m step _ _)) = next (Serves-Reach r) step
  Serves-Reach (moves r (run e _ ready)) = next (Serves-Reach r) (run_command e ready)
  Serves-Reach (moves r (finish e result _ still)) = next (Serves-Reach r) (apply e result still)
  Serves-Reach (moves r (give_up e result _ _)) = Serves-Reach r

abbrev pub ahead : Option (LogEntry × ApplyResult) → ℕ
ahead none = 0
ahead (some x) = 1

module _ {S M : Type 0} where
  -- The index up to which the machine has run the commands.
  abbrev pub run_to : Served S M → ℕ
  run_to s = ahead s.applying + s.node.last_applied

  -- What is being applied is the committed entry behind the last applied one.
  abbrev IsNext : Node S M → Option (LogEntry × ApplyResult) → Type 0
  IsNext n o =
      (e : LogEntry) (result : ApplyResult)
      → o ≡ some (e, result)
      → (e.index ≡ suc n.last_applied)
        × (e.index ≤ n.commit_index)
        × (entry_at n.snapshot n.log e.index ≡ some e)

  abbrev pub IsServing : Served S M → Type 0
  IsServing s = record { valid : IsValid s.node; next : IsNext s.node s.applying }

  -- The next entry that is found is committed and behind the last applied one.
  pub ready-IsNext :
      (n : Node S M) (e : LogEntry)
      → IsValid n
      → next_ready n ≡ entry e
      → (e.index ≡ suc n.last_applied)
        × (suc n.last_applied ≤ n.commit_index)
        × (entry_at n.snapshot n.log (suc n.last_applied) ≡ some e)
  unfolding next_ready
  ready-IsNext n e v h =
      let P : Ready → Type 0 = λ r.
        r ≡ entry e
        → (e.index ≡ suc n.last_applied)
          × (suc n.last_applied ≤ n.commit_index)
          × (entry_at n.snapshot n.log (suc n.last_applied) ≡ some e) in
      (if-cases P (leb n.commit_index n.last_applied) _ _ (λ _ k. absurd (cc))
          λ busy.
            if-cases P (leb (inc64 n.last_applied) n.snapshot.last_included_index) _ _
              (λ _ k. absurd (cc))
              (λ _. go (ground arith) (entry_at n.snapshot n.log (inc64 n.last_applied)) refl))
        h
    where
      go :
          n.last_applied < n.commit_index
          → (o : Option LogEntry) → entry_at n.snapshot n.log (inc64 n.last_applied) ≡ o
          → (let r : Ready = elim o [ none ↦ idle | some e ↦ entry e ] in
              r ≡ entry e
              → (e.index ≡ suc n.last_applied)
                × (suc n.last_applied ≤ n.commit_index)
                × (entry_at n.snapshot n.log (suc n.last_applied) ≡ some e))
      go busy none found k = absurd (cc)
      go busy (some x) found k =
          let wide = inc64_exact n.last_applied (omega (arith, v.committed, v.bounded)) in
          let exact : inc64 n.last_applied ≡ suc n.last_applied = omega (arith, wide) in
          let same : x ≡ e = cc in
          let there : entry_at n.snapshot n.log (suc n.last_applied) ≡ some e =
            ap (λ i. entry_at n.snapshot n.log i) (sym exact) ∙ found ∙ ap (λ y. some y) same in
          (entry_at-index n.snapshot n.log (suc n.last_applied) there, busy, there)

  -- So it is still there when it is recorded.
  pub IsNext-still :
      (n : Node S M) (e : LogEntry)
      → IsValid n
      → (e.index ≡ suc n.last_applied)
        × (e.index ≤ n.commit_index)
        × (entry_at n.snapshot n.log e.index ≡ some e)
      → still_next e n ≡ true
  unfolding still_next
  IsNext-still n e v (at_next, within, there) =
      let wide = inc64_exact n.last_applied (omega (arith, v.committed, v.bounded)) in
      ground (arith, there, at_next, within, wide)

  -- It stays the next one while others leave the last applied index alone.
  pub IsNext-stays :
      (n m : Node S M) (o : Option (LogEntry × ApplyResult))
      → IsValid m
      → Advances n m
      → m.last_applied ≡ n.last_applied
      → IsNext n o
      → IsNext m o
  IsNext-stays n m o v a same h e result k =
      let (at_next, within, there) = h e result k in
      (
        omega (arith, same, at_next),
        omega (arith, within, a.commits),
        a.entries e.index within (omega (arith, v.covered, same, at_next)) ∙ there,
      )
