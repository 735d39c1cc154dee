-- ===== src/Raft/Guarantees/Recover.antt =====
-- The node that `NewNode` (internal/raft/node.go) rebuilds from what the store holds.
use go_raft_kv.Prelude.{
  ℕ, suc, ◌+◌, ◌-◌, ◌≤◌, ◌<◌, ◌≡◌, ◌≢◌, ◌⊎◌, inl, inr, refl, sym, ap, ◌∙◌, subst, arith, Option,
  none, some, List, [], ◌∷◌, ltb, if-cases, ◌==◌, length, get_elem?, min, max,
}
use go_raft_kv.Prelude.Word.{u64_mod}
use go_raft_kv.Storage.Types.{LogEntry, HardState, Snapshot}
use go_raft_kv.Raft.Types.{follower, Error, Store, StateMachine, Timer}
use go_raft_kv.Raft.Log.{last_index, entry_at}
use go_raft_kv.Raft.Log.Contiguous.{Contiguous, entry_at-Contiguous, last_index-Contiguous}
use go_raft_kv.Raft.Node.{Node, reset_election}
use go_raft_kv.Raft.Persist.{persist_hard_state}
use go_raft_kv.Raft.Recover.{
  Config, clamp_commit, replay, restore_snapshot, rebuild, save_rebuilt, from_loaded, new_node,
}
use go_raft_kv.Raft.Progress.{IsValid}
use go_raft_kv.Raft.Progress.Frames.{save_cases}
use go_raft_kv.Raft.Guarantees.Replay.{replay_entries, replay_entries_step}

module _ {M : Type 0} (sm : StateMachine M) (snap : Snapshot) (log : List LogEntry)
    (commit : ℕ) where
  abbrev Replayed : ℕ → M → M × ℕ → Type 0
  Replayed a m r = r ≡ (replay_entries sm snap log m a (commit - a), commit)

  replay_none : (a : ℕ) (m : M) → commit ≡ a → Replayed a m (m, a)
  unfolding replay_entries
  replay_none a m h = let none_left : commit - a ≡ 0 = omega arith in rw (none_left, h) refl

  -- `rest` is what stands in the log behind index `a`.
  replay_lem :
      (a : ℕ) (rest : List LogEntry) (m : M)
      → Contiguous a rest
      → a ≤ commit
      → commit ≤ a + length rest
      → ((j : ℕ) → entry_at snap log (a + suc j) ≡ get_elem? rest j)
      → Replayed a m (replay sm commit rest (m, a))
  unfolding replay
  replay_lem a [] m c low high at = replay_none a m (omega arith)
  replay_lem a (e ∷ rest) m c low high at =
      if-cases (Replayed a m) (ltb commit e.index) _ _ (λ beyond. replay_none a m (ground arith))
        (λ within.
          let m' = (sm.apply m e.command).0 in
          let ih = replay_lem (suc a) rest m' c.1 (ground arith) (omega arith) (λ j.
            let shift : suc a + suc j ≡ a + suc (suc j) = omega arith in
            ap (λ i. entry_at snap log i) shift ∙ at (suc j)) in
          let here : entry_at snap log (suc a) ≡ some e =
            (let one : suc a ≡ a + suc 0 = omega arith in
              ap (λ i. entry_at snap log i) one ∙ at 0) in
          let more : commit - a ≡ suc (commit - suc a) = ground arith in
          ap (λ i. replay sm commit rest (m', i)) c.0
          ∙ ih
          ∙ rw more (
              ap (λ r. (r, commit))
                (sym (replay_entries_step sm snap log m a (commit - suc a) e here))))

module _ {S M : Type 0} (sm : StateMachine M) (hs : HardState) (log : List LogEntry)
    (snap : Snapshot) (machine : M) where
  -- A node with the term, vote, log and snapshot of the store, whose commit index is within the log
  -- and not below the snapshot, with all committed entries applied behind the snapshot's contents.
  abbrev pub Rebuilt : Node S M → Type 0
  Rebuilt n = record {
    valid : IsValid n;
    follows : n.role ≡ follower;
    term : n.current_term ≡ hs.current_term;
    vote : n.voted_for ≡ hs.voted_for;
    same_snapshot : n.snapshot ≡ snap;
    same_log : n.log ≡ log;
    commits :
        n.commit_index ≡ min (max hs.commit_index snap.last_included_index) (last_index snap log);
    applied : n.last_applied ≡ n.commit_index;
    caught_up :
        n.machine
        ≡ replay_entries sm snap log (restore_snapshot sm machine snap) snap.last_included_index
            (n.commit_index - snap.last_included_index);
  }

pub clamp_commit_lem :
    (commit : ℕ) (snap : Snapshot) (log : List LogEntry)
    → clamp_commit commit snap log ≡ min (max commit snap.last_included_index) (last_index snap log)
unfolding clamp_commit
clamp_commit_lem commit snap log = ground arith

behind_snapshot :
    (snap : Snapshot) (log : List LogEntry)
    → Contiguous snap.last_included_index log
    → (j : ℕ) → entry_at snap log (snap.last_included_index + suc j) ≡ get_elem? log j
behind_snapshot snap log c j =
    let place : snap.last_included_index + suc j - snap.last_included_index - 1 ≡ j = omega arith in
    entry_at-Contiguous snap log (snap.last_included_index + suc j) c (omega arith)
    ∙ ap (λ i. get_elem? log i) place

module _ {S M : Type 0} (st : Store S) (sm : StateMachine M) where
  -- The node that is rebuilt, or the error of the store that did not save the changed commit index.
  abbrev pub RebuildsOrFails :
      S → HardState → List LogEntry → Snapshot → M → S × (Option Error × Option (Node S M)) → Type 0
  RebuildsOrFails s hs log snap machine r =
      ((n : Node S M) × (r ≡ (n.store, (none, some n))) × Rebuilt sm hs log snap machine n)
      ⊎ ((e : Error) × (r.1 ≡ (some e, none))
          × (hs.commit_index ≢ clamp_commit hs.commit_index snap log)
          × (st.save_hard_state s
                (record hs { commit_index = clamp_commit hs.commit_index snap log })
              ≡ (r.0, some e)))

  rebuild_lem :
      (t : Timer) (cfg : Config) (store : S) (hs : HardState) (log : List LogEntry)
      (snap : Snapshot) (machine : M)
      → Contiguous snap.last_included_index log
      → last_index snap log < u64_mod
      → Rebuilt sm hs log snap machine (rebuild sm t cfg store hs log snap machine)
        × ((rebuild sm t cfg store hs log snap machine).commit_index
            ≡ clamp_commit hs.commit_index snap log)
  unfolding rebuild reset_election
  rebuild_lem t cfg store hs log snap machine c small =
      let commit = clamp_commit hs.commit_index snap log in
      let clamped = clamp_commit_lem hs.commit_index snap log in
      let all = last_index-Contiguous snap log c in
      let replayed =
        replay_lem sm snap log commit snap.last_included_index log
          (restore_snapshot sm machine snap) c (omega (arith, clamped, all))
          (omega (arith, clamped, all)) (behind_snapshot snap log c) in
      let applied = ap (λ (r : M × ℕ). r.1) replayed in
      (
        record {
          valid = record {
            contiguous = c;
            covered = omega (arith, applied, clamped, all);
            applied = omega (arith, applied);
            committed = omega (arith, clamped);
            bounded = small;
          };
          follows = refl;
          term = refl;
          vote = refl;
          same_snapshot = refl;
          same_log = refl;
          commits = clamped;
          applied = applied;
          caught_up = ap (λ (r : M × ℕ). r.0) replayed;
        },
        refl,
      )

  -- A store that loads a log that is contiguous above its snapshot, with a last index that is a uint64,
  -- gives a valid follower that has the stored term and vote, the stored commit index brought between
  -- the snapshot and the end of the log, and all entries up to it applied; or the commit index had
  -- to be changed, the save of the hard state with the changed one fails, and that error is returned.
  pub new_node_lem :
      (t : Timer) (cfg : Config) (store s : S) (machine : M) (hs : HardState) (log : List LogEntry)
      (snap : Snapshot)
      → st.load store ≡ (s, none, hs, log, snap)
      → Contiguous snap.last_included_index log
      → last_index snap log < u64_mod
      → RebuildsOrFails s hs log snap machine (new_node st sm t cfg store machine)
  unfolding new_node from_loaded save_rebuilt persist_hard_state
  new_node_lem t cfg store s machine hs log snap loaded c small =
      let n = rebuild sm t cfg s hs log snap machine in
      let (good, clamped) = rebuild_lem t cfg s hs log snap machine c small in
      let P = RebuildsOrFails s hs log snap machine in
      subst (λ r. P (from_loaded st sm t cfg machine r)) (sym loaded)
        (if-cases P (hs.commit_index == n.commit_index) _ _ (λ _. inl (n, refl, good))
          (λ changed.
            save_cases st
              (λ r. P (elim r.1 [
                | some e ↦ (r.0.store, (some e, none))
                | none ↦ (r.0.store, (none, some r.0))
              ]))
              n n.commit_index (λ s' _. inl (record n { store = s' }, refl, good))
              (λ s' e failed. inr (e, refl, (λ same. absurd (ground (arith, clamped))), failed))))
