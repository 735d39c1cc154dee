-- ===== src/Raft/Progress/Installed.antt =====
-- The last step of `HandleInstallSnapshot` of internal/raft/node.go: the snapshot takes its place.
use go_raft_kv.Prelude.{
  ℕ, ◌≤◌, ◌<◌, ◌≡◌, refl, arith, Option, none, some, List, [], if◌then◌else◌, ltb, ◌==◌, if-cases,
  keep,
}
use go_raft_kv.Prelude.Word.{u64_mod}
use go_raft_kv.Storage.Types.{LogEntry, Snapshot}
use go_raft_kv.Raft.Types.{StateMachine}
use go_raft_kv.Raft.Log.{last_index, term_at, log_after_snapshot}
use go_raft_kv.Raft.Log.Contiguous.{Contiguous, term_at_inside, last_index-Contiguous}
use go_raft_kv.Raft.Log.Suffix.{behind-Contiguous, last_index-behind}
use go_raft_kv.Raft.Node.{Node}
use go_raft_kv.Raft.Install.{installed}
use go_raft_kv.Raft.Progress.{Keeps}
use go_raft_kv.Raft.Progress.Frames.{Frame}

-- The log that a snapshot beyond the commit index leaves.
log_after_snapshot_lem :
    (snap : Snapshot) (log : List LogEntry) (new : Snapshot)
    → Contiguous snap.last_included_index log
    → snap.last_included_index ≤ new.last_included_index
    → last_index snap log < u64_mod
    → new.last_included_index < u64_mod
    → Contiguous new.last_included_index (log_after_snapshot snap log new)
      × (new.last_included_index ≤ last_index new (log_after_snapshot snap log new))
      × (last_index new (log_after_snapshot snap log new) < u64_mod)
unfolding log_after_snapshot
log_after_snapshot_lem snap log new c up small fits =
    go (term_at snap log new.last_included_index) refl
  where
    Good : List LogEntry → Type 0
    Good l =
        Contiguous new.last_included_index l
        × (new.last_included_index ≤ last_index new l)
        × (last_index new l < u64_mod)

    nothing : Good []
    nothing = let e = last_index-Contiguous new [] tt in (tt, omega arith, omega arith)

    go :
        (o : Option ℕ)
        → term_at snap log new.last_included_index ≡ o
        → Good (elim o [
          | none ↦ []
          | some t ↦
              if t == new.last_included_term
              then keep (λ (e : LogEntry). ltb new.last_included_index e.index) log
              else []
        ])
    go none h = nothing
    go (some t) h =
        let top = term_at_inside snap log new.last_included_index c h in
        if-cases Good (t == new.last_included_term) _ _
          (λ _. (
            behind-Contiguous snap new log c up top,
            omega (arith, last_index-behind snap new log c up top),
            omega (arith, last_index-behind snap new log c up top),
          ))
          (λ _. nothing)

module _ {S M : Type 0} (sm : StateMachine M) where
  -- The state that is adopted once the snapshot, the log and the hard state are on disk.
  pub installed-Keeps :
      (snap : Snapshot) (commit : ℕ) (n m : Node S M)
      → Frame n m
      → commit ≡ snap.last_included_index
      → n.commit_index < snap.last_included_index
      → snap.last_included_index < u64_mod
      → Keeps n (installed sm snap (log_after_snapshot n.snapshot n.log snap) commit m)
  unfolding installed
  installed-Keeps snap commit n m f at beyond fits v =
      let (c, top, small) =
        log_after_snapshot_lem n.snapshot n.log snap v.contiguous
          (omega (arith, v.covered, v.applied)) v.bounded fits in
      let applied : (if ltb m.last_applied snap.last_included_index
            then snap.last_included_index
            else m.last_applied)
          ≡ snap.last_included_index =
        ground (arith, f.0.last_applied, v.applied) in
      (
        record {
          contiguous = c;
          covered = omega arith;
          applied = omega arith;
          committed = omega (arith, top);
          bounded = small;
        },
        record {
          terms = f.1.terms;
          votes = f.1.votes;
          snapshots = omega (arith, v.covered, v.applied);
          commits = omega arith;
          applies = omega (arith, v.applied);
          entries = λ i h above. absurd (omega arith);
        },
      )
