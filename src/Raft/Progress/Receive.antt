-- ===== src/Raft/Progress/Receive.antt =====
-- The first critical section of `HandleInstallSnapshot` of internal/raft/node.go.
use go_raft_kv.Prelude.{not, Option, none, some, if◌then◌else◌, leb, ◌==◌, if-cases, length}
use go_raft_kv.Raft.Types.{InstallSnapshotRequest, SnapshotProgress, Store, Timer}
use go_raft_kv.Raft.Node.{Node, turns_away}
use go_raft_kv.Raft.Install.{
  Receipt, same_stream, extend_progress, restart_progress, receive_chunk, new_progress,
  receive_current, receive_as_follower, receive_snapshot,
}
use go_raft_kv.Raft.Progress.Heed.{heed_cases}
use go_raft_kv.Raft.Progress.Frames.{Frame, Frame-refl, Frame-trans}

module _ {S M : Type 0} (req : InstallSnapshotRequest) where
  -- The chunks that are received change the pending snapshot alone.
  pub extend_progress-Frame :
      (p : SnapshotProgress) (n : Node S M) → Frame n (extend_progress req p n).0
  unfolding extend_progress
  extend_progress-Frame p n =
      let P : Node S M × Receipt → Type 0 = λ r. Frame n r.0 in
      if-cases P (not (req.offset == length p.buffer)) _ _ (λ _. Frame-refl n)
        λ _. if-cases P (not req.done) _ _ (λ _. Frame-refl n) (λ _. Frame-refl n)

  pub restart_progress-Frame : (n : Node S M) → Frame n (restart_progress req n).0
  unfolding restart_progress
  restart_progress-Frame n =
      if-cases (λ (r : Node S M × Receipt). Frame n r.0) (not (req.offset == 0)) _ _
        (λ _. Frame-refl n) (λ _. extend_progress-Frame (new_progress req) n)

  pub receive_current-Frame : (n : Node S M) → Frame n (receive_current req n).0
  unfolding receive_current receive_chunk
  receive_current-Frame n =
      if-cases (λ (r : Node S M × Receipt). Frame n r.0)
        (leb req.last_included_index n.commit_index) _ _ (λ _. Frame-refl n)
        (λ _. chunk n.pending_snapshot)
    where
      chunk :
          (o : Option SnapshotProgress)
          → Frame n (
              let x : Node S M × Receipt = elim o [
                | none ↦ restart_progress req n
                | some p ↦
                    if same_stream req p then extend_progress req p n else restart_progress req n
              ] in
              x.0)
      chunk none = restart_progress-Frame n
      chunk (some p) =
          if-cases (λ (r : Node S M × Receipt). Frame n r.0) (same_stream req p) _ _
            (λ _. extend_progress-Frame p n) (λ _. restart_progress-Frame n)

  pub receive_snapshot-Frame :
      (st : Store S) (t : Timer) (n : Node S M) → Frame n (receive_snapshot st t req n).0
  unfolding receive_snapshot
  receive_snapshot-Frame st t n =
      if-cases (λ (r : Node S M × Receipt). Frame n r.0) (turns_away n req.leader_id req.term) _ _
        (λ _. Frame-refl n)
        (λ _.
          heed_cases st (λ r. Frame n (receive_as_follower st req r).0) t req.term req.leader_id n
            (λ m f _. Frame-trans n m (receive_current req m).0 f (receive_current-Frame m))
            (λ m e f. f))
