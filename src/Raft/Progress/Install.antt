-- ===== src/Raft/Progress/Install.antt =====
-- `HandleInstallSnapshot` of internal/raft/node.go keeps the node valid.
use go_raft_kv.Prelude.{
  ℕ, ◌<◌, ◌≡◌, true, false, not, arith, Option, none, some, List, if◌then◌else◌, ltb, leb, ◌==◌,
  if-cases, length, String,
}
use go_raft_kv.Prelude.Word.{u64_mod}
use go_raft_kv.Prelude.Dict.{Dict}
use go_raft_kv.Storage.Types.{LogEntry, Snapshot}
use go_raft_kv.Raft.Types.{
  InstallSnapshotRequest, InstallSnapshotResponse, Error, Store, StateMachine, Timer,
}
use go_raft_kv.Raft.Log.{log_after_snapshot}
use go_raft_kv.Raft.Node.{Node, turns_away}
use go_raft_kv.Raft.Persist.{save_hard_state}
use go_raft_kv.Raft.Install.{
  Receipt, answer, complete, install_response, receive_snapshot, fail_install, installed,
  drop_snapshot, still_pending, adopt_snapshot, install_current, install_as_follower,
  install_snapshot, handle_install_snapshot,
}
use go_raft_kv.Raft.Progress.{IsValid, Advances, Keeps, Keeps-refl, Keeps-trans}
use go_raft_kv.Raft.Progress.Heed.{heed_cases}
use go_raft_kv.Raft.Progress.Frames.{
  Frame, Frame-refl, Frame-trans, Frame-Keeps, save_cases, fail_storage-Frame,
}
use go_raft_kv.Raft.Progress.Installed.{installed-Keeps}
use go_raft_kv.Raft.Progress.Receive.{receive_snapshot-Frame}

module _ {S M : Type 0} (st : Store S) (sm : StateMachine M) (t : Timer) where
  fail_install-Frame : (e : Error) (n : Node S M) → Frame n (fail_install t e n).0
  unfolding fail_install
  fail_install-Frame e n = fail_storage-Frame t e (record n { pending_snapshot = none })

  adopt_snapshot-Keeps :
      (snap : Snapshot) (size : ℕ) (n : Node S M)
      → n.commit_index < snap.last_included_index
      → snap.last_included_index < u64_mod
      → Keeps n (adopt_snapshot st sm t snap size n).0
  unfolding adopt_snapshot
  adopt_snapshot-Keeps snap size n beyond fits = saved (st.save_snapshot n.store snap)
    where
      commit : ℕ
      commit =
          if ltb n.commit_index snap.last_included_index
          then snap.last_included_index
          else n.commit_index

      raised : commit ≡ snap.last_included_index
      raised = ground arith

      failed : (e : Error) (m : Node S M) → Frame n m → Keeps n (fail_install t e m).0
      failed e m f =
          Frame-Keeps n (fail_install t e m).0
            (Frame-trans n m (fail_install t e m).0 f (fail_install-Frame e m))

      log : List LogEntry
      log = log_after_snapshot n.snapshot n.log snap

      hard : Node S M × Option Error → Node S M × InstallSnapshotResponse
      hard r = elim r.1 [
        | some e ↦ fail_install t e r.0
        | none ↦
            let ready = installed sm snap log commit r.0 in
            (ready, install_response ready.current_term true size)
      ]

      replaced :
          (r : S × Option Error)
          → Keeps n (
              let x : Node S M × InstallSnapshotResponse = elim r.1 [
                | some e ↦ fail_install t e (record n { store = r.0 })
                | none ↦ hard (save_hard_state st (record n { store = r.0 }) commit)
              ] in
              x.0)
      replaced (s, some e) = failed e (record n { store = s }) (Frame-refl n)
      replaced (s, none) =
          save_cases st (λ r. Keeps n (hard r).0) (record n { store = s }) commit
            (λ s' _.
              installed-Keeps sm snap commit n (record n { store = s' }) (Frame-refl n) raised
                beyond fits)
            (λ s' e _. failed e (record n { store = s'; last_err = some e }) (Frame-refl n))

      saved :
          (r : S × Option Error)
          → Keeps n (
              let x : Node S M × InstallSnapshotResponse = elim r.1 [
                | some e ↦ fail_install t e (record n { store = r.0 })
                | none ↦
                    let (s, err) = st.replace_entries r.0 log in
                    elim err [
                      | some e ↦ fail_install t e (record n { store = s })
                      | none ↦ hard (save_hard_state st (record n { store = s }) commit)
                    ]
              ] in
              x.0)
      saved (s, some e) = failed e (record n { store = s }) (Frame-refl n)
      saved (s, none) = replaced (st.replace_entries s log)

  install_current-Keeps :
      (req : InstallSnapshotRequest) (contents : Option (Dict String)) (size : ℕ) (n : Node S M)
      → req.last_included_index < u64_mod
      → Keeps n (install_current st sm t req contents size n).0
  unfolding install_current
  install_current-Keeps req contents size n fits =
      let P : Node S M × InstallSnapshotResponse → Type 0 = λ r. Keeps n r.0 in
      if-cases P (leb req.last_included_index n.commit_index) _ _ (λ _. Keeps-refl n)
        λ beyond.
          if-cases P (not (still_pending req size n)) _ _ (λ _. Keeps-refl n)
            (λ _. adopt_snapshot-Keeps _ size n (ground arith) fits)

  pub install_snapshot-Keeps :
      (req : InstallSnapshotRequest) (contents : Option (Dict String)) (size : ℕ) (n : Node S M)
      → req.last_included_index < u64_mod
      → Keeps n (install_snapshot st sm t req contents size n).0
  unfolding install_snapshot
  install_snapshot-Keeps req contents size n fits =
      if-cases (λ (r : Node S M × InstallSnapshotResponse). Keeps n r.0)
        (turns_away n req.leader_id req.term) _ _ (λ _. Keeps-refl n)
        (λ _.
          heed_cases st (λ r. Keeps n (install_as_follower st sm t req contents size r).0) t
            req.term req.leader_id n
            (λ m f _.
              Keeps-trans n m (install_current st sm t req contents size m).0 (Frame-Keeps n m f)
                (install_current-Keeps req contents size m fits))
            (λ m e f. Frame-Keeps n m f))

  -- An InstallSnapshot request with a uint64 index leaves a valid node valid on every branch, if what
  -- other threads do while the body is decoded keeps a node valid and goes back on nothing: no term or
  -- index of the node falls, a vote is kept within its term, and committed entries stay until the
  -- snapshot covers them.
  pub handle_install_snapshot-Keeps :
      (decode : List ℕ → Option (Option (Dict String))) (other : Node S M → Node S M)
      (req : InstallSnapshotRequest) (n : Node S M)
      → ((m : Node S M) → Keeps m (other m))
      → req.last_included_index < u64_mod
      → IsValid n
      → IsValid (handle_install_snapshot st sm decode other t req n).0
        × Advances n (handle_install_snapshot st sm decode other t req n).0
  unfolding handle_install_snapshot
  handle_install_snapshot-Keeps decode other req n k fits = receipt (receive_snapshot st t req n).1
    where
      received : Node S M
      received = (receive_snapshot st t req n).0

      first : Keeps n received
      first = Frame-Keeps n received (receive_snapshot-Frame req st t n)

      decoded :
          (size : ℕ) (o : Option (Option (Dict String)))
          → Keeps n (
              let x : Node S M × InstallSnapshotResponse = elim o [
                | none ↦ drop_snapshot false (other received)
                | some d ↦ install_snapshot st sm t req d size (other received)
              ] in
              x.0)
      decoded size none = Keeps-trans n received (other received) first (k received)
      decoded size (some d) =
          let m = other received in
          let done = (install_snapshot st sm t req d size m).0 in
          Keeps-trans n received done first
            (Keeps-trans received m done (k received) (install_snapshot-Keeps req d size m fits))

      receipt :
          (r : Receipt)
          → Keeps n (
              let x : Node S M × InstallSnapshotResponse = elim r [
                | answer a ↦ (received, a)
                | complete body ↦
                    let contents = if length body == 0 then some none else decode body in
                    elim contents [
                      | none ↦ drop_snapshot false (other received)
                      | some d ↦ install_snapshot st sm t req d (length body) (other received)
                    ]
              ] in
              x.0)
      receipt (answer a) = first
      receipt (complete body) =
          decoded (length body) (if length body == 0 then some none else decode body)
