-- ===== src/Raft/Install.antt =====
-- internal/raft/node.go: `HandleInstallSnapshot`. It releases the lock to decode the last chunk's
-- body, so it is two critical sections with what other threads do in between.
use go_raft_kv.Prelude.{
  ℕ, String, Bool, true, false, not, ◌&&◌, Option, none, some, List, [], ◌++◌, ltb, leb, ◌==◌,
  if◌then◌else◌, str_eq, length,
}
use go_raft_kv.Prelude.Dict.{Dict}
use go_raft_kv.Storage.Types.{LogEntry, Snapshot}
use go_raft_kv.Raft.Types.{
  InstallSnapshotRequest, InstallSnapshotResponse, SnapshotProgress, Error, Store, StateMachine,
  Timer,
}
use go_raft_kv.Raft.Log.{log_after_snapshot}
use go_raft_kv.Raft.Node.{Node, turns_away, fail_storage, notify_apply}
use go_raft_kv.Raft.Persist.{heed_leader, save_hard_state}

-- The answer of the first section, or the body of a snapshot that is complete.
pub data Receipt : Type 0 where
  answer : InstallSnapshotResponse → Receipt
  complete : List ℕ → Receipt

abbrev pub install_response : ℕ → Bool → ℕ → InstallSnapshotResponse
install_response term success received = record {
  term = term;
  success = success;
  bytes_received = received;
}

-- Whether a request belongs to the stream that is in progress.
unfoldable pub same_stream : InstallSnapshotRequest → SnapshotProgress → Bool
same_stream req p =
    str_eq p.leader_id req.leader_id
    && (p.last_included_index == req.last_included_index)
    && (p.last_included_term == req.last_included_term)

abbrev pub new_progress : InstallSnapshotRequest → SnapshotProgress
new_progress req = record {
  leader_id = req.leader_id;
  last_included_index = req.last_included_index;
  last_included_term = req.last_included_term;
  buffer = [];
}

module _ {S M : Type 0} where
  -- The chunk is put behind the buffer if it begins where the buffer ends.
  unfoldable pub extend_progress :
      InstallSnapshotRequest → SnapshotProgress → Node S M → Node S M × Receipt
  extend_progress req p n =
      if not (req.offset == length p.buffer)
      then (
        record n { pending_snapshot = some p },
        answer (install_response n.current_term false (length p.buffer)),
      )
      else (let buffer = p.buffer ++ req.chunk in
          let grown = record n { pending_snapshot = some (record p { buffer = buffer }) } in
          if not req.done
          then (grown, answer (install_response n.current_term true (length buffer)))
          else (grown, complete buffer))

  -- A chunk of another stream starts a new one if it is the first.
  unfoldable pub restart_progress : InstallSnapshotRequest → Node S M → Node S M × Receipt
  unfolding extend_progress
  restart_progress req n =
      if not (req.offset == 0)
      then (n, answer (install_response n.current_term false 0))
      else extend_progress req (new_progress req) n

  unfoldable pub receive_chunk : InstallSnapshotRequest → Node S M → Node S M × Receipt
  unfolding restart_progress same_stream
  receive_chunk req n = elim n.pending_snapshot [
    | none ↦ restart_progress req n
    | some p ↦ if same_stream req p then extend_progress req p n else restart_progress req n
  ]

  -- A snapshot that is not beyond the commit index is acknowledged and dropped.
  unfoldable pub receive_current : InstallSnapshotRequest → Node S M → Node S M × Receipt
  unfolding receive_chunk
  receive_current req n =
      if leb req.last_included_index n.commit_index
      then (record n { pending_snapshot = none }, answer (install_response n.current_term true 0))
      else receive_chunk req n

module _ {S M : Type 0} (st : Store S) where
  unfoldable pub receive_as_follower :
      InstallSnapshotRequest → Node S M × Option Error → Node S M × Receipt
  unfolding receive_current
  receive_as_follower req (n, some e) =
      (record n { pending_snapshot = none }, answer (install_response n.current_term false 0))
  receive_as_follower req (n, none) = receive_current req n

  -- The first critical section.
  unfoldable pub receive_snapshot : Timer → InstallSnapshotRequest → Node S M → Node S M × Receipt
  unfolding turns_away heed_leader receive_as_follower
  receive_snapshot t req n =
      if turns_away n req.leader_id req.term
      then (n, answer (install_response n.current_term false 0))
      else receive_as_follower req (heed_leader st t req.term req.leader_id n)

module _ {S M : Type 0} where
  abbrev pub drop_snapshot : Bool → Node S M → Node S M × InstallSnapshotResponse
  drop_snapshot success n =
      (record n { pending_snapshot = none }, install_response n.current_term success 0)

  unfoldable pub fail_install : Timer → Error → Node S M → Node S M × InstallSnapshotResponse
  unfolding fail_storage
  fail_install t e n =
      let failed = fail_storage t e (record n { pending_snapshot = none }) in
      (failed, install_response failed.current_term false 0)

  -- Whether the stream is still the one whose body was decoded.
  unfoldable pub still_pending : InstallSnapshotRequest → ℕ → Node S M → Bool
  unfolding same_stream
  still_pending req size n = elim n.pending_snapshot [
    | none ↦ false
    | some p ↦ same_stream req p && (length p.buffer == size)
  ]

module _ {S M : Type 0} (sm : StateMachine M) where
  -- The change of memory, once all is on disk.
  unfoldable pub installed : Snapshot → List LogEntry → ℕ → Node S M → Node S M
  unfolding notify_apply
  installed snap log commit n = notify_apply (record n {
    snapshot = snap;
    log = log;
    commit_index = commit;
    last_applied =
        if ltb n.last_applied snap.last_included_index
        then snap.last_included_index
        else n.last_applied;
    machine = sm.restore n.machine snap.contents;
    pending_snapshot = none;
  })

module _ {S M : Type 0} (st : Store S) (sm : StateMachine M) where
  -- The writes of the second section, disk first, and then the change of the node.
  unfoldable pub adopt_snapshot :
      Timer → Snapshot → ℕ → Node S M → Node S M × InstallSnapshotResponse
  unfolding log_after_snapshot save_hard_state fail_install installed
  adopt_snapshot t snap size n =
      let log = log_after_snapshot n.snapshot n.log snap in
      let commit =
        if ltb n.commit_index snap.last_included_index
        then snap.last_included_index
        else n.commit_index in
      let (s₁, err₁) = st.save_snapshot n.store snap in
      elim err₁ [
        | some e ↦ fail_install t e (record n { store = s₁ })
        | none ↦
            let (s₂, err₂) = st.replace_entries s₁ log in
            elim err₂ [
              | some e ↦ fail_install t e (record n { store = s₂ })
              | none ↦
                  let (saved, err₃) = save_hard_state st (record n { store = s₂ }) commit in
                  elim err₃ [
                    | some e ↦ fail_install t e saved
                    | none ↦
                        let ready = installed sm snap log commit saved in
                        (ready, install_response ready.current_term true size)
                  ]
            ]
      ]

  unfoldable pub install_current :
      Timer
      → InstallSnapshotRequest
      → Option (Dict String)
      → ℕ
      → Node S M
      → Node S M × InstallSnapshotResponse
  unfolding adopt_snapshot still_pending
  install_current t req contents size n =
      if leb req.last_included_index n.commit_index
      then drop_snapshot true n
      else if not (still_pending req size n)
      then (n, install_response n.current_term false 0)
      else adopt_snapshot t
          (record {
            last_included_index = req.last_included_index;
            last_included_term = req.last_included_term;
            contents = contents;
          })
          size n

  unfoldable pub install_as_follower :
      Timer
      → InstallSnapshotRequest
      → Option (Dict String)
      → ℕ
      → Node S M × Option Error
      → Node S M × InstallSnapshotResponse
  unfolding install_current
  install_as_follower t req contents size (n, some e) = drop_snapshot false n
  install_as_follower t req contents size (n, none) = install_current t req contents size n

  -- The second critical section.
  unfoldable pub install_snapshot :
      Timer
      → InstallSnapshotRequest
      → Option (Dict String)
      → ℕ
      → Node S M
      → Node S M × InstallSnapshotResponse
  unfolding turns_away heed_leader install_as_follower
  install_snapshot t req contents size n =
      if turns_away n req.leader_id req.term
      then drop_snapshot false n
      else install_as_follower t req contents size (heed_leader st t req.term req.leader_id n)

  -- The handler. `decode` is `json.Unmarshal`: `none` is its error, and `some none` a null map. An
  -- empty body is not decoded. `other` is what other threads do while the body is decoded.
  unfoldable pub handle_install_snapshot :
      (List ℕ → Option (Option (Dict String)))
      → (Node S M → Node S M)
      → Timer
      → InstallSnapshotRequest
      → Node S M
      → Node S M × InstallSnapshotResponse
  unfolding receive_snapshot install_snapshot
  handle_install_snapshot decode other t req n =
      let (received, receipt) = receive_snapshot st t req n in
      elim receipt [
        | answer r ↦ (received, r)
        | complete body ↦
            let contents = if length body == 0 then some none else decode body in
            let ready = other received in
            elim contents [
              | none ↦ drop_snapshot false ready
              | some d ↦ install_snapshot t req d (length body) ready
            ]
      ]
