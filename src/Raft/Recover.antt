-- ===== src/Raft/Recover.antt =====
-- internal/raft/node.go: the part of `NewNode` that rebuilds a node from its store. The addresses and
-- the timeouts are those of a configuration that was normalised and validated.
use go_raft_kv.Prelude.{
  ℕ, String, false, not, Option, none, some, List, [], ◌∷◌, ltb, ◌==◌, if◌then◌else◌, keep, str_eq,
}
use go_raft_kv.Prelude.Dict
use go_raft_kv.Prelude.Dict.{Dict}
use go_raft_kv.Storage.Types.{LogEntry, HardState, Snapshot}
use go_raft_kv.Raft.Types.{follower, Error, Store, StateMachine, Timer}
use go_raft_kv.Raft.Log.{last_index}
use go_raft_kv.Raft.Node.{Node, or_empty, reset_election}
use go_raft_kv.Raft.Persist.{persist_hard_state}

-- The heartbeat interval and the read timeout are left out: no operation of the model reads them.
pub record Config : Type 0 where
  pub id : String
  pub address : String
  pub peers : Dict String
  pub client_addresses : Dict String
  pub election_timeout_min : ℕ
  pub election_timeout_max : ℕ
  pub snapshot_threshold : ℕ
  pub snapshot_chunk_bytes : ℕ

-- The commit index that is kept: not below the snapshot, and not beyond the log.
unfoldable pub clamp_commit : ℕ → Snapshot → List LogEntry → ℕ
clamp_commit commit snap log =
    let raised = if ltb commit snap.last_included_index then snap.last_included_index else commit in
    let last = last_index snap log in if ltb last raised then last else raised

module _ {M : Type 0} (sm : StateMachine M) where
  -- `for _, entry := range entries { if entry.Index > commitIndex { break } … }`
  unfoldable pub replay : ℕ → List LogEntry → M × ℕ → M × ℕ
  replay commit [] s = s
  replay commit (e ∷ log) (machine, applied) =
      let rest = replay commit log ((sm.apply machine e.command).0, e.index) in
      if ltb commit e.index then (machine, applied) else rest

  unfoldable pub restore_snapshot : M → Snapshot → M
  restore_snapshot machine snap = elim snap.contents [
    | none ↦ machine
    | some d ↦ sm.restore machine (some d)
  ]

abbrev pub other_peers : Config → Dict String
other_peers cfg = keep (λ (p : String × String). not (str_eq p.0 cfg.id)) cfg.peers

abbrev pub client_addrs : Config → Dict String
client_addrs cfg =
    if str_eq (or_empty (Dict.get cfg.client_addresses cfg.id)) ""
    then Dict.put cfg.client_addresses cfg.id cfg.address
    else cfg.client_addresses

module _ {S M : Type 0} (sm : StateMachine M) where
  -- The node in memory; the state machine `machine` is fresh.
  unfoldable pub rebuild : Timer → Config → S → HardState → List LogEntry → Snapshot → M → Node S M
  unfolding clamp_commit replay restore_snapshot reset_election
  rebuild t cfg store hs log snap machine =
      let commit = clamp_commit hs.commit_index snap log in
      let (applied_machine, applied) =
        replay sm commit log (restore_snapshot sm machine snap, snap.last_included_index) in
      reset_election t (record {
        id = cfg.id;
        address = cfg.address;
        peer_addrs = other_peers cfg;
        client_addrs = client_addrs cfg;
        store = store;
        machine = applied_machine;
        role = follower;
        current_term = hs.current_term;
        voted_for = hs.voted_for;
        leader_id = "";
        log = log;
        snapshot = snap;
        commit_index = commit;
        last_applied = applied;
        leader_noop_index = 0;
        next_index = λ _. 0;
        match_index = λ _. 0;
        replicating = λ _. false;
        election_due = 0;
        timeout_min = cfg.election_timeout_min;
        timeout_max = cfg.election_timeout_max;
        snapshot_every = cfg.snapshot_threshold;
        snapshot_chunk_bytes = cfg.snapshot_chunk_bytes;
        waiters = [];
        next_waiter = 0;
        delivered = [];
        pending_snapshot = none;
        last_err = none;
        storage_fatal = none;
        stopped = false;
        apply_ch = false;
        replicate_ch = false;
      })

module _ {S M : Type 0} (st : Store S) where
  -- A commit index that was changed is saved before the node is returned.
  unfoldable pub save_rebuilt : HardState → Node S M → S × (Option Error × Option (Node S M))
  unfolding persist_hard_state
  save_rebuilt hs n =
      if hs.commit_index == n.commit_index
      then (n.store, (none, some n))
      else (let (saved, err) = persist_hard_state st n in
          elim err [
            | some e ↦ (saved.store, (some e, none))
            | none ↦ (saved.store, (none, some saved))
          ])

module _ {S M : Type 0} (st : Store S) (sm : StateMachine M) where
  -- What follows the load of the store.
  unfoldable pub from_loaded :
      Timer
      → Config
      → M
      → S × Option Error × HardState × List LogEntry × Snapshot
      → S × (Option Error × Option (Node S M))
  unfolding rebuild save_rebuilt
  from_loaded t cfg machine (s, some e, hs, log, snap) = (s, (some e, none))
  from_loaded t cfg machine (s, none, hs, log, snap) =
      save_rebuilt st hs (rebuild sm t cfg s hs log snap machine)

  unfoldable pub new_node : Timer → Config → S → M → S × (Option Error × Option (Node S M))
  unfolding from_loaded
  new_node t cfg store machine = from_loaded t cfg machine (st.load store)
