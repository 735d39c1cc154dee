-- ===== src/Raft/Examples.antt =====
-- A node of internal/raft/node.go in a cluster of three, on a disk that is a value, with the machine
-- of internal/server/state_machine.go; the requests that it is sent.
pub mod Handlers
pub mod Merging
pub mod Restart
pub mod Reading
pub mod Running
pub mod Voting
use go_raft_kv.Prelude.{ℕ, ◌≡◌, refl, String, true, false, Option, none, some, List, [], ◌∷◌, ◌++◌}
use go_raft_kv.Prelude.Dict.{Dict}
use go_raft_kv.Storage.Types.{op_put, op_cas, op_noop, Command, LogEntry, HardState, Snapshot}
use go_raft_kv.Server.StateMachine.{
  KvStateMachine, new_kv_state_machine, apply as kv_apply, snapshot as kv_snapshot,
  restore as kv_restore, get as kv_get,
}
use go_raft_kv.Raft.Types.{
  follower, leader, RequestVoteRequest, AppendEntriesRequest, InstallSnapshotRequest, Store,
  StateMachine, Timer,
}
use go_raft_kv.Raft.Node.{Node}

pub record Disk : Type 0 where
  pub hard : HardState
  pub log : List LogEntry
  pub snap : Snapshot

abbrev pub disk_store : Store Disk
disk_store = record {
  load = λ d. (d, none, d.hard, d.log, d.snap);
  save_hard_state = λ d h. (record d { hard = h }, none);
  append_entries = λ d es. (record d { log = d.log ++ es }, none);
  replace_entries = λ d es. (record d { log = es }, none);
  save_snapshot = λ d s. (record d { snap = s }, none);
}

abbrev pub kv : StateMachine KvStateMachine
kv = record {
  apply = kv_apply;
  snapshot = kv_snapshot;
  restore = λ m d. kv_restore d;
  read_value = kv_get;
}

abbrev pub command : String → Command
command v = record { op = op_put; key = "x"; value = v; expected = "" }

abbrev pub e1 : LogEntry
e1 = record { index = 1; term = 1; command = command "one" }

abbrev pub e2 : LogEntry
e2 = record { index = 2; term = 2; command = command "two" }

abbrev pub e3 : LogEntry
e3 = record { index = 3; term = 3; command = command "three" }

abbrev pub no_snapshot : Snapshot
no_snapshot = record { last_included_index = 0; last_included_term = 0; contents = none }

abbrev pub timer : Timer
timer = record { now = 100; draw = λ n. 0 }

abbrev pub node : Node Disk KvStateMachine
node = record {
  id = "a";
  address = "a:1";
  peer_addrs = ("b", "b:1") ∷ ("c", "c:1") ∷ [];
  client_addrs = [];
  store = record {
    hard = record { current_term = 2; voted_for = ""; commit_index = 1 };
    log = e1 ∷ e2 ∷ [];
    snap = no_snapshot;
  };
  machine = new_kv_state_machine;
  role = follower;
  current_term = 2;
  voted_for = "";
  leader_id = "";
  log = e1 ∷ e2 ∷ [];
  snapshot = no_snapshot;
  commit_index = 1;
  last_applied = 0;
  leader_noop_index = 0;
  next_index = λ _. 1;
  match_index = λ _. 0;
  replicating = λ _. false;
  election_due = 0;
  timeout_min = 150;
  timeout_max = 300;
  snapshot_every = 100;
  snapshot_chunk_bytes = 16;
  waiters = [];
  next_waiter = 0;
  delivered = [];
  pending_snapshot = none;
  last_err = none;
  storage_fatal = none;
  stopped = false;
  apply_ch = false;
  replicate_ch = false;
}

abbrev pub vote_request : RequestVoteRequest
vote_request = record { term = 3; candidate_id = "b"; last_log_index = 2; last_log_term = 2 }

abbrev pub append_request : AppendEntriesRequest
append_request = record {
  term = 3;
  leader_id = "c";
  prev_log_index = 1;
  prev_log_term = 1;
  entries = record e2 { term = 3 } ∷ e3 ∷ [];
  leader_commit = 3;
}

abbrev pub snapshot_request : InstallSnapshotRequest
snapshot_request = record {
  term = 3;
  leader_id = "c";
  last_included_index = 5;
  last_included_term = 3;
  offset = 0;
  chunk = 1 ∷ 2 ∷ [];
  done = true;
}
