-- ===== src/Raft/Examples/Restart.antt =====
-- The start of a node of internal/raft/node.go from a disk, and a vote before a crash.
use go_raft_kv.Prelude.{◌≡◌, refl, ap, subst, none, some, [], ◌∷◌, arith}
use go_raft_kv.Prelude.Dict.{get}
use go_raft_kv.Server.StateMachine.{KvStateMachine, new_kv_state_machine}
use go_raft_kv.Raft.Examples.{Disk, disk_store, kv, no_snapshot, timer, node, vote_request}
use go_raft_kv.Storage.Wal.{missing, read_wal}
use go_raft_kv.Storage.Store.{
  Files, absent, holds, replaced, appended, zero_hard_state, zero_snapshot,
}
use go_raft_kv.Storage.Examples.{Token, token_codec}
use go_raft_kv.Raft.FileStore.{Outcomes, file_store, file_store-Loads}
use go_raft_kv.Raft.Log.{last_index, last_term}
use go_raft_kv.Raft.Node.{Node}
use go_raft_kv.Raft.Vote.{handle_request_vote}
use go_raft_kv.Raft.Recover.{Config, new_node}
use go_raft_kv.Raft.Progress.{IsValid}
use go_raft_kv.Raft.Guarantees.Recover.{Rebuilt, RebuildsOrFails, new_node_lem}
use go_raft_kv.Raft.Guarantees.Restart.{Loads, Remembers, vote_durable}

abbrev config : Config
config = record {
  id = "a";
  address = "a:1";
  peers = ("a", "a:1") ∷ ("b", "b:1") ∷ ("c", "c:1") ∷ [];
  client_addresses = [];
  election_timeout_min = 150;
  election_timeout_max = 300;
  snapshot_threshold = 100;
  snapshot_chunk_bytes = 16;
}

new_node_lem_example :
    RebuildsOrFails disk_store kv node.store node.store.hard node.log no_snapshot
      new_kv_state_machine
      (new_node disk_store kv timer config node.store new_kv_state_machine)
unfolding last_index
new_node_lem_example =
    new_node_lem disk_store kv timer config node.store node.store new_kv_state_machine
      node.store.hard node.log no_snapshot refl (refl, (refl, tt)) (omega arith)

disk_store-Remembers : Remembers disk_store
disk_store-Remembers s s' old hs log snap (x, loaded) saved =
    let written : Disk = record s { hard = hs } in
    subst (λ z. Loads disk_store z hs log snap) (ap (λ r. r.0) saved)
      (written, ap (λ r. (written, none, hs, r.3, r.4)) loaded)

node-IsValid : IsValid node
unfolding last_index
node-IsValid = record {
  contiguous = (refl, (refl, tt));
  covered = omega arith;
  applied = omega arith;
  committed = omega arith;
  bounded = omega arith;
}

abbrev voted : Node Disk KvStateMachine
voted = (handle_request_vote disk_store timer vote_request node).0

vote_durable_example :
    (o : Node Disk KvStateMachine) × (new_node disk_store kv timer config voted.store
        new_kv_state_machine
      ≡ (o.store, (none, some o)))
    × Rebuilt kv
        (record { current_term = 3; voted_for = "b"; commit_index = 1 })
        node.log
        no_snapshot
        new_kv_state_machine
        o
unfolding handle_request_vote get last_term last_index
vote_durable_example =
    vote_durable disk_store kv disk_store-Remembers timer timer config new_kv_state_machine
      vote_request node node.store.hard node-IsValid (node.store, refl) refl

-- The three files before the first start.
abbrev no_files : Files Token
no_files = record { hard_state = absent; wal = missing; snapshot = absent }

abbrev all_written : Outcomes
all_written = record {
  truncate = none;
  rewrite = replaced;
  hard_state = replaced;
  log = replaced;
  snapshot = replaced;
  append = appended;
}

file_store-Loads_example :
    Loads
      (file_store token_codec all_written)
      (record no_files { hard_state = holds node.store.hard })
      node.store.hard
      []
      zero_snapshot
unfolding file_store read_wal
file_store-Loads_example =
    file_store-Loads token_codec all_written no_files
      (record no_files { hard_state = holds node.store.hard }) zero_hard_state node.store.hard []
      zero_snapshot (no_files, refl) refl
