-- ===== src/Raft/Examples/Running.antt =====
-- The theorems on replication runs and on the configuration of internal/raft/node.go at a node that
-- leads and a peer that follows.
use go_raft_kv.Prelude.{ℕ, ◌+◌, ◌≤◌, ◌<◌, ◌≡◌, refl, arith, true, false, none, some, [], ◌∷◌, max}
use go_raft_kv.Prelude.Ints.{pos, negsuc}
use go_raft_kv.Server.StateMachine.{KvStateMachine}
use go_raft_kv.Raft.Types.{leader, Timer}
use go_raft_kv.Raft.Log.{last_index, term_at}
use go_raft_kv.Raft.Replicate.{try_acquire, prepare_round, take_answer}
use go_raft_kv.Raft.Node.{Node, reset_election}
use go_raft_kv.Raft.Progress.{IsValid, Advances, Keeps-refl}
use go_raft_kv.Raft.Rounds.{World, replicate_to_peer_for_read}
use go_raft_kv.Raft.Rounds.Keep.{IsCalm, replicate_to_peer_for_read-Keeps}
use go_raft_kv.Raft.Rounds.Fresh.{Marks, replicate_to_peer_for_read_fresh}
use go_raft_kv.Raft.Configure.{Config, settle, normalize_config}
use go_raft_kv.Raft.Configure.Laws.{settled, normalize_config_bounds, normalize_config_fixed}
use go_raft_kv.Raft.Examples.{Disk, disk_store, timer, node}

abbrev leading : Node Disk KvStateMachine
leading = record node { role = leader }

leading-IsValid : IsValid leading
unfolding last_index
leading-IsValid = record {
  contiguous = (refl, (refl, tt));
  covered = omega arith;
  applied = omega arith;
  committed = omega arith;
  bounded = omega arith;
}

-- A peer that takes what it is sent; the world counts its answers.
abbrev taking : World Disk KvStateMachine ℕ
taking = record {
  ctx_done = λ k. false;
  append = λ k req n. (
    k + 1,
    (n, some (record { term = req.term; success = true; last_log_index = 2; conflict_index = 0 })),
  );
  install = λ k req n. (k + 1, (n, none));
  poll = λ k n. (k, n);
  marshal = λ d. none;
  transfer_fuel = 0;
}

taking-IsCalm : IsCalm disk_store taking timer
taking-IsCalm = record {
  append = λ k req n. Keeps-refl n;
  install = λ k req n. Keeps-refl n;
  poll = λ k n. Keeps-refl n;
}

taking-Marks : Marks disk_store taking timer (λ k. 0 < k)
taking-Marks = record {
  append = λ k req n resp there good. omega arith;
  install = λ k req n resp there good. absurd (cc);
}

replicate_to_peer_for_read-Keeps_example :
    IsValid (replicate_to_peer_for_read disk_store taking timer "b" 1 0 leading).1.0
    × Advances leading (replicate_to_peer_for_read disk_store taking timer "b" 1 0 leading).1.0
replicate_to_peer_for_read-Keeps_example =
    replicate_to_peer_for_read-Keeps disk_store taking timer "b" 1 0 leading taking-IsCalm
      leading-IsValid

replicate_to_peer_for_read_fresh_example :
    0 < (replicate_to_peer_for_read disk_store taking timer "b" 1 0 leading).0
unfolding replicate_to_peer_for_read try_acquire prepare_round term_at take_answer
replicate_to_peer_for_read_fresh_example =
    replicate_to_peer_for_read_fresh disk_store taking timer "b" (λ k. 0 < k) 1 0 leading
      taking-Marks refl

-- The server's defaults: one to two seconds.
abbrev config : Config
config = record {
  id = "a";
  address = "a:1";
  peers = some (("a", "a:1") ∷ []);
  client_addresses = [];
  election_timeout_min = pos 1000000000;
  election_timeout_max = pos 2000000000;
  heartbeat_interval = pos 150000000;
  read_timeout = pos 0;
  snapshot_threshold = pos 64;
  snapshot_chunk_bytes = negsuc 0;
}

abbrev configured : Node Disk KvStateMachine
configured = record node { timeout_min = 1000000000; timeout_max = 2000000000 }

normalize_config_bounds_example :
    (0 < 1000000000)
    × (0 < (settled config).snapshot_threshold)
    × (0 < (settled config).snapshot_chunk_bytes)
    × (timer.now + 1000000000 ≤ (reset_election timer configured).election_due)
    × ((reset_election timer configured).election_due < timer.now + max 2000000000 1000000001)
unfolding settle normalize_config
normalize_config_bounds_example =
    normalize_config_bounds timer configured config (λ k h. h) refl refl

abbrev late : Timer
late = record { now = 100; draw = λ k. 77 }

normalize_config_fixed_example :
    (reset_election late
      (record node { timeout_min = 1000000000; timeout_max = 600000000 })).election_due
    ≡ 100 + 1000000000
unfolding settle normalize_config
normalize_config_fixed_example =
    normalize_config_fixed late (record node { timeout_min = 1000000000; timeout_max = 600000000 })
      (record config { election_timeout_max = pos 0 }) refl (omega arith) refl refl
