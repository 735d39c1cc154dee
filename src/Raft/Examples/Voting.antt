-- ===== src/Raft/Examples/Voting.antt =====
-- An election of internal/raft/node.go in the cluster of the examples: "a" asks, "b" grants its vote
-- and then crashes and is started again, and the call to "c" fails.
use mathlib.Core.List.Perm
use mathlib.Core.Option.{some-injective}
use go_raft_kv.Prelude.{
  ℕ, zero, suc, ◌≡◌, ◌≢◌, refl, subst, String, Bool, true, false, arith, Option, none, some, [],
  ◌∷◌, str_eq, eq_iff, inl, inr, Bool-cases,
}
use go_raft_kv.Prelude.Word.{inc64}
use go_raft_kv.Prelude.Dict.{get}
use go_raft_kv.Server.StateMachine.{KvStateMachine, new_kv_state_machine}
use go_raft_kv.Raft.Types.{Timer, RequestVoteRequest, RequestVoteResponse}
use go_raft_kv.Raft.Log.{last_index, last_term}
use go_raft_kv.Raft.Node.{Node, quorum}
use go_raft_kv.Raft.Vote.{handle_request_vote}
use go_raft_kv.Raft.Election.{start_election, election_result}
use go_raft_kv.Raft.Progress.{IsValid}
use go_raft_kv.Raft.System.{Reach, here, next, request_vote, start}
use go_raft_kv.Raft.Guarantees.Lifetime.{Life, runs, restarts, Runs}
use go_raft_kv.Raft.Recover.{Config, rebuild, new_node}
use go_raft_kv.Raft.Guarantees.Leaders.{Elected, election_safety}
use go_raft_kv.Raft.Examples.{Disk, disk_store, kv, timer, node}
use go_raft_kv.Raft.Examples.Handlers.{node-IsValid}

abbrev ballot : RequestVoteRequest
ballot = record { term = 3; candidate_id = "a"; last_log_index = 2; last_log_term = 2 }

-- The members before the election: whether it is "a", and whether it is "b".
abbrev before : Bool → Bool → Node Disk KvStateMachine
before true is_b = node
before false true = record node { id = "b"; peer_addrs = ("a", "a:1") ∷ ("c", "c:1") ∷ [] }
before false false = record node { id = "c"; peer_addrs = ("a", "a:1") ∷ ("b", "b:1") ∷ [] }

abbrev after : Bool → Bool → Node Disk KvStateMachine
after true is_b = (start_election disk_store timer node).0
after false true = (handle_request_vote disk_store timer ballot (before false true)).0
after false false = before false false

abbrev b_config : Config
b_config = record {
  id = "b";
  address = "b:1";
  peers = ("a", "a:1") ∷ ("b", "b:1") ∷ ("c", "c:1") ∷ [];
  client_addresses = [];
  election_timeout_min = 150;
  election_timeout_max = 300;
  snapshot_threshold = 100;
  snapshot_chunk_bytes = 16;
}

-- What "b" had on its disk when it crashed.
abbrev b_disk : Disk
b_disk = (after false true).store

abbrev restarted : Bool → Bool → Node Disk KvStateMachine
restarted true is_b = after true is_b
restarted false true =
    rebuild kv timer b_config b_disk b_disk.hard b_disk.log b_disk.snap new_kv_state_machine
restarted false false = before false false

abbrev run : String → ℕ → Node Disk KvStateMachine
run x zero = before (str_eq x "a") (str_eq x "b")
run x (suc zero) = after (str_eq x "a") (str_eq x "b")
run x (suc (suc i)) = restarted (str_eq x "a") (str_eq x "b")

before-IsValid : (is_a is_b : Bool) → IsValid (before is_a is_b)
before-IsValid true is_b = node-IsValid
before-IsValid false true = node-IsValid
before-IsValid false false = node-IsValid

before-after : (is_a is_b : Bool) → Reach disk_store kv (before is_a is_b) (after is_a is_b)
unfolding last_index
before-after true is_b = next here (start timer (omega arith, omega arith))
before-after false true = next here (request_vote timer ballot)
before-after false false = here

after-restarted : (is_a is_b : Bool) → Life disk_store kv (after is_a is_b) (restarted is_a is_b)
unfolding new_node rebuild handle_request_vote get last_term last_index
after-restarted true is_b = runs here
after-restarted false true =
    restarts timer b_config new_kv_state_machine b_disk b_disk.hard b_disk.log b_disk.snap refl
      (record { terms = omega arith; votes = λ _ _. refl }) (refl, (refl, tt)) (omega arith) refl
after-restarted false false = runs here

run-Runs : Runs disk_store kv run
run-Runs = record { starts = λ x. before-IsValid (str_eq x "a") (str_eq x "b"); changes = changes }
  where
    changes : (x : String) (i : ℕ) → Life disk_store kv (run x i) (run x (suc i))
    changes x zero = runs (before-after (str_eq x "a") (str_eq x "b"))
    changes x (suc zero) = after-restarted (str_eq x "a") (str_eq x "b")
    changes x (suc (suc i)) = runs here

abbrev reply : Bool → Option RequestVoteResponse
reply true = some (record { term = 3; vote_granted = true })
reply false = none

handled :
    handle_request_vote disk_store timer ballot (run "b" 0)
    ≡ (run "b" 1, record { term = 3; vote_granted = true })
unfolding handle_request_vote get last_term last_index
handled = refl

abbrev Answered : String → RequestVoteResponse → Type 0
Answered x r =
    (i : ℕ) × (t : Timer) × (handle_request_vote disk_store t ballot (run x i) ≡ (run x (suc i), r))

answered : (x : String) (r : RequestVoteResponse) → reply (str_eq x "b") ≡ some r → Answered x r
answered x r h = elim (Bool-cases (str_eq x "b")) [
  | inl is_b ↦
      let x_is_b : "b" ≡ x = ground (arith, eq_iff x "b", is_b) in
      let same = some-injective _ r (subst (λ p. reply p ≡ some r) is_b h) in
      subst (λ x. Answered x r) x_is_b (subst (Answered "b") same (0, timer, handled))
  | inr other ↦ absurd (ground (arith, h, other))
]

a-Elected : Elected disk_store kv run ("a" ∷ "b" ∷ "c" ∷ []) "a" 3
unfolding start_election election_result quorum last_index last_term inc64
a-Elected = record {
  time = 0;
  timer = timer;
  req = ballot;
  asked = refl;
  in_term = refl;
  named = refl;
  in_cluster = Perm.refl _;
  results = λ x. reply (str_eq x "b");
  order = "b" ∷ "c" ∷ [];
  all_peers = Perm.refl _;
  answered = answered;
  wins = refl;
}

abbrev name : String
name = "a"

name_given : name ≢ ""
name_given h = absurd (ground (arith, eq_iff name "", h))

election_safety_example : name ≡ name
election_safety_example =
    election_safety disk_store kv run (name ∷ "b" ∷ "c" ∷ []) name name 3 run-Runs name_given
      name_given a-Elected a-Elected
