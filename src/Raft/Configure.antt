-- ===== src/Raft/Configure.antt =====
-- internal/raft/node.go: `normalizeConfig`, `validateConfig` and the guards of `NewNode`.
use Prim.Native.String.{◌++◌}
use go_raft_kv.Prelude.{
  ℕ, ◌*◌, String, Bool, true, not, Option, none, some, List, [], ◌∷◌, if◌then◌else◌, str_eq,
}
use go_raft_kv.Prelude.Ints.{ℤ, pos, lebℤ, to_nat}
use go_raft_kv.Prelude.Dict
use go_raft_kv.Prelude.Dict.{Dict}
use go_raft_kv.Raft.Types.{Error, message, Store, StateMachine, Timer}
use go_raft_kv.Raft.Node.{Node, or_empty}
use go_raft_kv.Raft.Recover
use go_raft_kv.Raft.Recover.{new_node}
pub mod Laws

-- `Config` as it is given: durations are nanoseconds, and a nil map of peers is `none`.
pub record Config : Type 0 where
  pub id : String
  pub address : String
  pub peers : Option (Dict String)
  pub client_addresses : Dict String
  pub election_timeout_min : ℤ
  pub election_timeout_max : ℤ
  pub heartbeat_interval : ℤ
  pub read_timeout : ℤ
  pub snapshot_threshold : ℤ
  pub snapshot_chunk_bytes : ℤ

abbrev pub millisecond : ℕ
millisecond = 1000000

-- The value, or a default in its place if it is not positive.
abbrev pub or_positive : ℤ → ℕ → ℤ
or_positive z d = if lebℤ z (pos 0) then pos d else z

abbrev pub peers_or_self : Config → Dict String
peers_or_self c = elim c.peers [ none ↦ (c.id, c.address) ∷ [] | some peers ↦ peers ]

abbrev pub longer_than : ℤ → ℤ → ℕ → ℤ
longer_than z low d = if lebℤ z low then pos d else z

unfoldable pub normalize_config : Config → Config
normalize_config c =
    let low = or_positive c.election_timeout_min (300 * millisecond) in
    record {
      id = c.id;
      address =
          if str_eq c.address "" then or_empty (Dict.get (peers_or_self c) c.id) else c.address;
      peers = some (peers_or_self c);
      client_addresses = c.client_addresses;
      election_timeout_min = low;
      election_timeout_max = longer_than c.election_timeout_max low (600 * millisecond);
      heartbeat_interval = or_positive c.heartbeat_interval (75 * millisecond);
      read_timeout = or_positive c.read_timeout (5000 * millisecond);
      snapshot_threshold = or_positive c.snapshot_threshold 64;
      snapshot_chunk_bytes = or_positive c.snapshot_chunk_bytes 1048576;
    }

-- `quote` is `%q`; ranging over a nil map does nothing, and it has no key.
unfoldable pub check_peers : (String → String) → String → Dict String → Option Error
check_peers quote id [] = some (message "raft peers must not be empty")
check_peers quote id (p ∷ ps) = elim (Dict.get (p ∷ ps) id) [
  | none ↦ some (message ("raft peers must include local node " ++ quote id))
  | some addr ↦
      if str_eq addr ""
      then some
          (message ("raft peers must include a non-empty address for local node " ++ quote id))
      else none
]

unfoldable pub validate_config : (String → String) → Config → Option Error
unfolding check_peers
validate_config quote c = check_peers quote c.id (elim c.peers [ none ↦ [] | some peers ↦ peers ])

-- The guards at the start of `NewNode`; the Booleans say which arguments are not nil.
unfoldable pub check_arguments : Config → Bool → Bool → Bool → Option Error
check_arguments c store machine transport =
    if str_eq c.id ""
    then some (message "raft node id is required")
    else if not store
    then some (message "storage store is required")
    else if not machine
    then some (message "state machine is required")
    else if not transport
    then some (message "transport is required")
    else none

-- The configuration that the node is built from.
unfoldable pub settle : Config → Recover.Config
settle c = record {
  id = c.id;
  address = c.address;
  peers = elim c.peers [ none ↦ [] | some peers ↦ peers ];
  client_addresses = c.client_addresses;
  election_timeout_min = to_nat c.election_timeout_min;
  election_timeout_max = to_nat c.election_timeout_max;
  snapshot_threshold = to_nat c.snapshot_threshold;
  snapshot_chunk_bytes = to_nat c.snapshot_chunk_bytes;
}

module _ {S M : Type 0} (st : Store S) (sm : StateMachine M) (quote : String → String) where
  abbrev pub refuse :
      S
      → Option Error
      → S × (Option Error × Option (Node S M))
      → S × (Option Error × Option (Node S M))
  refuse store (some e) rest = (store, (some e, none))
  refuse store none rest = rest

  -- `NewNode` from its first line on, with arguments that are there.
  unfoldable pub create_node : Timer → Config → S → M → S × (Option Error × Option (Node S M))
  unfolding check_arguments normalize_config validate_config settle new_node
  create_node t c store machine =
      let normal = normalize_config c in
      refuse store (check_arguments c true true true) (
        refuse store (validate_config quote normal)
          (new_node st sm t (settle normal) store machine))
