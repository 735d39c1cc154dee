-- ===== src/Raft/Status.antt =====
-- internal/raft/node.go: `Status`, `isLeader` and `LastError`.
use Prim.Native.Nat.{Ordering}
use Prim.Native.String.{compare}
use go_raft_kv.Prelude.{
  ℕ, String, Bool, true, false, Option, none, some, List, [], ◌∷◌, map, if◌then◌else◌,
}
use go_raft_kv.Raft.Types.{Role, Error}
use go_raft_kv.Raft.Log.{last_index}
use go_raft_kv.Raft.Node.{Node, is_leader, leader_address}

pub record PeerStatus : Type 0 where
  pub id : String
  pub address : String
  pub next_index : ℕ
  pub match_index : ℕ

-- The zero value of a role, "", is `none`.
pub record Status : Type 0 where
  pub id : String
  pub address : String
  pub role : Option Role
  pub term : ℕ
  pub leader_id : String
  pub leader_address : String
  pub commit_index : ℕ
  pub last_applied : ℕ
  pub last_log_index : ℕ
  pub snapshot_index : ℕ
  pub peers : List PeerStatus

abbrev before : String → String → Bool
before s t = elim (compare s t) [ Ordering.lt ↦ true | _ ↦ false ]

-- `sort.Slice` by the identifiers, which differ.
unfoldable pub insert_peer : PeerStatus → List PeerStatus → List PeerStatus
insert_peer p [] = p ∷ []
insert_peer p (q ∷ qs) =
    let rest = insert_peer p qs in if before q.id p.id then q ∷ rest else p ∷ q ∷ qs

unfoldable pub sort_peers : List PeerStatus → List PeerStatus
unfolding insert_peer
sort_peers [] = []
sort_peers (p ∷ ps) = insert_peer p (sort_peers ps)

module _ {S M : Type 0} where
  abbrev pub peer_status : Node S M → String × String → PeerStatus
  peer_status n (id, address) = record {
    id = id;
    address = address;
    next_index = n.next_index id;
    match_index = n.match_index id;
  }

  unfoldable pub status : Node S M → Status
  unfolding sort_peers leader_address last_index
  status n =
      if n.stopped
      then record {
        id = n.id;
        address = n.address;
        role = none;
        term = n.current_term;
        leader_id = "";
        leader_address = "";
        commit_index = n.commit_index;
        last_applied = n.last_applied;
        last_log_index = last_index n.snapshot n.log;
        snapshot_index = n.snapshot.last_included_index;
        peers = [];
      }
      else record {
        id = n.id;
        address = n.address;
        role = some n.role;
        term = n.current_term;
        leader_id = n.leader_id;
        leader_address = leader_address n;
        commit_index = n.commit_index;
        last_applied = n.last_applied;
        last_log_index = last_index n.snapshot n.log;
        snapshot_index = n.snapshot.last_included_index;
        peers = sort_peers (map (peer_status n) n.peer_addrs);
      }

  unfoldable pub leads : Node S M → Bool
  leads n = is_leader n.role

  unfoldable pub last_error : Node S M → Option Error
  last_error n = n.last_err
