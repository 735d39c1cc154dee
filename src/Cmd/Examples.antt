-- ===== src/Cmd/Examples.antt =====
-- The theorems on cmd/kvctl/main.go and cmd/server/main.go at a cluster of two nodes.
use go_raft_kv.Prelude.{
  ◌≤◌, ◌≡◌, inl, inr, refl, arith, String, true, false, Option, none, some, [], ◌∷◌, if◌then◌else◌,
  str_eq, eq_iff, length, ok, err, map,
}
use go_raft_kv.Prelude.Dict
use go_raft_kv.Api
use go_raft_kv.Server.StateMachine.{KvStateMachine, copy_into}
use go_raft_kv.Server.Service
use go_raft_kv.Raft.Types.{leader}
use go_raft_kv.Raft.Node.{Node, leader_address}
use go_raft_kv.Raft.Propose.{Wakeup, outcome, propose}
use go_raft_kv.Raft.Examples.{Disk, disk_store, timer, node}
use go_raft_kv.Cmd.Text.{trim_space}
use go_raft_kv.Cmd.Text.Laws.{join}
use go_raft_kv.Cmd.Kvctl.{Client, put}
use go_raft_kv.Cmd.Kvctl.Retry.{put_answers, with_leader_retry_using}
use go_raft_kv.Cmd.Kvctl.Retry.Search.{Ends, logged, with_leader_retry_using_lem}
use go_raft_kv.Cmd.Kvctl.Cluster.{answer_put, follows, down, put_reaches_leader}
use go_raft_kv.Cmd.Flags.{parse_map}
use go_raft_kv.Cmd.Flags.Laws.{print_entry, parse_map-print}

abbrev applied : Wakeup
applied = outcome (record {
  result = record { ok = true; found = true; value = "1"; swapped = false; error = "" };
  err = none;
})

abbrev leads : Node Disk KvStateMachine
leads = record node { role = leader; leader_id = "a"; client_addrs = ("a", "h:1") ∷ [] }

abbrev follower_node : Node Disk KvStateMachine
follower_node = record node { id = "b"; leader_id = "a"; client_addrs = ("a", "h:1") ∷ [] }

abbrev nodes : String → Option (Node Disk KvStateMachine)
nodes e = if str_eq e "h:1" then some leads else if str_eq e "f:1" then some follower_node else none

abbrev request : Api.PutRequest
request = record { key = "x"; value = "1" }

-- A client whose calls reach these nodes. It is used for writes of values only.
abbrev client : Client (Unit {0})
client = record {
  put = λ u e req. (tt, answer_put disk_store "done" timer applied nodes e req);
  get = λ u e req. (tt, err "unavailable");
  delete = λ u e req. (tt, err "unavailable");
  cas = λ u e req. (tt, err "unavailable");
  status = λ u e. (tt, err "unavailable");
}

put_reaches_leader_example : (put client ("gone:1" ∷ "f:1" ∷ []) "x" "1" tt).1 ≡ ok "OK"
unfolding Service.put propose leader_address Dict.get
put_reaches_leader_example =
    put_reaches_leader disk_store "done" timer applied nodes client ("gone:1" ∷ "f:1" ∷ []) "x" "1"
      "h:1" leads (λ u e req. refl) refl refl (ground (arith, eq_iff "h:1" ""))
      (down refl, (follows follower_node refl (refl, refl, refl) (inr refl), tt))
      (inr (inl (ground (arith, eq_iff "f:1" ""), follower_node, refl, (refl, refl, refl), refl)))

with_leader_retry_using_lem_example :
    Ends put_answers
      (λ u e. client.put u e request)
      (with_leader_retry_using put_answers (λ u e. client.put u e request) ("f:1" ∷ []) tt).1
    × (length
          (with_leader_retry_using put_answers
            (logged put_answers (λ u e. client.put u e request))
            ("f:1" ∷ [])
            (tt, [])).0.1
        ≤ 6)
with_leader_retry_using_lem_example =
    with_leader_retry_using_lem put_answers (λ u e. client.put u e request) ("f:1" ∷ []) tt

parse_map-print_example :
    parse_map (join (map print_entry (("a", "a:1") ∷ ("b", "b:1") ∷ [])))
    ≡ ok (copy_into (("a", "a:1") ∷ ("b", "b:1") ∷ []) [])
unfolding trim_space join
parse_map-print_example =
    parse_map-print ("a", "a:1") (("b", "b:1") ∷ [])
      (
        record {
          key = ground (arith, eq_iff "a" "");
          value = ground (arith, eq_iff "a:1" "");
          no_equals = (refl, tt);
          part = record {
            not_empty = ground (arith, eq_iff "a=a:1" "");
            no_comma = (refl, (refl, (refl, (refl, (refl, tt)))));
            trimmed = refl;
          };
        },
        (
          record {
            key = ground (arith, eq_iff "b" "");
            value = ground (arith, eq_iff "b:1" "");
            no_equals = (refl, tt);
            part = record {
              not_empty = ground (arith, eq_iff "b=b:1" "");
              no_comma = (refl, (refl, (refl, (refl, (refl, tt)))));
              trimmed = refl;
            };
          },
          tt,
        ),
      )
      refl
