-- ===== src/Server/Examples.antt =====
-- The theorems on internal/server/service.go and internal/server/transport.go at two nodes.
use go_raft_kv.Prelude.{
  ◌≡◌, refl, String, Bool, true, false, none, some, [], ◌∷◌, Result, ok, str_eq, if◌then◌else◌,
  ◌==◌,
}
use go_raft_kv.Prelude.Dict
use go_raft_kv.Raft.Types.{Error, leader}
use go_raft_kv.Raft.Node.{Node}
use go_raft_kv.Raft.Vote.{handle_request_vote}
use go_raft_kv.Raft.Append.{handle_append_entries}
use go_raft_kv.Raft.Install.{handle_install_snapshot}
use go_raft_kv.Raft.Propose.{Wakeup, outcome, propose}
use go_raft_kv.Raft.Examples.{
  Disk, disk_store, kv, command, timer, node, vote_request, append_request, snapshot_request,
}
use go_raft_kv.Server.StateMachine.{KvStateMachine, copy_into}
use go_raft_kv.Server.Codec.{CommandCodec}
use go_raft_kv.Server.Service
use go_raft_kv.Server.Service.Answers.{Write, puts, write_command, Acknowledged, write_ok-Applied}
use go_raft_kv.Server.Transport.{
  Conn, GrpcTransport, new_grpc_transport, conn_for, request_vote, append_entries, install_snapshot,
}
use go_raft_kv.Server.Transport.Pool.{here, next, connect, Targets, conn_for_target}
use go_raft_kv.Server.Transport.Calls.{Reaches, served, calls_reach_handlers}

abbrev open_conn : Conn → Bool
open_conn c = false

abbrev dial : String → Result Error Conn
dial addr = ok (record { pointer = 1; target = addr })

dial-Targets : Targets dial
dial-Targets addr c h = cc

abbrev pool : GrpcTransport
pool = record { peers = ("b", "b:1") ∷ []; conns = []; closed = [] }

conn_for_target_example :
    Dict.get (conn_for open_conn dial "b" (conn_for open_conn dial "b" pool).0).0.peers "b"
    ≡ some "b:1"
unfolding new_grpc_transport copy_into Dict.put Dict.remove conn_for Dict.get
conn_for_target_example =
    conn_for_target (("b", "b:1") ∷ []) open_conn dial "b" (record { pointer = 1; target = "b:1" })
      (next here (connect open_conn dial "b" dial-Targets)) dial-Targets refl

-- Two commands with a number for each.
abbrev codec : CommandCodec
codec = record {
  encode = λ c. if str_eq c.value "two" then 2 ∷ [] else 3 ∷ [];
  decode = λ bytes. elim bytes [
    | [] ↦ command ""
    | b ∷ bs ↦ if b == 2 then command "two" else command "three"
  ];
}

calls_reach_handlers_example :
    Reaches disk_store kv codec timer open_conn dial
      (λ p. p)
      (conn_for open_conn dial "b" pool).0
      (request_vote open_conn dial
        (λ p. p)
        (served (Service.request_vote disk_store timer))
        "b"
        vote_request
        node
        pool)
      (handle_request_vote disk_store timer vote_request node)
    × Reaches disk_store kv codec timer open_conn dial
        (λ p. p)
        (conn_for open_conn dial "b" pool).0
        (append_entries open_conn dial
          (λ p. p)
          codec
          (served (Service.append_entries disk_store codec timer))
          "b"
          append_request
          node
          pool)
        (handle_append_entries disk_store timer append_request node)
    × Reaches disk_store kv codec timer open_conn dial
        (λ p. p)
        (conn_for open_conn dial "b" pool).0
        (install_snapshot open_conn dial
          (λ p. p)
          (served (Service.install_snapshot disk_store kv (λ b. some none) (λ n. n) timer))
          "b"
          snapshot_request
          node
          pool)
        (handle_install_snapshot disk_store kv
          (λ b. some none)
          (λ n. n)
          timer
          snapshot_request
          node)
unfolding conn_for Dict.get
calls_reach_handlers_example =
    calls_reach_handlers disk_store kv codec timer open_conn dial (λ p. p) (λ b. some none) (λ n. n)
      "b" pool (conn_for open_conn dial "b" pool).0 (record { pointer = 1; target = "b:1" }) node
      vote_request append_request snapshot_request (refl, (refl, tt)) refl

abbrev applied : Wakeup
applied = outcome (record {
  result = record { ok = true; found = true; value = "1"; swapped = false; error = "" };
  err = none;
})

abbrev leads : Node Disk KvStateMachine
leads = record node { role = leader }

abbrev put_one : Write
put_one = puts (record { key = "x"; value = "1" })

write_ok-Applied_example :
    Acknowledged disk_store "done" timer applied leads (write_command put_one)
unfolding Service.put propose
write_ok-Applied_example = write_ok-Applied disk_store "done" timer applied leads put_one refl
