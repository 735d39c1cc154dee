-- ===== src/Server/Transport.antt =====
-- internal/server/transport.go: the pool of connections and the calls of a peer. A connection is a
-- number, for its pointer; the gRPC library's part in a call is an argument.
pub mod Pool
pub mod Calls
use go_raft_kv.Prelude.{
  ℕ, String, Bool, Option, none, some, List, [], ◌∷◌, ◌++◌, map, ◌==◌, if◌then◌else◌, str_eq,
  Result, ok, err,
}
use go_raft_kv.Prelude.Dict
use go_raft_kv.Prelude.Dict.{Dict}
use go_raft_kv.Server.StateMachine.{copy_into}
use go_raft_kv.Server.Codec.{CommandCodec, log_entries_to_api}
use go_raft_kv.Api
use go_raft_kv.Raft.Types
use go_raft_kv.Raft.Types.{Error, message}
use go_raft_kv.Raft.Node.{or_empty}

-- A client connection: its pointer and the address it was made for.
pub record Conn : Type 0 where
  pub pointer : ℕ
  pub target : String

-- `closed` lists the connections that were closed.
pub record GrpcTransport : Type 0 where
  pub peers : Dict String
  pub conns : Dict Conn
  pub closed : List Conn

unfoldable pub new_grpc_transport : Dict String → GrpcTransport
unfolding copy_into
new_grpc_transport peers = record { peers = copy_into peers []; conns = []; closed = [] }

unfoldable pub close : GrpcTransport → GrpcTransport
close t = record t { conns = []; closed = t.closed ++ map (λ (c : String × Conn). c.1) t.conns }

-- `_ = conn.Close(); delete(t.conns, peerID)`
unfoldable pub forget : String → Conn → GrpcTransport → GrpcTransport
forget peer conn t = record t { conns = Dict.remove t.conns peer; closed = t.closed ++ conn ∷ [] }

-- `dial` is what grpc.NewClient gives for an address.
unfoldable pub dial_peer :
    (String → Result Error Conn) → String → GrpcTransport → GrpcTransport × Result Error Conn
dial_peer dial peer t =
    let addr = or_empty (Dict.get t.peers peer) in
    if str_eq addr "" then (t, err (message "unknown peer")) else elim (dial addr) [
      | err e ↦ (t, err e)
      | ok conn ↦ (record t { conns = Dict.put t.conns peer conn }, ok conn)
    ]

-- `shutdown` is whether the state of a connection is Shutdown.
unfoldable pub conn_for :
    (Conn → Bool)
    → (String → Result Error Conn)
    → String
    → GrpcTransport
    → GrpcTransport × Result Error Conn
unfolding dial_peer forget
conn_for shutdown dial peer t = elim (Dict.get t.conns peer) [
  | none ↦ dial_peer dial peer t
  | some conn ↦ if shutdown conn then dial_peer dial peer (forget peer conn t) else (t, ok conn)
]

unfoldable pub drop_conn : String → Conn → GrpcTransport → GrpcTransport
unfolding forget
drop_conn peer observed t = elim (Dict.get t.conns peer) [
  | none ↦ t
  | some cur ↦ if cur.pointer == observed.pointer then forget peer cur t else t
]

-- A call of a method of a peer: `invoke` is the library's call on the connection, over the state `W`
-- of the peer, and `other` what other calls do to the pool meanwhile.
module _ {W Req Resp : Type 0} (peer : String) (other : GrpcTransport → GrpcTransport)
    (invoke : Conn → Req → W → W × Result Error Resp) where
  unfoldable pub after_call :
      Conn → GrpcTransport → W × Result Error Resp → GrpcTransport × W × Result Error Resp
  unfolding drop_conn
  after_call conn t (w, err e) = (drop_conn peer conn (other t), w, err e)
  after_call conn t (w, ok resp) = (other t, w, ok resp)

  unfoldable pub after_conn :
      Req → W → GrpcTransport × Result Error Conn → GrpcTransport × W × Result Error Resp
  unfolding after_call
  after_conn req w (t, err e) = (t, w, err e)
  after_conn req w (t, ok conn) = after_call conn t (invoke conn req w)

  unfoldable pub call_peer :
      (Conn → Bool)
      → (String → Result Error Conn)
      → Req
      → W
      → GrpcTransport
      → GrpcTransport × W × Result Error Resp
  unfolding after_conn conn_for
  call_peer shutdown dial req w t = after_conn req w (conn_for shutdown dial peer t)

abbrev pub answer_with :
    {W A B : Type 0}
    → (A → B)
    → GrpcTransport × W × Result Error A
    → GrpcTransport × W × Result Error B
answer_with f (t, w, err e) = (t, w, err e)
answer_with f (t, w, ok a) = (t, w, ok (f a))

abbrev pub to_vote_response : Api.RequestVoteResponse → Types.RequestVoteResponse
to_vote_response resp = record { term = resp.term; vote_granted = resp.vote_granted }

abbrev pub to_append_response : Api.AppendEntriesResponse → Types.AppendEntriesResponse
to_append_response resp = record {
  term = resp.term;
  success = resp.success;
  conflict_index = resp.conflict_index;
  last_log_index = resp.match_index;
}

abbrev pub to_install_response : Api.InstallSnapshotResponse → Types.InstallSnapshotResponse
to_install_response resp = record {
  term = resp.term;
  success = resp.success;
  bytes_received = resp.bytes_received;
}

abbrev pub vote_message : Types.RequestVoteRequest → Api.RequestVoteRequest
vote_message req = record {
  term = req.term;
  candidate_id = req.candidate_id;
  last_log_index = req.last_log_index;
  last_log_term = req.last_log_term;
}

unfoldable pub append_message : CommandCodec → Types.AppendEntriesRequest → Api.AppendEntriesRequest
unfolding log_entries_to_api
append_message codec req = record {
  term = req.term;
  leader_id = req.leader_id;
  prev_log_index = req.prev_log_index;
  prev_log_term = req.prev_log_term;
  entries = log_entries_to_api codec req.entries;
  leader_commit = req.leader_commit;
}

abbrev pub install_message : Types.InstallSnapshotRequest → Api.InstallSnapshotRequest
install_message req = record {
  term = req.term;
  leader_id = req.leader_id;
  last_included_index = req.last_included_index;
  last_included_term = req.last_included_term;
  offset = req.offset;
  chunk = req.chunk;
  done = req.done;
}

-- The three methods of `raft.Transport`.
module _ {W : Type 0} (shutdown : Conn → Bool) (dial : String → Result Error Conn)
    (other : GrpcTransport → GrpcTransport) where
  unfoldable pub request_vote :
      (Conn → Api.RequestVoteRequest → W → W × Result Error Api.RequestVoteResponse)
      → String
      → Types.RequestVoteRequest
      → W
      → GrpcTransport
      → GrpcTransport × W × Result Error Types.RequestVoteResponse
  unfolding call_peer
  request_vote invoke peer req w t =
      answer_with to_vote_response
        (call_peer peer other invoke shutdown dial (vote_message req) w t)

  unfoldable pub append_entries :
      CommandCodec
      → (Conn → Api.AppendEntriesRequest → W → W × Result Error Api.AppendEntriesResponse)
      → String
      → Types.AppendEntriesRequest
      → W
      → GrpcTransport
      → GrpcTransport × W × Result Error Types.AppendEntriesResponse
  unfolding call_peer append_message
  append_entries codec invoke peer req w t =
      answer_with to_append_response
        (call_peer peer other invoke shutdown dial (append_message codec req) w t)

  unfoldable pub install_snapshot :
      (Conn → Api.InstallSnapshotRequest → W → W × Result Error Api.InstallSnapshotResponse)
      → String
      → Types.InstallSnapshotRequest
      → W
      → GrpcTransport
      → GrpcTransport × W × Result Error Types.InstallSnapshotResponse
  unfolding call_peer
  install_snapshot invoke peer req w t =
      answer_with to_install_response
        (call_peer peer other invoke shutdown dial (install_message req) w t)
