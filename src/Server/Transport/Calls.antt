-- ===== src/Server/Transport/Calls.antt =====
-- internal/server/transport.go on one side and internal/server/service.go on the other: a call of a
-- peer and the handler that it reaches.
use go_raft_kv.Prelude.{ℕ, ◌≡◌, ap, ◌∙◌, String, Bool, Option, List, Result, ok}
use go_raft_kv.Prelude.Dict.{Dict}
use go_raft_kv.Storage.Types.{LogEntry}
use go_raft_kv.Raft.Types
use go_raft_kv.Raft.Types.{Error, Store, StateMachine, Timer}
use go_raft_kv.Raft.Node.{Node}
use go_raft_kv.Raft.Vote.{handle_request_vote}
use go_raft_kv.Raft.Append.{handle_append_entries}
use go_raft_kv.Raft.Install.{handle_install_snapshot}
use go_raft_kv.Server.Codec.{CommandCodec, Decodes, api_to_log_entries-log_entries_to_api}
use go_raft_kv.Server.Service
use go_raft_kv.Server.Transport.{
  Conn, GrpcTransport, conn_for, after_conn, call_peer, answer_with, request_vote, append_entries,
  install_snapshot, append_message, to_append_response, to_vote_response, to_install_response,
  vote_message, install_message,
}

-- A connection whose other end runs a method of the service, and loses nothing.
abbrev pub served :
    {W Req Resp : Type 0} → (Req → W → W × Resp) → Conn → Req → W → W × Result Error Resp
served f conn req w = ((f req w).0, ok (f req w).1)

module _ {W Req Resp : Type 0} (shutdown : Conn → Bool) (dial : String → Result Error Conn)
    (other : GrpcTransport → GrpcTransport) where
  call_served :
      (f : Req → W → W × Resp) (peer : String) (req : Req) (w : W) (pool pool' : GrpcTransport)
      (conn : Conn)
      → conn_for shutdown dial peer pool ≡ (pool', ok conn)
      → call_peer peer other (served f) shutdown dial req w pool
        ≡ (other pool', (f req w).0, ok (f req w).1)
  unfolding call_peer
  call_served f peer req w pool pool' conn c = ap (after_conn peer other (served f) req w) c

module _ {S M : Type 0} (st : Store S) (sm : StateMachine M) (codec : CommandCodec) (t : Timer)
    (shutdown : Conn → Bool) (dial : String → Result Error Conn)
    (other : GrpcTransport → GrpcTransport) where
  abbrev pub Reaches :
      {Resp : Type 0}
      → GrpcTransport
      → GrpcTransport × Node S M × Result Error Resp
      → Node S M × Resp
      → Type 0
  Reaches pool call (n, resp) = call ≡ (other pool, n, ok resp)

  -- If the pool gives a connection for a peer and the connection loses nothing, then each of the three
  -- calls of the transport does to the peer's node what the node's own handler does on the same request
  -- and gives the handler's answer, field by field, while the pool is left to the other calls; the
  -- commands of the request's entries are supposed to be read back as they were written.
  pub calls_reach_handlers :
      (decode : List ℕ → Option (Option (Dict String))) (meanwhile : Node S M → Node S M)
      (peer : String) (pool pool' : GrpcTransport) (conn : Conn) (n : Node S M)
      (vote : Types.RequestVoteRequest) (append : Types.AppendEntriesRequest)
      (install : Types.InstallSnapshotRequest)
      → Decodes codec append.entries
      → conn_for shutdown dial peer pool ≡ (pool', ok conn)
      → Reaches pool'
          (request_vote shutdown dial other (served (Service.request_vote st t)) peer vote n pool)
          (handle_request_vote st t vote n)
        × Reaches pool'
            (append_entries shutdown dial other codec
              (served (Service.append_entries st codec t))
              peer
              append
              n
              pool)
            (handle_append_entries st t append n)
        × Reaches pool'
            (install_snapshot shutdown dial other
              (served (Service.install_snapshot st sm decode meanwhile t))
              peer
              install
              n
              pool)
            (handle_install_snapshot st sm decode meanwhile t install n)
  unfolding request_vote append_entries install_snapshot Service.request_vote Service.append_entries
      Service.install_snapshot append_message
  calls_reach_handlers decode meanwhile peer pool pool' conn n vote append install law c = (
    ap (answer_with to_vote_response) (
        call_served shutdown dial other (Service.request_vote st t) peer (vote_message vote) n pool
          pool' conn c),
    ap (answer_with to_append_response) (
          call_served shutdown dial other (Service.append_entries st codec t) peer
            (append_message codec append) n pool pool' conn c)
        ∙ ap
            (λ (es : List LogEntry).
              let (n', resp) = handle_append_entries st t (record append { entries = es }) n in
              (other pool', n', ok resp))
            (api_to_log_entries-log_entries_to_api codec append.entries law),
    ap (answer_with to_install_response) (
        call_served shutdown dial other (Service.install_snapshot st sm decode meanwhile t) peer
          (install_message install) n pool pool' conn c),
  )
