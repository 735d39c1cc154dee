-- ===== src/Server/Transport/Pool.antt =====
-- internal/server/transport.go: what holds of the pool of connections after any operations.
use go_raft_kv.Prelude.{
  ◌≡◌, ◌≢◌, refl, sym, ap, ◌∙◌, String, Bool, false, Option, none, some, ◌==◌, if◌then◌else◌,
  if-cases, arith, str_eq, eq_iff, Result, ok, err,
}
use go_raft_kv.Prelude.Dict
use go_raft_kv.Prelude.Dict.{Dict, get-put, get-remove}
use go_raft_kv.Raft.Types.{Error}
use go_raft_kv.Raft.Node.{or_empty}
use go_raft_kv.Server.Transport.{
  Conn, GrpcTransport, new_grpc_transport, close, forget, dial_peer, conn_for, drop_conn,
}

-- Each pooled connection was made for the address of its peer.
abbrev pub IsValid : GrpcTransport → Type 0
IsValid t =
    (p : String) (c : Conn) → Dict.get t.conns p ≡ some c → Dict.get t.peers p ≡ some c.target

-- grpc.NewClient makes a connection for the address that it is given.
abbrev pub Targets : (String → Result Error Conn) → Type 0
Targets dial = (addr : String) (c : Conn) → dial addr ≡ ok c → c.target ≡ addr

-- The address of a peer that is configured.
configured : (o : Option String) → or_empty o ≢ "" → o ≡ some (or_empty o)
configured none h = absurd (h refl)
configured (some a) h = refl

-- What a call for a connection leaves and gives.
abbrev pub Connects : String → GrpcTransport × Result Error Conn → Type 0
Connects peer r = IsValid r.0 × ((c : Conn) → r.1 ≡ ok c → Dict.get r.0.peers peer ≡ some c.target)

forget-IsValid :
    (peer : String) (c : Conn) (t : GrpcTransport) → IsValid t → IsValid (forget peer c t)
unfolding forget
forget-IsValid peer c t v p d h =
    v p d (ground (arith, get-remove t.conns peer p, eq_iff peer p, h))

drop_conn-IsValid :
    (peer : String) (observed : Conn) (t : GrpcTransport)
    → IsValid t
    → IsValid (drop_conn peer observed t)
unfolding drop_conn
drop_conn-IsValid peer observed t v =
    elim (Dict.get t.conns peer)
      as (λ o. IsValid (elim o [
        | none ↦ t
        | some cur ↦ if cur.pointer == observed.pointer then forget peer cur t else t
      ])) [
        | none ↦ v
        | some cur ↦
            if-cases IsValid (cur.pointer == observed.pointer) _ _
              (λ _. forget-IsValid peer cur t v) (λ _. v)
      ]

close-IsValid : (t : GrpcTransport) → IsValid (close t)
unfolding close Dict.get
close-IsValid t p c h = absurd (cc)

-- A connection that was just made is put in for its peer.
put-IsValid :
    (peer : String) (conn : Conn) (t : GrpcTransport)
    → IsValid t
    → Dict.get t.peers peer ≡ some conn.target
    → IsValid (record t { conns = Dict.put t.conns peer conn })
put-IsValid peer conn t v there p c h =
    ground (arith, get-put t.conns peer p conn, eq_iff peer p, h, v p c, there)

dialled :
    (peer : String) (t : GrpcTransport) (r : Result Error Conn)
    → IsValid t
    → ((c : Conn) → r ≡ ok c → Dict.get t.peers peer ≡ some c.target)
    → Connects peer (elim r [
      | err e ↦ (t, err e)
      | ok conn ↦ (record t { conns = Dict.put t.conns peer conn }, ok conn)
    ])
dialled peer t (err e) v good = (v, λ c h. absurd (cc))
dialled peer t (ok conn) v good = (put-IsValid peer conn t v (good conn refl), λ c h. good c h)

dial_peer-Connects :
    (dial : String → Result Error Conn) (peer : String) (t : GrpcTransport)
    → Targets dial
    → IsValid t
    → Connects peer (dial_peer dial peer t)
unfolding dial_peer
dial_peer-Connects dial peer t law v =
    let addr = or_empty (Dict.get t.peers peer) in
    if-cases (Connects peer) (str_eq addr "") _ _ (λ _. (v, λ c h. absurd (cc)))
      (λ known. dialled peer t (dial addr) v (λ c h.
        configured (Dict.get t.peers peer) (ground (arith, known, eq_iff addr ""))
        ∙ ap (λ (a : String). some a) (sym (law addr c h))))

conn_for-Connects :
    (shutdown : Conn → Bool) (dial : String → Result Error Conn) (peer : String) (t : GrpcTransport)
    → Targets dial
    → IsValid t
    → Connects peer (conn_for shutdown dial peer t)
unfolding conn_for
conn_for-Connects shutdown dial peer t law v = found (Dict.get t.conns peer) refl
  where
    found :
        (o : Option Conn)
        → Dict.get t.conns peer ≡ o
        → Connects peer (elim o [
          | none ↦ dial_peer dial peer t
          | some conn ↦
              if shutdown conn then dial_peer dial peer (forget peer conn t) else (t, ok conn)
        ])
    found none e = dial_peer-Connects dial peer t law v
    found (some conn) e =
        if-cases (Connects peer) (shutdown conn) _ _
          (λ _.
            dial_peer-Connects dial peer (forget peer conn t) law (forget-IsValid peer conn t v))
          (λ _. (v, λ c h. v peer c (e ∙ cc)))

-- The operations on a pool, each under its lock.
pub data PoolStep (t : GrpcTransport) : GrpcTransport → Type 0 where
  connect :
      (shutdown : Conn → Bool) (dial : String → Result Error Conn) (peer : String)
      → Targets dial
      → PoolStep t (conn_for shutdown dial peer t).0
  drop : (peer : String) (observed : Conn) → PoolStep t (drop_conn peer observed t)
  shut : PoolStep t (close t)

pub data PoolReach (t : GrpcTransport) : GrpcTransport → Type 0 where
  here : PoolReach t t
  next : {u v : GrpcTransport} → PoolReach t u → PoolStep u v → PoolReach t v

step-IsValid : {t u : GrpcTransport} → PoolStep t u → IsValid t → IsValid u
step-IsValid {t} (connect shutdown dial peer law) v =
    (conn_for-Connects shutdown dial peer t law v).0
step-IsValid {t} (drop peer observed) v = drop_conn-IsValid peer observed t v
step-IsValid {t} shut v = close-IsValid t

reach-IsValid : {t u : GrpcTransport} → PoolReach t u → IsValid t → IsValid u
reach-IsValid here v = v
reach-IsValid (next r s) v = step-IsValid s (reach-IsValid r v)

new_grpc_transport-IsValid : (peers : Dict String) → IsValid (new_grpc_transport peers)
unfolding new_grpc_transport Dict.get
new_grpc_transport-IsValid peers p c h = absurd (cc)

-- After any number of connects, drops and closes of a new transport, in any order, if the library
-- makes connections for the addresses that it is given, a connection that is handed out for a peer is
-- one that was made for the peer's configured address.
pub conn_for_target :
    (peers : Dict String) {t : GrpcTransport} (shutdown : Conn → Bool)
    (dial : String → Result Error Conn) (peer : String) (c : Conn)
    → PoolReach (new_grpc_transport peers) t
    → Targets dial
    → (conn_for shutdown dial peer t).1 ≡ ok c
    → Dict.get (conn_for shutdown dial peer t).0.peers peer ≡ some c.target
conn_for_target peers {t} shutdown dial peer c r law h =
    (conn_for-Connects shutdown dial peer t law
        (reach-IsValid r (new_grpc_transport-IsValid peers))).1
      c h

abbrev drop_found : String → Conn → GrpcTransport → Option Conn → GrpcTransport
drop_found peer observed t o = elim o [
  | none ↦ t
  | some cur ↦ if cur.pointer == observed.pointer then forget peer cur t else t
]

-- Dropping the connection that a call failed on leaves those of other peers, and leaves the pool as
-- it is if another call has put a newer connection in its place.
pub drop_conn_observed :
    (peer : String) (observed : Conn) (t : GrpcTransport)
    → ((p : String) → p ≢ peer → Dict.get (drop_conn peer observed t).conns p ≡ Dict.get t.conns p)
      × ((c : Conn)
          → Dict.get t.conns peer ≡ some c
          → c.pointer ≢ observed.pointer
          → drop_conn peer observed t ≡ t)
unfolding drop_conn forget
drop_conn_observed peer observed t = (
  λ p d.
      elim (Dict.get t.conns peer)
        as (λ o. Dict.get (drop_found peer observed t o).conns p ≡ Dict.get t.conns p) [
          | none ↦ refl
          | some cur ↦
              if-cases (λ (u : GrpcTransport). Dict.get u.conns p ≡ Dict.get t.conns p)
                (cur.pointer == observed.pointer) _ _
                (λ _. ground (arith, get-remove t.conns peer p, eq_iff peer p, d)) (λ _. refl)
        ],
  λ c e d.
      let newer : (c.pointer == observed.pointer) ≡ false = ground (arith, d) in
      ap (drop_found peer observed t) e ∙ rw newer refl,
)
