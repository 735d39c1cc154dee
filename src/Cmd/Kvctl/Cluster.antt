-- ===== src/Cmd/Kvctl/Cluster.antt =====
-- cmd/kvctl/main.go with internal/server/service.go: a `put` of the client on a cluster of nodes.
use go_raft_kv.Prelude.{
  ◌≡◌, ◌≢◌, ◌⊎◌, inl, inr, refl, ap, ◌∙◌, String, Bool, true, false, Option, none, some, List, [],
  ◌∷◌, All, Result, ok, err,
}
use go_raft_kv.Api
use go_raft_kv.Raft.Types.{not_leader, Store, Timer}
use go_raft_kv.Raft.Node.{Node, is_leader, leader_address}
use go_raft_kv.Raft.Errors.{error_text}
use go_raft_kv.Raft.Propose.{Wakeup}
use go_raft_kv.Server.Service
use go_raft_kv.Server.Service.Answers.{write_not_leader}
use go_raft_kv.Cmd.Kvctl.{Client, put, put_line}
use go_raft_kv.Cmd.Kvctl.Retry.{put_answers, with_leader_retry_using}
use go_raft_kv.Cmd.Kvctl.Retry.Search.{IsOk}
use go_raft_kv.Cmd.Kvctl.Retry.Hints.{Reply, fails, serves, lost, points, SomePoints}
use go_raft_kv.Cmd.Kvctl.Retry.Leader.{calling, with_leader_retry_using_finds}

module _ {S M : Type 0} (st : Store S) (ctx : String) (t : Timer) (w : Wakeup)
    (nodes : String → Option (Node S M)) where
  -- The service at an address, or no connection.
  unfoldable pub answer_put : String → Api.PutRequest → Result String Api.PutResponse
  answer_put e req = elim (nodes e) [
    | none ↦ err "unavailable"
    | some n ↦ ok (Service.put st ctx t req w n).1
  ]

  -- A running node that follows.
  abbrev pub Follows : Node S M → Type 0
  Follows n = (n.stopped ≡ false) × (n.storage_fatal ≡ none) × (is_leader n.role ≡ false)

  -- What there can be at an endpoint: nothing, a follower that knows no leader or the one at `h`, or a
  -- node that accepts the request.
  pub data Member (h : String) (req : Api.PutRequest) (e : String) : Type 0 where
    down : nodes e ≡ none → Member h req e
    follows :
        (n : Node S M)
        → nodes e ≡ some n
        → Follows n
        → (leader_address n ≡ "") ⊎ (leader_address n ≡ h)
        → Member h req e
    accepts :
        (n : Node S M)
        → nodes e ≡ some n
        → (Service.put st ctx t req w n).1.ok ≡ true
        → Member h req e

  abbrev pub Knows : String → String → Type 0
  Knows h e = (e ≢ "") × (n : Node S M) × (nodes e ≡ some n) × Follows n × (leader_address n ≡ h)

  abbrev pub SomeKnows : String → List String → Type 0
  SomeKnows h [] = ⊥
  SomeKnows h (e ∷ es) = Knows h e ⊎ SomeKnows h es

  abbrev refusal : Node S M → Api.PutResponse
  refusal n = record {
    ok = false;
    error = error_text ctx (not_leader n.leader_id (leader_address n));
    leader_id = n.leader_id;
    leader_address = leader_address n;
  }

  abbrev outcome_at : Api.PutRequest → Option (Node S M) → Result String Api.PutResponse
  outcome_at req o = elim o [
    | none ↦ err "unavailable"
    | some n ↦ ok (Service.put st ctx t req w n).1
  ]

  refused :
      (req : Api.PutRequest) (e : String) (n : Node S M)
      → nodes e ≡ some n
      → Follows n
      → answer_put e req ≡ ok (refusal n)
  unfolding answer_put
  refused req e n there (runs, sound, follower) =
      ap (outcome_at req) there
      ∙ ap (λ (x : Node S M × Api.PutResponse). ok x.1)
          (write_not_leader st ctx t w n req (record { key = "" })
            (record { key = ""; expected = ""; value = "" }) runs sound follower).0

  reply :
      (h : String) (req : Api.PutRequest) (e : String)
      → Member h req e
      → Reply put_answers (λ a. answer_put a req) h e
  unfolding answer_put
  reply h req e (down gone) = fails "unavailable" (ap (outcome_at req) gone)
  reply h req e (follows n there f (inl unknown)) =
      lost (refusal n) (refused req e n there f) (ap (λ (a : String). ok (false, a)) unknown)
  reply h req e (follows n there f (inr known)) =
      points (refusal n) (refused req e n there f) (ap (λ (a : String). ok (false, a)) known)
  reply h req e (accepts n there good) =
      serves (Service.put st ctx t req w n).1 (Service.put st ctx t req w n).1.leader_address
        (ap (outcome_at req) there)
        (ap (λ (b : Bool). ok (b, (Service.put st ctx t req w n).1.leader_address)) good)

  replies :
      (h : String) (req : Api.PutRequest) (es : List String)
      → All (Member h req) es
      → All (Reply put_answers (λ a. answer_put a req) h) es
  replies h req [] all = tt
  replies h req (e ∷ es) (m, all) = (reply h req e m, replies h req es all)

  some_points :
      (h : String) (req : Api.PutRequest) (es : List String)
      → SomeKnows h es
      → SomePoints put_answers (λ a. answer_put a req) h es
  some_points h req [] k = k
  some_points h req (e ∷ es) (inl (d, n, there, f, known)) =
      inl (d, refusal n, refused req e n there f, ap (λ (a : String). ok (false, a)) known)
  some_points h req (e ∷ es) (inr k) = inr (some_points h req es k)

  put_line_ok :
      (x : Result String Api.PutResponse) (r : Api.PutResponse)
      → x ≡ ok r
      → IsOk put_answers r
      → put_line x ≡ ok "OK"
  unfolding put_line
  put_line_ok (err e) r p good = absurd (cc)
  put_line_ok (ok s) r p (a, good) = let yes : s.ok ≡ true = cc in rw yes refl

  -- On a cluster where each endpoint is unreachable, follows while it knows no leader or the one at `h`,
  -- or accepts the request, where one endpoint follows and knows the leader at `h`, and where the node at
  -- `h` accepts the request, `kvctl put` prints OK: the hint of the service is what the client needs.
  pub put_reaches_leader :
      (client : Client (Unit {0})) (endpoints : List String) (key value h : String) (n₀ : Node S M)
      → ((u : Unit {0}) (e : String) (req : Api.PutRequest)
          → client.put u e req ≡ (tt, answer_put e req))
      → nodes h ≡ some n₀
      → (Service.put st ctx t (record { key = key; value = value }) w n₀).1.ok ≡ true
      → h ≢ ""
      → All (Member h (record { key = key; value = value })) endpoints
      → SomeKnows h endpoints
      → (put client endpoints key value tt).1 ≡ ok "OK"
  unfolding put answer_put
  put_reaches_leader client endpoints key value h n₀ calls there good named all knows =
      let req : Api.PutRequest = record { key = key; value = value } in
      let caller : Unit {0} → String → Unit {0} × Result String Api.PutResponse =
        λ u e. client.put u e req in
      let same : caller ≡ calling put_answers (λ a. answer_put a req) h =
        λ i u e. calls u e req i in
      let (r, found, well) =
        with_leader_retry_using_finds put_answers (λ a. answer_put a req) h endpoints tt
          (Service.put st ctx t req w n₀).1 (Service.put st ctx t req w n₀).1.leader_address
          (ap (outcome_at req) there)
          (ap (λ (b : Bool). ok (b, (Service.put st ctx t req w n₀).1.leader_address)) good) named
          (replies h req endpoints all) (some_points h req endpoints knows) in
      put_line_ok _ r
        (ap
            (λ (c : Unit {0} → String → Unit {0} × Result String Api.PutResponse).
              (with_leader_retry_using put_answers c endpoints tt).1)
            same
          ∙ found)
        well
