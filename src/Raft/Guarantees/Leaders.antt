-- ===== src/Raft/Guarantees/Leaders.antt =====
-- `startElection` and `HandleRequestVote` of internal/raft/node.go in a cluster: the elections of one
-- term.
use mathlib.Core.List.{Perm}
use go_raft_kv.Prelude.{
  ℕ, suc, ◌+◌, ◌/◌, ◌≤◌, ◌≡◌, ◌≢◌, refl, ◌∙◌, subst, String, Bool, true, false, ◌||◌, arith, Option,
  none, some, List, [], ◌∷◌, map, length, str_eq, eq_iff, inl, inr, if-cases, is_some, Option-cases,
  Bool-cases,
}
use go_raft_kv.Raft.Types.{RequestVoteRequest, RequestVoteResponse, Store, StateMachine, Timer}
use go_raft_kv.Raft.Node.{Node, quorum, is_leader}
use go_raft_kv.Raft.Vote.{handle_request_vote}
use go_raft_kv.Raft.Election.{become_candidate, ask_votes, start_election, won, election_result}
use go_raft_kv.Raft.Progress.Frames.{save_cases}
use go_raft_kv.Raft.Guarantees.Lifetime.{Runs, Backs, one_vote}
use go_raft_kv.Raft.Guarantees.Vote.{Granted, handle_request_vote-Granted}
use go_raft_kv.Raft.Guarantees.Election.{grants, election_result_won}
use go_raft_kv.Raft.Guarantees.Quorum.{
  tally, tally_meet, keys, length-keys, members, Perm-tally, Perm-length,
}

-- Whether the reply is a granted vote; an error is `none`.
abbrev grants_vote : Option RequestVoteResponse → Bool
grants_vote none = false
grants_vote (some r) = r.vote_granted

-- The candidate itself and the peers that granted their vote.
abbrev backs : String → (String → Option RequestVoteResponse) → String → Bool
backs c results x = str_eq x c || grants_vote (results x)

grants-backs :
    (c : String) (results : String → Option RequestVoteResponse) (order : List String)
    → grants (map results order) ≤ tally (backs c results) order
grants-backs c results [] = omega arith
grants-backs c results (x ∷ order) =
    let rest = grants-backs c results order in
    elim (Option-cases (results x)) [
      | inl e ↦ rw e (ground arith)
      | inr (r, e) ↦ rw e (ground arith)
    ]

module _ {S M : Type 0} (st : Store S) where
  -- Who asks for votes is in the request's term and has voted for itself.
  abbrev Asked : Node S M × Option RequestVoteRequest → Type 0
  Asked r =
      (req : RequestVoteRequest)
      → r.1 ≡ some req
      → (r.0.current_term ≡ req.term) × (r.0.voted_for ≡ r.0.id) × (req.candidate_id ≡ r.0.id)

  none-Asked : (m : Node S M) → Asked (m, none)
  none-Asked m req h = absurd (ground arith)

  start_election-Asked : (t : Timer) (n : Node S M) → Asked (start_election st t n)
  unfolding start_election
  start_election-Asked t n =
      if-cases Asked (n.stopped || is_leader n.role || is_some n.storage_fatal) _ _
        (λ _. none-Asked n)
        λ _.
          save_cases st (λ r. Asked (ask_votes n r)) (become_candidate t n) n.commit_index
            (λ s _ req h. (cc, refl, cc)) (λ s e _ req h. absurd (ground arith))

module _ {S M : Type 0} (st : Store S) (sm : StateMachine M) (run : String → ℕ → Node S M) where
  -- An election that `c` wins, in a cluster with these members. The members are `c` and its peers, and
  -- its results come in the order `order`. A result is an error, or it is what the peer's handler
  -- answers in some state of the peer, and the next state of the peer is the one the handler leaves.
  abbrev pub Elected : List String → String → ℕ → Type 0
  Elected cluster c term = record {
    time : ℕ;
    timer : Timer;
    req : RequestVoteRequest;
    asked : start_election st timer (run c time) ≡ (run c (suc time), some req);
    in_term : req.term ≡ term;
    named : (run c (suc time)).id ≡ c;
    in_cluster : Perm (members (run c (suc time))) cluster;
    results : String → Option RequestVoteResponse;
    order : List String;
    all_peers : Perm order (keys (run c (suc time)).peer_addrs);
    answered :
        (x : String) (r : RequestVoteResponse)
        → results x ≡ some r
        → (i : ℕ) × (t : Timer) × (handle_request_vote st t req (run x i) ≡ (run x (suc i), r));
    wins : election_result (quorum (run c (suc time))) req.term (map results order) ≡ won;
  }

  module _ (cluster : List String) (c : String) (term : ℕ) (e : Elected cluster c term) where
    quorum_backs : length cluster / 2 + 1 ≤ tally (backs c e.results) cluster
    unfolding quorum
    quorum_backs =
        let m = run c (suc e.time) in
        let p = backs c e.results in
        let granted = election_result_won (quorum m) e.req.term (map e.results e.order) e.wins in
        let backed = grants-backs c e.results e.order in
        let same = Perm-tally p e.all_peers in
        let total = Perm-tally p e.in_cluster in
        let size = Perm-length e.in_cluster in
        let peers = length-keys m.peer_addrs in
        let self : p m.id ≡ true = ground (arith, eq_iff m.id c, e.named) in
        ground (arith, granted, backed, same, total, size, peers, self)

    for_itself :
        ((run c (suc e.time)).current_term ≡ e.req.term)
        × ((run c (suc e.time)).voted_for ≡ (run c (suc e.time)).id)
        × (e.req.candidate_id ≡ (run c (suc e.time)).id)
    for_itself =
        subst (Asked st) e.asked (start_election-Asked st e.timer (run c e.time)) e.req refl

    granted-Backs :
        (x : String) (r : RequestVoteResponse)
        → e.results x ≡ some r
        → r.vote_granted ≡ true
        → Backs st sm run x c term
    granted-Backs x r answer gave =
        let (i, t, handled) = e.answered x r answer in
        let g =
          subst
            (λ (s : Node S M × RequestVoteResponse).
              s.1.vote_granted ≡ true → Granted st e.req (run x i) s.0)
            handled (handle_request_vote-Granted st t e.req (run x i)) gave in
        (suc i, g.in_term ∙ e.in_term, g.voted ∙ for_itself.2 ∙ e.named)

    -- Who backs the candidate has at some time voted for it in the term.
    backs-Backs : (x : String) → backs c e.results x ≡ true → Backs st sm run x c term
    backs-Backs x h = elim (Bool-cases (str_eq x c)) [
      | inl itself ↦
          let same : c ≡ x = ground (arith, eq_iff x c, itself) in
          subst (λ x. Backs st sm run x c term) same
            (suc e.time, for_itself.0 ∙ e.in_term, for_itself.1 ∙ e.named)
      | inr other ↦ elim (Option-cases (e.results x)) [
        | inl failed ↦ absurd (ground (arith, h, other, failed))
        | inr (r, answer) ↦ granted-Backs x r answer (ground (arith, h, other, answer))
      ]
    ]

  -- In a cluster whose members start valid and then take steps, or crash and start again from a store
  -- with a contiguous log and a hard state that is not behind the node, two candidates that win an
  -- election of the same term are the same, if each reply that was counted is one that the peer's
  -- handler gave to the candidate's request, and neither candidate has the empty name.
  pub election_safety :
      (cluster : List String) (a b : String) (term : ℕ)
      → Runs st sm run
      → a ≢ ""
      → b ≢ ""
      → Elected cluster a term
      → Elected cluster b term
      → a ≡ b
  election_safety cluster a b term runs named_a named_b ea eb =
      let (x, _, for_a, for_b) =
        tally_meet (backs a ea.results) (backs b eb.results) cluster
          (omega (arith, quorum_backs cluster a term ea, quorum_backs cluster b term eb)) in
      one_vote st sm run runs x a b term named_a named_b (backs-Backs cluster a term ea x for_a)
        (backs-Backs cluster b term eb x for_b)
