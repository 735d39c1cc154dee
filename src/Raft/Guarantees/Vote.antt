-- ===== src/Raft/Guarantees/Vote.antt =====
-- When `HandleRequestVote` of internal/raft/node.go grants a vote.
use go_raft_kv.Prelude.{
  ◌≤◌, ◌<◌, ◌≡◌, refl, ◌∙◌, ◌⊎◌, inl, inr, true, false, ◌&&◌, arith, none, some, ltb, if-cases,
  eq_iff,
}
use go_raft_kv.Storage.Types.{HardState}
use go_raft_kv.Raft.Types.{RequestVoteRequest, RequestVoteResponse, Store, Timer}
use go_raft_kv.Raft.Log.{last_index, last_term}
use go_raft_kv.Raft.Node.{Node, reset_election, turns_away, is_known_remote_peer}
use go_raft_kv.Raft.Vote.{
  can_vote, up_to_date, refuse_vote, cast_vote, vote_in_term, handle_request_vote,
}
use go_raft_kv.Raft.Progress.{SameLog, SameLog-refl, SameLog-trans}
use go_raft_kv.Raft.Progress.Frames.{save_cases, become_cases, Saved, become_follower-Saved}

-- The candidate's log is not behind: a later last term, or the same and at least the last index.
abbrev pub NotBehind : {S M : Type 0} → RequestVoteRequest → Node S M → Type 0
NotBehind req n =
    (last_term n.snapshot n.log < req.last_log_term)
    ⊎ ((req.last_log_term ≡ last_term n.snapshot n.log)
        × (last_index n.snapshot n.log ≤ req.last_log_index))

-- What a granted vote means: `n` is the node before the request and `m` after it.
abbrev pub Granted : {S M : Type 0} → Store S → RequestVoteRequest → Node S M → Node S M → Type 0
Granted {S} st req n m = record {
  live : (n.stopped ≡ false) × (n.storage_fatal ≡ none);
  known : is_known_remote_peer n req.candidate_id ≡ true;
  not_old : n.current_term ≤ req.term;
  in_term : m.current_term ≡ req.term;
  voted : m.voted_for ≡ req.candidate_id;
  free : n.current_term ≡ req.term → (n.voted_for ≡ "") ⊎ (n.voted_for ≡ req.candidate_id);
  not_behind : NotBehind req n;
  same_log : SameLog n m;
  saved : record {
    before : S;
    from : (before ≡ n.store) ⊎ ((h : HardState) × (st.save_hard_state n.store h ≡ (before, none)));
    written :
        st.save_hard_state before (record {
          current_term = req.term;
          voted_for = req.candidate_id;
          commit_index = n.commit_index;
        })
        ≡ (m.store, none);
  };
}

module _ {S M : Type 0} (st : Store S) (t : Timer) (req : RequestVoteRequest) where
  -- The conditions under which `cast_vote` grants.
  abbrev CastGranted : Node S M → Node S M → Type 0
  CastGranted n m = record {
    in_term : m.current_term ≡ n.current_term;
    voted : m.voted_for ≡ req.candidate_id;
    free : (n.voted_for ≡ "") ⊎ (n.voted_for ≡ req.candidate_id);
    not_behind : NotBehind req n;
    same_log : SameLog n m;
    saved :
        st.save_hard_state n.store (record {
          current_term = n.current_term;
          voted_for = req.candidate_id;
          commit_index = n.commit_index;
        })
        ≡ (m.store, none);
  }

  cast_vote_granted :
      (n : Node S M)
      → (cast_vote st t req n).1.vote_granted ≡ true
      → CastGranted n (cast_vote st t req n).0
  unfolding cast_vote can_vote up_to_date reset_election
  cast_vote_granted n =
      if-cases (λ (r : Node S M × RequestVoteResponse). r.1.vote_granted ≡ true → CastGranted n r.0)
        (can_vote n req && up_to_date n req) _ _
        (λ h.
          save_cases st
            (λ r.
              (let x : Node S M × RequestVoteResponse = elim r.1 [
                | some e ↦ refuse_vote (record r.0 { voted_for = n.voted_for })
                | none ↦
                    let done = reset_election t r.0 in
                    (done, record { term = done.current_term; vote_granted = true })
              ] in
                x.1.vote_granted ≡ true → CastGranted n x.0))
            (record n { voted_for = req.candidate_id }) n.commit_index
            (λ s written _. record {
              in_term = refl;
              voted = refl;
              free = ground (arith, eq_iff n.voted_for "", eq_iff n.voted_for req.candidate_id);
              not_behind = ground arith;
              same_log = record {
                snapshot = refl;
                log = refl;
                commit_index = refl;
                last_applied = refl;
              };
              saved = written;
            })
            (λ s e _ no_vote. absurd (ground arith)))
        (λ _ no_vote. absurd (ground arith))

  live_peer : (n : Node S M) → turns_away n req.candidate_id req.term ≡ false → record {
    live : (n.stopped ≡ false) × (n.storage_fatal ≡ none);
    known : is_known_remote_peer n req.candidate_id ≡ true;
    not_old : n.current_term ≤ req.term;
  }
  unfolding turns_away
  live_peer n h = record {
    live = (ground arith, ground arith);
    known = ground arith;
    not_old = ground arith;
  }

  -- `m` is the node when the vote is cast, and `o` the node after it.
  Granted-from :
      (n m o : Node S M)
      → turns_away n req.candidate_id req.term ≡ false
      → SameLog n m
      → m.current_term ≡ req.term
      → (n.current_term ≡ req.term → n.voted_for ≡ m.voted_for)
      → (m.store ≡ n.store) ⊎ ((h : HardState) × (st.save_hard_state n.store h ≡ (m.store, none)))
      → CastGranted m o
      → Granted st req n o
  Granted-from n m o h same now kept from c =
      let l = live_peer n h in
      record {
        live = l.live;
        known = l.known;
        not_old = l.not_old;
        in_term = c.in_term ∙ now;
        voted = c.voted;
        free = λ e. rw (kept e) c.free;
        not_behind = rw (same.snapshot, same.log) at c.not_behind;
        same_log = SameLog-trans n m o same c.same_log;
        saved = record {
          before = m.store;
          from = from;
          written = rw (now, same.commit_index) at c.saved;
        };
      }

  -- A node grants a vote only if it runs, knows the candidate, is not in a later term, has no other
  -- vote in the request's term and is not ahead of the candidate's log; it has then moved to that
  -- term, and has saved the term and the vote without an error before it answers.
  pub handle_request_vote-Granted :
      (n : Node S M)
      → (handle_request_vote st t req n).1.vote_granted ≡ true
      → Granted st req n (handle_request_vote st t req n).0
  unfolding handle_request_vote
  handle_request_vote-Granted n =
      let P : Node S M × RequestVoteResponse → Type 0 =
        λ r. r.1.vote_granted ≡ true → Granted st req n r.0 in
      if-cases P (turns_away n req.candidate_id req.term) _ _ (λ _ no_vote. absurd (ground arith))
        λ h.
          if-cases P (ltb n.current_term req.term) _ _
            (λ higher.
              become_cases st (λ r. (r.1 ≡ none → Saved st n r.0) → P (vote_in_term st req t r)) t
                false req.term "" n
                (λ m f at saved granted.
                  Granted-from n m (cast_vote st t req m).0 h f.0 (ground arith)
                    (λ same. absurd (ground arith)) (inr (saved refl))
                    (cast_vote_granted m granted))
                (λ m e f _ no_vote. absurd (ground arith))
                (become_follower-Saved st t false req.term "" n))
            (λ not_higher granted.
              Granted-from n n (cast_vote st t req n).0 h (SameLog-refl n)
                (ground (arith, (live_peer n h).not_old)) (λ _. refl) (inl refl)
                (cast_vote_granted n granted))
