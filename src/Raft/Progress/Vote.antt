-- ===== src/Raft/Progress/Vote.antt =====
-- `HandleRequestVote` of internal/raft/node.go keeps the log, and a vote within its term.
use go_raft_kv.Prelude.{◌≡◌, true, false, ◌&&◌, arith, none, some, ltb, if-cases, eq_iff}
use native.Mathlib.Nat.{le_refl}
use go_raft_kv.Raft.Types.{RequestVoteRequest, RequestVoteResponse, Store, Timer}
use go_raft_kv.Raft.Node.{Node, reset_election, turns_away}
use go_raft_kv.Raft.Vote.{
  can_vote, up_to_date, refuse_vote, cast_vote, vote_in_term, handle_request_vote,
}
use go_raft_kv.Raft.Progress.{Keeps, SameLog-refl}
use go_raft_kv.Raft.Progress.Frames.{
  Frame, Frame-refl, Frame-trans, Frame-Keeps, save_cases, become_cases,
}

module _ {S M : Type 0} (st : Store S) (t : Timer) (req : RequestVoteRequest) where
  voted-Frame :
      (n : Node S M)
      → (can_vote n req && up_to_date n req) ≡ true
      → Frame n (record n { voted_for = req.candidate_id })
  unfolding can_vote
  voted-Frame n h = (
    SameLog-refl n,
    record {
      terms = le_refl _;
      votes = λ _ v. ground (arith, eq_iff n.voted_for "", eq_iff n.voted_for req.candidate_id);
    },
  )

  pub cast_vote-Frame : (n : Node S M) → Frame n (cast_vote st t req n).0
  unfolding cast_vote
  cast_vote-Frame n =
      if-cases (λ (r : Node S M × RequestVoteResponse). Frame n r.0)
        (can_vote n req && up_to_date n req) _ _
        (λ h.
          save_cases st
            (λ r. Frame n (
              let x : Node S M × RequestVoteResponse = elim r.1 [
                | some e ↦ refuse_vote (record r.0 { voted_for = n.voted_for })
                | none ↦
                    let done = reset_election t r.0 in
                    (done, record { term = done.current_term; vote_granted = true })
              ] in
              x.0))
            (record n { voted_for = req.candidate_id }) n.commit_index (λ s _. voted-Frame n h)
            (λ s e _. Frame-refl n))
        (λ _. Frame-refl n)

  pub handle_request_vote-Frame : (n : Node S M) → Frame n (handle_request_vote st t req n).0
  unfolding handle_request_vote
  handle_request_vote-Frame n =
      let P : Node S M × RequestVoteResponse → Type 0 = λ r. Frame n r.0 in
      if-cases P (turns_away n req.candidate_id req.term) _ _ (λ _. Frame-refl n)
        λ _.
          if-cases P (ltb n.current_term req.term) _ _
            (λ _.
              become_cases st (λ r. P (vote_in_term st req t r)) t false req.term "" n
                (λ m f _. Frame-trans n m (cast_vote st t req m).0 f (cast_vote-Frame m))
                (λ m e f. f))
            (λ _. cast_vote-Frame n)

  pub handle_request_vote-Keeps : (n : Node S M) → Keeps n (handle_request_vote st t req n).0
  handle_request_vote-Keeps n =
      Frame-Keeps n (handle_request_vote st t req n).0 (handle_request_vote-Frame n)
