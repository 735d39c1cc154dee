-- ===== src/Raft/Vote.antt =====
-- internal/raft/node.go: `HandleRequestVote`.
use go_raft_kv.Prelude.{
  Bool, true, false, ◌&&◌, ◌||◌, Option, none, some, ltb, leb, ◌==◌, if◌then◌else◌, str_eq,
}
use go_raft_kv.Raft.Types.{RequestVoteRequest, RequestVoteResponse, Error, Store, Timer}
use go_raft_kv.Raft.Log.{last_index, last_term}
use go_raft_kv.Raft.Node.{Node, turns_away, reset_election}
use go_raft_kv.Raft.Persist.{persist_hard_state, become_follower_for_vote}

module _ {S M : Type 0} where
  abbrev pub refuse_vote : Node S M → Node S M × RequestVoteResponse
  refuse_vote n = (n, record { term = n.current_term; vote_granted = false })

  unfoldable pub can_vote : Node S M → RequestVoteRequest → Bool
  can_vote n req = str_eq n.voted_for "" || str_eq n.voted_for req.candidate_id

  unfoldable pub up_to_date : Node S M → RequestVoteRequest → Bool
  up_to_date n req =
      let term = last_term n.snapshot n.log in
      ltb term req.last_log_term
      || (req.last_log_term == term && leb (last_index n.snapshot n.log) req.last_log_index)

module _ {S M : Type 0} (st : Store S) where
  -- The part behind the comparison of terms.
  unfoldable pub cast_vote : Timer → RequestVoteRequest → Node S M → Node S M × RequestVoteResponse
  unfolding can_vote up_to_date persist_hard_state reset_election
  cast_vote t req n =
      if can_vote n req && up_to_date n req
      then (let (saved, err) = persist_hard_state st (record n { voted_for = req.candidate_id }) in
          elim err [
            | some e ↦ refuse_vote (record saved { voted_for = n.voted_for })
            | none ↦
                let done = reset_election t saved in
                (done, record { term = done.current_term; vote_granted = true })
          ])
      else refuse_vote n

  unfoldable pub vote_in_term :
      RequestVoteRequest → Timer → Node S M × Option Error → Node S M × RequestVoteResponse
  unfolding cast_vote
  vote_in_term req t (n, some e) = refuse_vote n
  vote_in_term req t (n, none) = cast_vote t req n

  unfoldable pub handle_request_vote :
      Timer → RequestVoteRequest → Node S M → Node S M × RequestVoteResponse
  unfolding turns_away become_follower_for_vote vote_in_term
  handle_request_vote t req n =
      if turns_away n req.candidate_id req.term
      then refuse_vote n
      else if ltb n.current_term req.term
      then vote_in_term req t (become_follower_for_vote st t req.term n)
      else cast_vote t req n
