-- ===== src/Raft/Guarantees/Election.antt =====
-- When `startElection` of internal/raft/node.go lets the candidate lead.
use go_raft_kv.Prelude.{
  ℕ, ◌+◌, ◌≤◌, ◌≡◌, ◌≢◌, arith, Option, none, some, List, [], ◌∷◌, if◌then◌else◌, ltb, leb, ◌==◌,
  if-cases,
}
use go_raft_kv.Raft.Types.{RequestVoteResponse}
use go_raft_kv.Raft.Election.{Verdict, lost, outdated, won, count_votes, election_result}

-- The votes that were granted to the candidate.
abbrev pub grants : List (Option RequestVoteResponse) → ℕ
grants [] = 0
grants (none ∷ results) = grants results
grants (some r ∷ results) = (if r.vote_granted then 1 else 0) + grants results

not_lost : lost ≢ won
not_lost h = cc

not_outdated : (term : ℕ) → outdated term ≢ won
not_outdated term h = cc

count_votes_won :
    (quorum term votes : ℕ) (results : List (Option RequestVoteResponse))
    → count_votes quorum term votes results ≡ won
    → quorum ≤ votes + grants results
unfolding count_votes
count_votes_won quorum term votes [] h = absurd (not_lost h)
count_votes_won quorum term votes (none ∷ results) h = count_votes_won quorum term votes results h
count_votes_won quorum term votes (some r ∷ results) decided =
    let P : Verdict → Type 0 = λ v. v ≡ won → quorum ≤ votes + grants (some r ∷ results) in
    (if-cases P (ltb term r.term) _ _ (λ _ h. absurd (not_outdated r.term h))
        λ _.
          if-cases P r.vote_granted _ _
            (λ granted.
              if-cases P (leb quorum (votes + 1)) _ _ (λ enough _. ground arith)
                (λ _ h.
                  let rest = count_votes_won quorum term (votes + 1) results h in ground arith))
            (λ refused h. let rest = count_votes_won quorum term votes results h in ground arith))
      decided

-- The candidate leads only with a quorum of votes, its own counted once and each granted reply once.
pub election_result_won :
    (quorum term : ℕ) (results : List (Option RequestVoteResponse))
    → election_result quorum term results ≡ won
    → quorum ≤ 1 + grants results
unfolding election_result
election_result_won quorum term results =
    let P : Verdict → Type 0 = λ v. v ≡ won → quorum ≤ 1 + grants results in
    if-cases P (quorum == 1) _ _ (λ alone _. ground arith)
      (λ _ h. count_votes_won quorum term 1 results h)
