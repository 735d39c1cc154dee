-- ===== src/Raft/Election.antt =====
-- internal/raft/node.go: `startElection` and `becomeLeader`. The vote requests run without the
-- lock, so `start_election`, the counting of the replies and `become_leader` are separate steps.
use go_raft_kv.Prelude.{
  ℕ, ◌+◌, String, false, not, ◌||◌, Option, none, some, List, [], ◌∷◌, ◌++◌, ltb, leb, ◌==◌,
  if◌then◌else◌, is_some, str_eq,
}
use go_raft_kv.Prelude.Dict
use go_raft_kv.Prelude.Word.{inc64}
use go_raft_kv.Storage.Types.{op_noop, LogEntry}
use go_raft_kv.Raft.Types.{
  candidate, leader, RequestVoteRequest, RequestVoteResponse, Error, Store, Timer,
}
use go_raft_kv.Raft.Log.{last_index, last_term}
use go_raft_kv.Raft.Node.{
  Node, is_leader, is_candidate, quorum, reset_election, fail_storage, update,
}
use go_raft_kv.Raft.Persist.{persist_hard_state, become_follower}
use go_raft_kv.Raft.Commit.{advance_commit}

module _ {S M : Type 0} where
  -- The candidate that is about to be saved.
  unfoldable pub become_candidate : Timer → Node S M → Node S M
  unfolding reset_election
  become_candidate t n = reset_election t (record n {
    role = candidate;
    current_term = inc64 n.current_term;
    voted_for = n.id;
    leader_id = "";
    leader_noop_index = 0;
  })

  -- A failed save puts the old role, term, vote, leader and deadline back.
  unfoldable pub ask_votes :
      Node S M → Node S M × Option Error → Node S M × Option RequestVoteRequest
  ask_votes old (n, some e) = (
    record n {
      role = old.role;
      current_term = old.current_term;
      voted_for = old.voted_for;
      leader_id = old.leader_id;
      election_due = old.election_due;
    },
    none,
  )
  ask_votes old (n, none) = (
    n,
    some (record {
      term = n.current_term;
      candidate_id = n.id;
      last_log_index = last_index n.snapshot n.log;
      last_log_term = last_term n.snapshot n.log;
    }),
  )

module _ {S M : Type 0} (st : Store S) where
  -- The first critical section: `none` is an early return, else the request for the peers.
  unfoldable pub start_election : Timer → Node S M → Node S M × Option RequestVoteRequest
  unfolding persist_hard_state become_candidate ask_votes
  start_election t n =
      if n.stopped || is_leader n.role || is_some n.storage_fatal
      then (n, none)
      else ask_votes n (persist_hard_state st (become_candidate t n))

  unfoldable pub step_down : Timer → ℕ → String → Node S M → Node S M
  unfolding become_follower
  step_down t term leader_id n = (become_follower st t term leader_id n).0

abbrev pub noop : ℕ → ℕ → LogEntry
noop index term = record {
  index = index;
  term = term;
  command = record { op = op_noop; key = ""; value = ""; expected = "" };
}

-- What the candidate does with the replies: nothing, step down to a term, or lead.
pub data Verdict : Type 0 where
  lost : Verdict
  outdated : ℕ → Verdict
  won : Verdict

-- The loop over the results; a reply that is an error is `none`.
unfoldable pub count_votes : ℕ → ℕ → ℕ → List (Option RequestVoteResponse) → Verdict
count_votes quorum term votes [] = lost
count_votes quorum term votes (none ∷ results) = count_votes quorum term votes results
count_votes quorum term votes (some r ∷ results) =
    let refused = count_votes quorum term votes results in
    let granted = count_votes quorum term (votes + 1) results in
    if ltb term r.term
    then outdated r.term
    else if r.vote_granted
    then if leb quorum (votes + 1) then won else granted
    else refused

-- With a quorum of 1 no request is sent.
unfoldable pub election_result : ℕ → ℕ → List (Option RequestVoteResponse) → Verdict
unfolding count_votes
election_result quorum term results = if quorum == 1 then won else count_votes quorum term 1 results

module _ {S M : Type 0} where
  -- The leader before its no-op is written.
  unfoldable pub start_leading : Node S M → Node S M
  start_leading n =
      let last = last_index n.snapshot n.log in
      record n {
        role = leader;
        leader_id = n.id;
        next_index = λ peer.
            if is_some (Dict.get n.peer_addrs peer) || str_eq peer n.id then inc64 last else 0;
        match_index = update (λ _. 0) n.id last;
        replicating = λ _. false;
      }

  abbrev pub with_noop : LogEntry → Node S M → Node S M
  with_noop entry n = record n {
    log = n.log ++ entry ∷ [];
    leader_noop_index = entry.index;
    match_index = update n.match_index n.id entry.index;
    next_index = update n.next_index n.id (inc64 entry.index);
  }

module _ {S M : Type 0} (st : Store S) where
  -- What follows the write of the no-op.
  unfoldable pub lead_with : Timer → LogEntry → Node S M → S × Option Error → Node S M
  unfolding fail_storage advance_commit
  lead_with t entry n (s, some e) = fail_storage t e (record n { store = s })
  lead_with t entry n (s, none) = advance_commit st t (with_noop entry (record n { store = s }))

  -- The critical section of `becomeLeader`.
  unfoldable pub become_leader : Timer → ℕ → Node S M → Node S M
  unfolding start_leading lead_with
  become_leader t term n =
      if n.stopped || not (is_candidate n.role) || not (n.current_term == term)
      then n
      else (let entry = noop (inc64 (last_index n.snapshot n.log)) term in
          lead_with t entry (start_leading n) (st.append_entries n.store (entry ∷ [])))

  unfoldable pub finish_election : Timer → ℕ → Verdict → Node S M → Node S M
  unfolding become_leader step_down
  finish_election t term lost n = n
  finish_election t term (outdated seen) n = step_down st t seen "" n
  finish_election t term won n = become_leader t term n
