-- ===== src/Cmd/Kvctl/Retry.antt =====
-- cmd/kvctl/main.go: `withLeaderRetryUsing`, the search for the leader.
pub mod Search
pub mod Hints
pub mod Leader
use go_raft_kv.Prelude.{
  ℕ, zero, suc, ◌+◌, String, Bool, true, false, not, ◌&&◌, ◌||◌, Option, none, some, List, [], ◌∷◌,
  ◌++◌, if◌then◌else◌, str_eq, length, Result, ok, err,
}
use go_raft_kv.Api

-- What `leaderFrom` and `responseError` say of the responses of one type.
pub record Answers (T : Type 0) : Type 0 where
  pub leader_from : T → Result String (Bool × String)
  pub response_error : T → String

abbrev pub put_answers : Answers Api.PutResponse
put_answers = record {
  leader_from = λ r. ok (r.ok, r.leader_address);
  response_error = λ r. r.error;
}

abbrev pub get_answers : Answers Api.GetResponse
get_answers = record {
  leader_from = λ r. ok (r.ok, r.leader_address);
  response_error = λ r. r.error;
}

abbrev pub delete_answers : Answers Api.DeleteResponse
delete_answers = record {
  leader_from = λ r. ok (r.ok, r.leader_address);
  response_error = λ r. r.error;
}

abbrev pub cas_answers : Answers Api.CasResponse
cas_answers = record {
  leader_from = λ r. ok (r.ok, r.leader_address);
  response_error = λ r. r.error;
}

-- `queuedHints[addr]`
unfoldable pub queued : String → List String → Bool
queued a [] = false
queued a (h ∷ hints) = str_eq h a || queued a hints

-- After an attempt: the call returns, or the loop goes on with its queue, its hints and its last error.
pub data Attempt (T : Type 0) : Type 0 where
  returns : Result String T → Attempt T
  go_on : List String → List String → Option String → Attempt T

abbrev pub give_up : Option String → String
give_up none = "no reachable leader"
give_up (some e) = e

module _ {T : Type 0} (answers : Answers T) where
  unfoldable pub noted : T → Option String → Option String
  noted resp last_err =
      if str_eq (answers.response_error resp) ""
      then last_err
      else some (answers.response_error resp)

  -- A hint is queued if it is new and not the endpoint itself.
  unfoldable pub judge :
      String
      → List String
      → List String
      → Option String
      → T
      → Result String (Bool × String)
      → Attempt T
  unfolding queued noted
  judge endpoint queue hints last_err resp (err e) = returns (err e)
  judge endpoint queue hints last_err resp (ok (true, leader_addr)) = returns (ok resp)
  judge endpoint queue hints last_err resp (ok (false, leader_addr)) =
      if not (str_eq leader_addr "")
        && (not (str_eq leader_addr endpoint) && not (queued leader_addr hints))
      then go_on (queue ++ leader_addr ∷ []) (leader_addr ∷ hints) (noted resp last_err)
      else go_on queue hints (noted resp last_err)

  unfoldable pub take_response :
      String → List String → List String → Option String → Result String T → Attempt T
  unfolding judge
  take_response endpoint queue hints last_err (err e) = go_on queue hints (some e)
  take_response endpoint queue hints last_err (ok resp) =
      judge endpoint queue hints last_err resp (answers.leader_from resp)

-- `caller` is one call of an endpoint, over the state `W` of the world.
module _ {W T : Type 0} (answers : Answers T) (caller : W → String → W × Result String T) where
  unfoldable pub attempt : String → List String → List String → Option String → W → W × Attempt T
  unfolding take_response
  attempt endpoint queue hints last_err w =
      if str_eq endpoint ""
      then (w, go_on queue hints last_err)
      else let (w', r) = caller w endpoint in
        (w', take_response answers endpoint queue hints last_err r)

  abbrev pub follow :
      (List String → List String → Option String → W → W × Result String T)
      → W × Attempt T
      → W × Result String T
  follow rest (w, returns r) = (w, r)
  follow rest (w, go_on queue hints last_err) = rest queue hints last_err w

  -- The loop, with the attempts that are left.
  unfoldable pub retry : ℕ → List String → List String → Option String → W → W × Result String T
  unfolding attempt
  retry zero queue hints last_err w = (w, err (give_up last_err))
  retry (suc left) [] hints last_err w = (w, err (give_up last_err))
  retry (suc left) (endpoint ∷ queue) hints last_err w =
      follow (λ q h e u. retry left q h e u) (attempt endpoint queue hints last_err w)

  unfoldable pub with_leader_retry_using : List String → W → W × Result String T
  unfolding retry
  with_leader_retry_using endpoints w = retry (length endpoints + 5) endpoints [] none w
