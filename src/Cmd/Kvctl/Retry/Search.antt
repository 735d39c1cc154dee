-- ===== src/Cmd/Kvctl/Retry/Search.antt =====
-- cmd/kvctl/main.go: what `withLeaderRetryUsing` gives, how many calls it makes, and when it finds the
-- leader.
use go_raft_kv.Prelude.{
  ℕ, zero, suc, ◌+◌, ◌≤◌, ◌≡◌, refl, subst, String, Bool, true, false, not, ◌&&◌, Option, none,
  List, [], ◌∷◌, ◌++◌, if-cases, arith, str_eq, length, length-append, Result, ok, err,
}
use native.Mathlib.Nat.{le_trans}
use go_raft_kv.Cmd.Kvctl.Retry.{
  Answers, Attempt, returns, go_on, queued, judge, take_response, attempt, follow, retry,
  with_leader_retry_using,
}

module _ {T : Type 0} (answers : Answers T) where
  -- A response with OK.
  abbrev pub IsOk : T → Type 0
  IsOk r = (a : String) × (answers.leader_from r ≡ ok (true, a))

  abbrev EndsWell : Attempt T → Type 0
  EndsWell (returns (ok r)) = IsOk r
  EndsWell (returns (err e)) = Unit
  EndsWell (go_on q h e) = Unit

  judge-EndsWell :
      (endpoint : String) (queue hints : List String) (last_err : Option String) (resp : T)
      (j : Result String (Bool × String))
      → answers.leader_from resp ≡ j
      → EndsWell (judge answers endpoint queue hints last_err resp j)
  unfolding judge
  judge-EndsWell endpoint queue hints last_err resp (err e) p = tt
  judge-EndsWell endpoint queue hints last_err resp (ok (true, a)) p = (a, p)
  judge-EndsWell endpoint queue hints last_err resp (ok (false, a)) p =
      if-cases EndsWell (not (str_eq a "") && (not (str_eq a endpoint) && not (queued a hints))) _ _
        (λ _. tt) (λ _. tt)

  take_response-EndsWell :
      (endpoint : String) (queue hints : List String) (last_err : Option String)
      (r : Result String T)
      → EndsWell (take_response answers endpoint queue hints last_err r)
  unfolding take_response
  take_response-EndsWell endpoint queue hints last_err (err e) = tt
  take_response-EndsWell endpoint queue hints last_err (ok resp) =
      judge-EndsWell endpoint queue hints last_err resp (answers.leader_from resp) refl

module _ {W T : Type 0} (answers : Answers T) (caller : W → String → W × Result String T) where
  attempt-EndsWell :
      (endpoint : String) (queue hints : List String) (last_err : Option String) (w : W)
      → EndsWell answers (attempt answers caller endpoint queue hints last_err w).1
  unfolding attempt
  attempt-EndsWell endpoint queue hints last_err w =
      if-cases (λ (x : W × Attempt T). EndsWell answers x.1) (str_eq endpoint "") _ _ (λ _. tt)
        (λ _. take_response-EndsWell answers endpoint queue hints last_err (caller w endpoint).1)

  follow_ok :
      (rest : List String → List String → Option String → W → W × Result String T)
      (x : W × Attempt T) (r : T)
      → EndsWell answers x.1
      → ((q h : List String) (e : Option String) (w : W) → (rest q h e w).1 ≡ ok r → IsOk answers r)
      → (follow answers caller rest x).1 ≡ ok r
      → IsOk answers r
  follow_ok rest (w, returns (ok s)) r well sound h =
      let same : s ≡ r = cc in subst (IsOk answers) same well
  follow_ok rest (w, returns (err e)) r well sound h = absurd (cc)
  follow_ok rest (w, go_on q hs e) r well sound h = sound q hs e w h

  retry_ok :
      (left : ℕ) (queue hints : List String) (last_err : Option String) (w : W) (r : T)
      → (retry answers caller left queue hints last_err w).1 ≡ ok r
      → IsOk answers r
  unfolding retry
  retry_ok zero queue hints last_err w r h = absurd (cc)
  retry_ok (suc left) [] hints last_err w r h = absurd (cc)
  retry_ok (suc left) (endpoint ∷ queue) hints last_err w r h =
      follow_ok (λ q hs e u. retry answers caller left q hs e u)
        (attempt answers caller endpoint queue hints last_err w) r
        (attempt-EndsWell endpoint queue hints last_err w)
        (λ q hs e u k. retry_ok left q hs e u r k) h

  -- The same caller with a list of the endpoints that were called.
  abbrev pub logged : W × List String → String → (W × List String) × Result String T
  logged (w, log) endpoint = (((caller w endpoint).0, log ++ endpoint ∷ []), (caller w endpoint).1)

  abbrev Within : ℕ → (W × List String) × Result String T → Type 0
  Within k x = length x.0.1 ≤ k

  attempt_calls :
      (endpoint : String) (queue hints : List String) (last_err : Option String) (w : W)
      (log : List String)
      → length (attempt answers logged endpoint queue hints last_err (w, log)).0.1 ≤ length log + 1
  unfolding attempt
  attempt_calls endpoint queue hints last_err w log =
      if-cases (λ (x : (W × List String) × Attempt T). length x.0.1 ≤ length log + 1)
        (str_eq endpoint "") _ _ (λ _. omega arith)
        (λ _. omega (arith, length-append log (endpoint ∷ [])))

  follow_calls :
      (k : ℕ)
      (rest : List String
        → List String
        → Option String
        → W × List String
        → (W × List String) × Result String T)
      (x : (W × List String) × Attempt T)
      → ((q h : List String) (e : Option String) → Within (length x.0.1 + k) (rest q h e x.0))
      → Within (length x.0.1 + k) (follow answers logged rest x)
  follow_calls k rest ((w, log), returns r) bound = omega arith
  follow_calls k rest ((w, log), go_on q h e) bound = bound q h e

  retry_calls :
      (left : ℕ) (queue hints : List String) (last_err : Option String) (w : W) (log : List String)
      → Within (length log + left) (retry answers logged left queue hints last_err (w, log))
  unfolding retry
  retry_calls zero queue hints last_err w log = omega arith
  retry_calls (suc left) [] hints last_err w log = omega arith
  retry_calls (suc left) (endpoint ∷ queue) hints last_err w log =
      let x = attempt answers logged endpoint queue hints last_err (w, log) in
      le_trans
        (follow_calls left (λ q h e u. retry answers logged left q h e u) x
          (λ q h e. retry_calls left q h e x.0.0 x.0.1))
        (omega (arith, attempt_calls endpoint queue hints last_err w log))

  -- What a search returns: a response with OK, or an error.
  abbrev pub Ends : Result String T → Type 0
  Ends (ok r) = IsOk answers r
  Ends (err e) = Unit

  ends : (x : Result String T) → ((r : T) → x ≡ ok r → IsOk answers r) → Ends x
  ends (ok r) h = h r refl
  ends (err e) h = tt

  -- Whatever the endpoints answer and hint, `withLeaderRetryUsing` returns an error or a response with
  -- OK, and it has made at most five calls more than there are endpoints.
  pub with_leader_retry_using_lem :
      (endpoints : List String) (w : W)
      → Ends (with_leader_retry_using answers caller endpoints w).1
        × (length (with_leader_retry_using answers logged endpoints (w, [])).0.1
            ≤ length endpoints + 5)
  unfolding with_leader_retry_using
  with_leader_retry_using_lem endpoints w = (
    ends (retry answers caller (length endpoints + 5) endpoints [] none w).1
        (λ r h. retry_ok (length endpoints + 5) endpoints [] none w r h),
    omega (arith, retry_calls (length endpoints + 5) endpoints [] none w []),
  )
