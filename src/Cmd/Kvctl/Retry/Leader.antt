-- ===== src/Cmd/Kvctl/Retry/Leader.antt =====
-- cmd/kvctl/main.go: `withLeaderRetryUsing` in a cluster whose nodes know one leader.
use go_raft_kv.Prelude.{
  ℕ, zero, suc, ◌+◌, ◌≤◌, ◌≡◌, ◌≢◌, ◌⊎◌, inl, inr, refl, ap, ◌∙◌, String, Bool, true, false, Option,
  none, some, List, [], ◌∷◌, ◌++◌, arith, str_eq, eq_iff, length, All, Result, ok,
}
use go_raft_kv.Cmd.Kvctl.Retry.{
  Answers, Attempt, returns, go_on, queued, noted, judge, take_response, attempt, follow, retry,
  with_leader_retry_using,
}
use go_raft_kv.Cmd.Kvctl.Retry.Search.{IsOk}
use go_raft_kv.Cmd.Kvctl.Retry.Hints.{
  Reply, fails, serves, lost, points, SomePoints, str-cases, judge_lost, judge_again, judge_new,
  no_hint_in,
}

module _ {W T : Type 0} (answers : Answers T) (f : String → Result String T) (h : String) where
  abbrev pub calling : W → String → W × Result String T
  calling w e = (w, f e)

  abbrev pub Found : W × Result String T → Type 0
  Found x = (r : T) × (x.1 ≡ ok r) × IsOk answers r

  abbrev try : String → List String → List String → Option String → W → W × Attempt T
  try e q hints l w = attempt answers calling e q hints l w

  -- An attempt ends the search well, or leaves the queue as it is.
  abbrev Moves : W → List String → List String → W × Attempt T → Type 0
  Moves w q hints x =
      ((r : T) × (x ≡ (w, returns (ok r))) × IsOk answers r)
      ⊎ ((l : Option String) × (x ≡ (w, go_on q hints l)))

  try_known :
      (e : String) (q hints : List String) (l : Option String) (w : W)
      → e ≢ ""
      → try e q hints l w ≡ (w, take_response answers e q hints l (f e))
  unfolding attempt
  try_known e q hints l w d =
      let there : str_eq e "" ≡ false = ground (arith, eq_iff e "", d) in rw there refl

  try_blank :
      (e : String) (q hints : List String) (l : Option String) (w : W)
      → e ≡ ""
      → try e q hints l w ≡ (w, go_on q hints l)
  unfolding attempt
  try_blank e q hints l w p =
      let blank : str_eq e "" ≡ true = ground (arith, eq_iff e "", p) in rw blank refl

  abbrev given :
      String → List String → List String → Option String → W → Result String T → W × Attempt T
  given e q hints l w r = (w, take_response answers e q hints l r)

  abbrev judged :
      String
      → List String
      → List String
      → Option String
      → W
      → T
      → Result String (Bool × String)
      → W × Attempt T
  judged e q hints l w r j = (w, judge answers e q hints l r j)

  -- An endpoint's answer as the loop takes it.
  answered :
      (e : String) (q hints : List String) (l : Option String) (w : W) (r : T)
      (j : Result String (Bool × String))
      → e ≢ ""
      → f e ≡ ok r
      → answers.leader_from r ≡ j
      → try e q hints l w ≡ judged e q hints l w r j
  unfolding take_response
  answered e q hints l w r j d p s =
      try_known e q hints l w d ∙ ap (given e q hints l w) p ∙ ap (judged e q hints l w r) s

  -- Every answer that is not a hint that is new.
  moves :
      (e : String) (q hints : List String) (l : Option String) (w : W)
      → Reply answers f h e
      → e ≢ ""
      → queued h hints ≡ true
      → Moves w q hints (try e q hints l w)
  unfolding take_response
  moves e q hints l w (fails x p) d known =
      inr (some x, try_known e q hints l w d ∙ ap (given e q hints l w) p)
  moves e q hints l w (serves r a p s) d known =
      inl (r, answered e q hints l w r (ok (true, a)) d p s, (a, s))
  moves e q hints l w (lost r p s) d known = inr (
    noted answers r l,
    answered e q hints l w r (ok (false, "")) d p s
        ∙ ap (λ (x : Attempt T). (w, x)) (judge_lost answers h e q hints l r),
  )
  moves e q hints l w (points r p s) d known = inr (
    noted answers r l,
    answered e q hints l w r (ok (false, h)) d p s
        ∙ ap (λ (x : Attempt T). (w, x)) (judge_again answers h e q hints l r known),
  )

  abbrev going : ℕ → W × Attempt T → W × Result String T
  going left = follow answers calling (λ q hs e u. retry answers calling left q hs e u)

  carried : (x y : W × Result String T) → x ≡ y → Found y → Found x
  carried x y p (r, e, good) = (r, ap (λ (z : W × Result String T). z.1) p ∙ e, good)

  -- After a move, the search goes on with the rest of the queue.
  after_move :
      (left : ℕ) (w : W) (q hints : List String) (x : W × Attempt T)
      → Moves w q hints x
      → ((l : Option String) → Found (retry answers calling left q hints l w))
      → Found (going left x)
  after_move left w q hints x (inl (r, e, good)) later =
      carried _ (w, ok r) (ap (going left) e) (r, refl, good)
  after_move left w q hints x (inr (l, e)) later =
      carried _ (retry answers calling left q hints l w) (ap (going left) e) (later l)

  step_blank :
      (e : String) (q hints : List String) (l : Option String) (w : W)
      → e ≡ ""
      → Moves w q hints (try e q hints l w)
  step_blank e q hints l w p = inr (l, try_blank e q hints l w p)

  -- With the hint in the queue and in the set, the search gets to it at the latest.
  retry_hinted :
      (left : ℕ) (es hints : List String) (l : Option String) (w : W) (r₀ : T) (a₀ : String)
      → f h ≡ ok r₀
      → answers.leader_from r₀ ≡ ok (true, a₀)
      → h ≢ ""
      → queued h hints ≡ true
      → All (Reply answers f h) es
      → length es + 1 ≤ left
      → Found (retry answers calling left (es ++ h ∷ []) hints l w)
  unfolding retry judge
  retry_hinted zero es hints l w r₀ a₀ p s named known all enough = absurd (omega arith)
  retry_hinted (suc left) [] hints l w r₀ a₀ p s named known all enough =
      carried _ (w, ok r₀) (ap (going left) (answered h [] hints l w r₀ (ok (true, a₀)) named p s))
        (r₀, refl, (a₀, s))
  retry_hinted (suc left) (e ∷ es) hints l w r₀ a₀ p s named known (reply, all) enough =
      after_move left w (es ++ h ∷ []) hints (try e (es ++ h ∷ []) hints l w)
        (elim (str-cases e) [
          | inl blank ↦ step_blank e (es ++ h ∷ []) hints l w blank
          | inr d ↦ moves e (es ++ h ∷ []) hints l w reply d known
        ])
        (λ l'. retry_hinted left es hints l' w r₀ a₀ p s named known all (omega arith))

  -- An endpoint that is not blank.
  first_unhinted :
      (left : ℕ) (e : String) (es : List String) (l : Option String) (w : W) (r₀ : T) (a₀ : String)
      → f h ≡ ok r₀
      → answers.leader_from r₀ ≡ ok (true, a₀)
      → h ≢ ""
      → e ≢ ""
      → Reply answers f h e
      → All (Reply answers f h) es
      → SomePoints answers f h (e ∷ es)
      → length es + 1 ≤ left
      → ((l' : Option String)
          → SomePoints answers f h es
          → Found (retry answers calling left es [] l' w))
      → Found (going left (try e es [] l w))
  unfolding take_response judge queued
  first_unhinted left e es l w r₀ a₀ p s named d (fails x q) all some_points enough rest =
      after_move left w es [] (try e es [] l w)
        (inr (some x, try_known e es [] l w d ∙ ap (given e es [] l w) q))
        (λ l'. rest l' (no_hint_in answers f h e es (λ k. absurd (cc)) some_points))
  first_unhinted left e es l w r₀ a₀ p s named d (serves r a q k) all some_points enough rest =
      carried _ (w, ok r) (ap (going left) (answered e es [] l w r (ok (true, a)) d q k))
        (r, refl, (a, k))
  first_unhinted left e es l w r₀ a₀ p s named d (lost r q k) all some_points enough rest =
      after_move left w es [] (try e es [] l w)
        (inr (noted answers r l, answered e es [] l w r (ok (false, "")) d q k))
        (λ l'. rest l' (no_hint_in answers f h e es (λ m. absurd (named (cc))) some_points))
  first_unhinted left e es l w r₀ a₀ p s named d (points r q k) all some_points enough rest =
      let other : h ≢ e = λ m. absurd (cc) in
      carried _ (retry answers calling left (es ++ h ∷ []) (h ∷ []) (noted answers r l) w)
        (ap (going left) (
          answered e es [] l w r (ok (false, h)) d q k
          ∙ ap (λ (x : Attempt T). (w, x)) (judge_new answers h e es [] l r named other refl)))
        (retry_hinted left es (h ∷ []) (noted answers r l) w r₀ a₀ p s named
          (ground (arith, eq_iff h h)) all enough)

  -- Before the hint is met.
  retry_unhinted :
      (left : ℕ) (es : List String) (l : Option String) (w : W) (r₀ : T) (a₀ : String)
      → f h ≡ ok r₀
      → answers.leader_from r₀ ≡ ok (true, a₀)
      → h ≢ ""
      → All (Reply answers f h) es
      → SomePoints answers f h es
      → length es + 1 ≤ left
      → Found (retry answers calling left es [] l w)
  unfolding retry
  retry_unhinted zero es l w r₀ a₀ p s named all some_points enough = absurd (omega arith)
  retry_unhinted (suc left) [] l w r₀ a₀ p s named all some_points enough = absurd some_points
  retry_unhinted (suc left) (e ∷ es) l w r₀ a₀ p s named (reply, all) some_points enough =
      let rest : (l' : Option String)
          → SomePoints answers f h es
          → Found (retry answers calling left es [] l' w) =
        λ l' k. retry_unhinted left es l' w r₀ a₀ p s named all k (omega arith) in
      elim (str-cases e) [
        | inl blank ↦
            after_move left w es [] (try e es [] l w) (step_blank e es [] l w blank)
              (λ l'. rest l' (no_hint_in answers f h e es (λ k. k.0 blank) some_points))
        | inr d ↦
            first_unhinted left e es l w r₀ a₀ p s named d reply all some_points (omega arith) rest
      ]

  -- When every endpoint fails, answers with OK, or answers without OK and with no hint or one and the
  -- same hint, when one of them gives that hint, and when the hinted address answers with OK, then
  -- `withLeaderRetryUsing` returns a response with OK: the attempts are enough to get there.
  pub with_leader_retry_using_finds :
      (endpoints : List String) (w : W) (r₀ : T) (a₀ : String)
      → f h ≡ ok r₀
      → answers.leader_from r₀ ≡ ok (true, a₀)
      → h ≢ ""
      → All (Reply answers f h) endpoints
      → SomePoints answers f h endpoints
      → (r : T) × ((with_leader_retry_using answers calling endpoints w).1 ≡ ok r) × IsOk answers r
  unfolding with_leader_retry_using
  with_leader_retry_using_finds endpoints w r₀ a₀ p s named all some_points =
      retry_unhinted (length endpoints + 5) endpoints none w r₀ a₀ p s named all some_points
        (omega arith)
