-- ===== src/Cmd/Kvctl/Retry/Hints.antt =====
-- cmd/kvctl/main.go: what `withLeaderRetryUsing` does with an answer without OK, when only one address
-- is ever hinted.
use go_raft_kv.Prelude.{
  ◌≡◌, ◌≢◌, ◌⊎◌, inl, inr, refl, String, true, false, Option, List, [], ◌∷◌, ◌++◌, Bool-cases,
  arith, str_eq, eq_iff, Result, ok, err,
}
use go_raft_kv.Cmd.Kvctl.Retry.{Answers, go_on, queued, noted, judge}

pub str-cases : (e : String) → (e ≡ "") ⊎ (e ≢ "")
str-cases e = elim (Bool-cases (str_eq e "")) [
  | inl p ↦ inl (ground (arith, eq_iff e "", p))
  | inr p ↦ inr (λ q. ground (arith, eq_iff e "", p, q))
]

module _ {T : Type 0} (answers : Answers T) (f : String → Result String T) (h : String) where
  -- What an endpoint does when it is called and the only address that is ever hinted is `h`: the call
  -- fails, the answer has OK, or it has not and hints nothing or `h`.
  pub data Reply (e : String) : Type 0 where
    fails : (x : String) → f e ≡ err x → Reply e
    serves : (r : T) (a : String) → f e ≡ ok r → answers.leader_from r ≡ ok (true, a) → Reply e
    lost : (r : T) → f e ≡ ok r → answers.leader_from r ≡ ok (false, "") → Reply e
    points : (r : T) → f e ≡ ok r → answers.leader_from r ≡ ok (false, h) → Reply e

  -- An endpoint that answers with the hint.
  abbrev pub Points : String → Type 0
  Points e = (e ≢ "") × (r : T) × (f e ≡ ok r) × (answers.leader_from r ≡ ok (false, h))

  abbrev pub SomePoints : List String → Type 0
  SomePoints [] = ⊥
  SomePoints (e ∷ es) = Points e ⊎ SomePoints es

module _ {T : Type 0} (answers : Answers T) (h : String) where
  -- How an answer without OK is judged.
  pub judge_lost :
      (e : String) (q hints : List String) (l : Option String) (r : T)
      → judge answers e q hints l r (ok (false, "")) ≡ go_on q hints (noted answers r l)
  unfolding judge
  judge_lost e q hints l r = refl

  pub judge_again :
      (e : String) (q hints : List String) (l : Option String) (r : T)
      → queued h hints ≡ true
      → judge answers e q hints l r (ok (false, h)) ≡ go_on q hints (noted answers r l)
  unfolding judge
  judge_again e q hints l r known = ground (arith, known)

  pub judge_new :
      (e : String) (q hints : List String) (l : Option String) (r : T)
      → h ≢ ""
      → h ≢ e
      → queued h hints ≡ false
      → judge answers e q hints l r (ok (false, h))
        ≡ go_on (q ++ h ∷ []) (h ∷ hints) (noted answers r l)
  unfolding judge
  judge_new e q hints l r named other new =
      let a : str_eq h "" ≡ false = ground (arith, eq_iff h "", named) in
      let b : str_eq h e ≡ false = ground (arith, eq_iff h e, other) in rw (a, b, new) refl

module _ {T : Type 0} (answers : Answers T) (f : String → Result String T) (h : String) where
  pub no_hint_in :
      (e : String) (es : List String)
      → ¬ Points answers f h e
      → SomePoints answers f h (e ∷ es)
      → SomePoints answers f h es
  no_hint_in e es away (inl here) = absurd (away here)
  no_hint_in e es away (inr there) = there
