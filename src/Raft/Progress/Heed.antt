-- ===== src/Raft/Progress/Heed.antt =====
-- A handler of internal/raft/node.go that heeds a leader changes neither the log nor the vote.
use go_raft_kv.Prelude.{
  ℕ, ◌≡◌, refl, String, true, arith, Option, none, some, if◌then◌else◌, ltb, if-cases, not, ◌||◌,
}
use go_raft_kv.Raft.Types.{Error, Store, Timer}
use go_raft_kv.Raft.Node.{Node, is_follower, reset_election}
use go_raft_kv.Raft.Persist.{heed_leader}
use go_raft_kv.Raft.Progress.Frames.{Frame, Frame-refl, become_cases}

module _ {S M : Type 0} (st : Store S) where
  -- So does heeding a leader.
  pub heed_leader-Frame :
      (t : Timer) (term : ℕ) (leader_id : String) (n : Node S M)
      → Frame n (heed_leader st t term leader_id n).0
  unfolding heed_leader
  heed_leader-Frame t term leader_id n =
      if-cases (λ (r : Node S M × Option Error). Frame n r.0)
        (ltb n.current_term term || not (is_follower n.role)) _ _
        (λ _.
          become_cases st
            (λ r. Frame n (
              let x : Node S M × Option Error = elim r.1 [
                | some e ↦ (r.0, some e)
                | none ↦ (reset_election t (record r.0 { leader_id = leader_id }), none)
              ] in
              x.0))
            t true term leader_id n (λ m f _. f) (λ m e f. f))
        (λ _. Frame-refl n)

  heed_leader-term :
      (t : Timer) (term : ℕ) (leader_id : String) (n : Node S M)
      → (heed_leader st t term leader_id n).1 ≡ none
      → (heed_leader st t term leader_id n).0.current_term
        ≡ (if ltb n.current_term term then term else n.current_term)
  unfolding heed_leader
  heed_leader-term t term leader_id n =
      let P : Node S M × Option Error → Type 0 = λ r.
        r.1 ≡ none
        → r.0.current_term ≡ (if ltb n.current_term term then term else n.current_term) in
      if-cases P (ltb n.current_term term || not (is_follower n.role)) _ _
        (λ _.
          become_cases st
            (λ r. P (elim r.1 [
              | some e ↦ (r.0, some e)
              | none ↦ (reset_election t (record r.0 { leader_id = leader_id }), none)
            ]))
            t true term leader_id n (λ m f h _. h) (λ m e f no_error. absurd (ground arith)))
        (λ same _. ground arith)

  pub heed_cases :
      (P : Node S M × Option Error → Type 0) (t : Timer) (term : ℕ) (leader_id : String)
      (n : Node S M)
      → ((m : Node S M)
          → Frame n m
          → m.current_term ≡ (if ltb n.current_term term then term else n.current_term)
          → P (m, none))
      → ((m : Node S M) (e : Error) → Frame n m → P (m, some e))
      → P (heed_leader st t term leader_id n)
  heed_cases P t term leader_id n good bad =
      go (heed_leader st t term leader_id n) (heed_leader-Frame t term leader_id n)
        (heed_leader-term t term leader_id n)
    where
      go :
          (r : Node S M × Option Error)
          → Frame n r.0
          → (r.1 ≡ none
              → r.0.current_term ≡ (if ltb n.current_term term then term else n.current_term))
          → P r
      go (m, none) f h = good m f (h refl)
      go (m, some e) f h = bad m e f
