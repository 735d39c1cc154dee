-- ===== src/Raft/Guarantees/Lifetime.antt =====
-- The whole life of a node of internal/raft/node.go: its steps, and its restarts by `NewNode` from
-- what its store holds.
use go_raft_kv.Prelude.{
  ℕ, zero, suc, ◌+◌, ◌-◌, ◌≤◌, ◌<◌, ◌≡◌, ◌≢◌, refl, sym, ◌∙◌, subst, ap, String, arith, none, some,
  List, inl, inr, Bool-cases, leb, leb→le,
}
use mathlib.Core.Option.{some-injective}
use go_raft_kv.Prelude.Word.{u64_mod}
use go_raft_kv.Storage.Types.{LogEntry, HardState, Snapshot}
use go_raft_kv.Raft.Types.{Store, StateMachine, Timer}
use go_raft_kv.Raft.Log.{last_index}
use go_raft_kv.Raft.Log.Contiguous.{Contiguous}
use go_raft_kv.Raft.Node.{Node}
use go_raft_kv.Raft.Recover.{Config, new_node}
use go_raft_kv.Raft.Progress.{IsValid, VoteKeeps, VoteKeeps-trans}
use go_raft_kv.Raft.Progress.Frames.{VoteKeeps-refl}
use go_raft_kv.Raft.System.{Reach, Reach-Keeps}
use go_raft_kv.Raft.Guarantees.Recover.{Rebuilt, RebuildsOrFails, new_node_lem}

-- The hard state is not behind the node: it is of a later term, or of the node's term with its vote.
abbrev pub Remembered : {S M : Type 0} → Node S M → HardState → Type 0
Remembered n hs = record {
  terms : n.current_term ≤ hs.current_term;
  votes : n.current_term ≡ hs.current_term → n.voted_for ≢ "" → hs.voted_for ≡ n.voted_for;
}

module _ {S M : Type 0} (st : Store S) (sm : StateMachine M) where
  -- Any number of steps, or a crash at any of them and a new start from a store that holds a hard
  -- state that is not behind the node, and a contiguous log.
  pub data Life (n : Node S M) : Node S M → Type 0 where
    runs : {m : Node S M} → Reach st sm n m → Life n m
    restarts :
        {m : Node S M} (t : Timer) (cfg : Config) (machine : M) (s : S) (hs : HardState)
        (log : List LogEntry) (snap : Snapshot)
        → st.load n.store ≡ (s, none, hs, log, snap)
        → Remembered n hs
        → Contiguous snap.last_included_index log
        → last_index snap log < u64_mod
        → (new_node st sm t cfg n.store machine).1 ≡ (none, some m)
        → Life n m

  -- What is built is what the store holds.
  started-Rebuilt :
      (hs : HardState) (log : List LogEntry) (snap : Snapshot) (machine : M) (m : Node S M) (s : S)
      (r : _)
      → RebuildsOrFails st sm s hs log snap machine r
      → r.1 ≡ (none, some m)
      → Rebuilt sm hs log snap machine m
  started-Rebuilt hs log snap machine m s r (inl (o, started, good)) h =
      let same : some o ≡ some m = sym (ap (λ r. r.1.1) started) ∙ ap (λ r. r.1) h in
      subst (λ m. Rebuilt sm hs log snap machine m) (some-injective o m same) good
  started-Rebuilt hs log snap machine m s r (inr (e, failed, changed, unsaved)) h =
      let none_is : some e ≡ none = sym (ap (λ r. r.0) failed) ∙ ap (λ r. r.0) h in
      absurd (ground arith)

  pub Life-VoteKeeps : {n m : Node S M} → Life n m → IsValid n → IsValid m × VoteKeeps n m
  Life-VoteKeeps (runs r) v =
      let (w, a) = Reach-Keeps st sm r v in (w, record { terms = a.terms; votes = a.votes })
  Life-VoteKeeps {n} {m} (restarts t cfg machine s hs log snap loaded kept c small started) v =
      let b =
        started-Rebuilt hs log snap machine m s _
          (new_node_lem st sm t cfg n.store s machine hs log snap loaded c small) started in
      (
        b.valid,
        record {
          terms = rw (b.term) kept.terms;
          votes = λ e named. b.vote ∙ kept.votes (e ∙ b.term) named;
        },
      )

module _ {S M : Type 0} (st : Store S) (sm : StateMachine M) (run : String → ℕ → Node S M) where
  -- Each member of the cluster has a sequence of states: it starts in a valid one, and its steps and
  -- restarts lead from each to the next.
  abbrev pub Runs : Type 0
  Runs = record {
    starts : (x : String) → IsValid (run x 0);
    changes : (x : String) (i : ℕ) → Life st sm (run x i) (run x (suc i));
  }

  -- The member is in the term with its vote for the candidate at some time.
  abbrev pub Backs : String → String → ℕ → Type 0
  Backs x c term = (i : ℕ) × ((run x i).current_term ≡ term) × ((run x i).voted_for ≡ c)

  module _ (runs : Runs) (x : String) where
    run-IsValid : (i : ℕ) → IsValid (run x i)
    run-IsValid zero = runs.starts x
    run-IsValid (suc i) = (Life-VoteKeeps st sm (runs.changes x i) (run-IsValid i)).0

    advances : (i k j : ℕ) → j ≡ k + i → VoteKeeps (run x i) (run x j)
    advances i zero j e =
        subst (λ j. VoteKeeps (run x i) (run x j)) (omega arith) (VoteKeeps-refl (run x i))
    advances i (suc k) j e =
        subst (λ j. VoteKeeps (run x i) (run x j)) (omega arith)
          (VoteKeeps-trans (run x i) (run x (k + i)) (run x (suc (k + i)))
            (advances i k (k + i) refl)
            (Life-VoteKeeps st sm (runs.changes x (k + i)) (run-IsValid (k + i))).1)

    -- Later in the same term, the vote is the same.
    later_vote :
        (i j : ℕ)
        → i ≤ j
        → (run x i).current_term ≡ (run x j).current_term
        → (run x i).voted_for ≢ ""
        → (run x j).voted_for ≡ (run x i).voted_for
    later_vote i j h = (advances i (j - i) j (omega arith)).votes

    pub one_vote :
        (a b : String) (term : ℕ) → a ≢ "" → b ≢ "" → Backs x a term → Backs x b term → a ≡ b
    one_vote a b term named_a named_b (i, in_i, for_a) (j, in_j, for_b) =
        elim (Bool-cases (leb i j)) [
          | inl h ↦
              sym for_a
              ∙ sym (later_vote i j (leb→le i j h) (in_i ∙ sym in_j) (λ z. named_a (sym for_a ∙ z)))
              ∙ for_b
          | inr h ↦
              sym for_a
              ∙ later_vote j i (ground arith) (in_j ∙ sym in_i) (λ z. named_b (sym for_b ∙ z))
              ∙ for_b
        ]
