-- ===== src/Raft/Guarantees/Read.antt =====
-- internal/raft/node.go: what a client learns from `LinearizableGet`.
use native.Mathlib.Nat.{le_trans}
use go_raft_kv.Prelude.{
  map, ℕ, suc, ◌≤◌, ◌≡◌, ◌≢◌, refl, sym, ap, ◌∙◌, String, true, Option, none, some, List, [], ◌∷◌,
  ltb, if-cases, Option-cases, inl, inr, ◌⊎◌, arith, get_elem?, All, Result, ok, err,
}
use go_raft_kv.Raft.Types.{Error, Store, StateMachine}
use go_raft_kv.Raft.Node.{Node, is_leader}
use go_raft_kv.Raft.Barrier.{ensure_quorum}
use go_raft_kv.Raft.Read.{
  Gate, refused, stale, wait_for, PassEnd, finished, repeat, Pass, read_gate, leader_trouble, look,
  wait_until_applied_as_leader, read_section, after_wait, after_gate, after_barrier, run_pass,
  linearizable_get,
}
use go_raft_kv.Storage.Types.{ApplyResult, LogEntry}
use go_raft_kv.Raft.Progress.{IsValid}
use go_raft_kv.Raft.Guarantees.Serving.{Served, IsServing, Serves, Serves-trans, Serves-Reach}
use go_raft_kv.Raft.Guarantees.CaughtUp.{Serves-Tracks, Tracks-CaughtUp, CaughtUp}
use go_raft_kv.Raft.System.{Reach, Reach-Keeps}
use go_raft_kv.Raft.Guarantees.Barrier.{Confirms, ensure_quorum-Confirms}

waited :
    (e : Option Error) (ctx : Option Error)
    → (elim e [ some e ↦ some (some e) | none ↦ elim ctx [ some e ↦ some (some e) | none ↦ none ] ])
      ≢ some none
waited (some e) ctx h = cc
waited none (some e) h = cc
waited none none h = cc

module _ {S M : Type 0} where
  read_gate_open :
      (term index : ℕ) (n : Node S M)
      → read_gate term n ≡ wait_for index
      → (n.commit_index ≤ index) × (n.leader_noop_index ≤ index)
  unfolding read_gate
  read_gate_open term index n h = ground (arith, h)

  -- A wait ends without an error only at a node that has applied the index.
  look_done :
      (index term : ℕ) (n : Node S M) (ctx : Option Error)
      → look index term n ctx ≡ some none
      → index ≤ n.last_applied
  unfolding look
  look_done index term n ctx h =
      if-cases (λ (r : Option (Option Error)). r ≡ some none → index ≤ n.last_applied)
        (ltb n.last_applied index) _ _ (λ _ e. absurd (waited (leader_trouble term n) ctx e))
        (λ low _. ground (arith, low)) h

-- A pass, and what the apply loop is at when the pass begins.
pub record Observed (S M : Type 0) : Type 0 where
  pub pass : Pass S M
  pub applying : Option (LogEntry × ApplyResult)

module _ {S M : Type 0} where
  abbrev pub begins : Observed S M → Served S M
  begins o = record { node = o.pass.barrier.start; applying = o.applying }

module _ {S M : Type 0} (st : Store S) (sm : StateMachine M) where
  -- The node goes from `n` by the nodes that a waiting call sees to `m`.
  abbrev pub Through : Node S M → List (Node S M × Option Error) → Node S M → Type 0
  Through n [] m = Reach st sm n m
  Through n ((l, ctx) ∷ looks) m = Reach st sm n l × Through l looks m

  -- The same with the apply loop at work and no snapshot installed.
  abbrev pub ServesThrough : Served S M → List (Node S M × Option Error) → Served S M → Type 0
  ServesThrough s [] u = Serves st sm s u
  ServesThrough s ((l, ctx) ∷ looks) u =
      (o : Option (LogEntry × ApplyResult)) × Serves st sm s (record { node = l; applying = o })
      × ServesThrough (record { node = l; applying = o }) looks u

  ServesThrough-Through :
      (s : Served S M) (looks : List (Node S M × Option Error)) (u : Served S M)
      → ServesThrough s looks u
      → Through s.node looks u.node × Serves st sm s u
  ServesThrough-Through s [] u r = (Serves-Reach st sm r, r)
  ServesThrough-Through s ((l, ctx) ∷ looks) u (o, r, rest) =
      let (through, later) =
        ServesThrough-Through (record { node = l; applying = o }) looks u rest in
      ((Serves-Reach st sm r, through), Serves-trans st sm r later)

  -- The sections of a pass see the node at times that follow one another.
  abbrev pub InOrder : Observed S M → Type 0
  InOrder o =
      (a b : Option (LogEntry × ApplyResult)) × Serves st sm (begins o)
        (record { node = o.pass.gate; applying = a })
      × ServesThrough (record { node = o.pass.gate; applying = a }) o.pass.looks
          (record { node = o.pass.reading; applying = b })

  applied_later :
      (n : Node S M) (looks : List (Node S M × Option Error)) (m : Node S M)
      → IsValid n
      → Through n looks m
      → n.last_applied ≤ m.last_applied
  applied_later n [] m v r = (Reach-Keeps st sm r v).1.applies
  applied_later n ((l, ctx) ∷ looks) m v (r, rest) =
      let (v', a) = Reach-Keeps st sm r v in le_trans a.applies (applied_later l looks m v' rest)

  abbrev wait_step :
      ℕ → ℕ → List (Node S M × Option Error) → Option (Option Error) → Option (Option Error)
  wait_step index term looks o = elim o [
    | some e ↦ some e
    | none ↦ wait_until_applied_as_leader index term looks
  ]

  wait_done :
      (index term : ℕ) (n : Node S M) (looks : List (Node S M × Option Error)) (m : Node S M)
      → IsValid n
      → Through n looks m
      → wait_until_applied_as_leader index term looks ≡ some none
      → index ≤ m.last_applied
  unfolding wait_until_applied_as_leader
  wait_done index term n [] m v r h = absurd (cc)
  wait_done index term n ((l, ctx) ∷ looks) m v (r, rest) h =
      let v' = (Reach-Keeps st sm r v).0 in
      elim (Option-cases (look index term l ctx)) [
        | inl e ↦
            wait_done index term l looks m v' rest (sym (ap (wait_step index term looks) e) ∙ h)
        | inr (o, e) ↦
            le_trans (look_done index term l ctx (e ∙ sym (ap (wait_step index term looks) e) ∙ h))
              (applied_later l looks m v' rest)
      ]

  read_section_ok :
      (key : String) (term : ℕ) (n : Node S M) (value : Option String)
      → read_section sm key term n ≡ finished (ok value)
      → (is_leader n.role ≡ true) × (n.current_term ≡ term) × (value ≡ sm.read_value n.machine key)
  unfolding read_section
  read_section_ok key term n value h = ground (arith, h)

  -- What a returned value tells: the node led in one term when the call's last barrier began and when
  -- the value was read, a quorum answered that barrier, and the machine that was read is the one of the
  -- beginning after all entries that were committed then, and perhaps some more.
  abbrev pub Reads : String → Option String → Observed S M → Type 0
  Reads key value o = (term : ℕ) × (b : Option (LogEntry × ApplyResult)) × record {
    confirmed : Confirms term o.pass.barrier;
    leads : is_leader o.pass.reading.role ≡ true;
    in_term : o.pass.reading.current_term ≡ term;
    fresh : o.pass.barrier.start.commit_index ≤ o.pass.reading.last_applied;
    own_noop : o.pass.gate.leader_noop_index ≤ o.pass.reading.last_applied;
    machine : CaughtUp st sm (begins o) (record { node = o.pass.reading; applying = b });
    answer : value ≡ sm.read_value o.pass.reading.machine key;
  }

  after_wait_ok :
      (key : String) (term : ℕ) (p : Pass S M) (o : Option (Option Error)) (value : Option String)
      → after_wait sm key term p o ≡ some (finished (ok value))
      → (o ≡ some none) × (read_section sm key term p.reading ≡ finished (ok value))
  unfolding after_wait
  after_wait_ok key term p none value h = absurd (cc)
  after_wait_ok key term p (some (some e)) value h = absurd (cc)
  after_wait_ok key term p (some none) value h = (refl, cc)

  after_gate_ok :
      (key : String) (term : ℕ) (o : Observed S M) (g : Gate) (value : Option String)
      → Confirms term o.pass.barrier
      → InOrder o
      → IsServing (begins o)
      → read_gate term o.pass.gate ≡ g
      → after_gate sm key term o.pass g ≡ some (finished (ok value))
      → Reads key value o
  unfolding after_gate
  after_gate_ok key term o (refused e) value c r v g h = absurd (cc)
  after_gate_ok key term o stale value c r v g h = absurd (cc)
  after_gate_ok key term o (wait_for index) value c (a, b, first, later) v g h =
      let p = o.pass in
      let at_gate : Served S M = record { node = p.gate; applying = a } in
      let at_read : Served S M = record { node = p.reading; applying = b } in
      let (through, served) = ServesThrough-Through at_gate p.looks at_read later in
      let (v', adv) = Reach-Keeps st sm (Serves-Reach st sm first) v.valid in
      let (commit, noop) = read_gate_open term index p.gate g in
      let (waits, reads) =
        after_wait_ok key term p (wait_until_applied_as_leader index term p.looks) value h in
      let applied = wait_done index term p.gate p.looks p.reading v' through waits in
      let (leads, in_term, answer) = read_section_ok key term p.reading value reads in
      let fresh = le_trans adv.commits (le_trans commit applied) in
      let tracks = Serves-Tracks st sm (begins o) v (Serves-trans st sm first served) in
      (
        term,
        b,
        record {
          confirmed = c;
          leads = leads;
          in_term = in_term;
          fresh = fresh;
          own_noop = le_trans noop applied;
          machine = Tracks-CaughtUp st sm (begins o) at_read fresh tracks;
          answer = answer;
        },
      )

  after_barrier_ok :
      (key : String) (o : Observed S M) (q : Option (Result Error ℕ)) (value : Option String)
      → InOrder o
      → IsServing (begins o)
      → ensure_quorum o.pass.barrier ≡ q
      → after_barrier sm key o.pass q ≡ some (finished (ok value))
      → Reads key value o
  unfolding after_barrier
  after_barrier_ok key o none value r v q h = absurd (cc)
  after_barrier_ok key o (some (err e)) value r v q h = absurd (cc)
  after_barrier_ok key o (some (ok term)) value r v q h =
      after_gate_ok key term o (read_gate term o.pass.gate) value
        (ensure_quorum-Confirms o.pass.barrier term q) r v refl h

  abbrev passes_of : List (Observed S M) → List (Pass S M)
  passes_of = map (λ (o : Observed S M). o.pass)

  abbrev loop_step :
      String → List (Pass S M) → Option PassEnd → Option (Result Error (Option String))
  loop_step key passes o = elim o [
    | none ↦ none
    | some (finished r) ↦ some r
    | some repeat ↦ linearizable_get sm key passes
  ]

  -- A pass that ends the call ends it with its result, another one leads to the next pass.
  loop_ok :
      (key : String) (p : Pass S M) (passes : List (Pass S M)) (o : Option PassEnd)
      (value : Option String)
      → loop_step key passes o ≡ some (ok value)
      → (o ≡ some (finished (ok value))) ⊎ (linearizable_get sm key passes ≡ some (ok value))
  loop_ok key p passes none value h = absurd (cc)
  loop_ok key p passes (some (finished r)) value h = inl (cc)
  loop_ok key p passes (some repeat) value h = inr h

  -- A linearizable read that returns a value, over any number of passes, has a pass with a leader that
  -- a quorum confirmed during the call, and reads a state machine, still as the leader of the confirmed
  -- term: the machine of the beginning of the pass after the commands of all entries that were
  -- committed and not run yet, in the order of the log of then, and perhaps of further entries up to
  -- the one that the apply loop is at. The last applied index has reached the commit index of the
  -- beginning and the leader's own no-op, and the value is what the machine reads at the key. Each pass
  -- begins at a valid node whose apply loop is at its next entry or at none, and its sections see the
  -- node at times that follow one another, between which any steps are made but the installation of a
  -- snapshot.
  pub linearizable_get-Reads :
      (key : String) (observed : List (Observed S M)) (value : Option String)
      → All InOrder observed
      → All (λ (o : Observed S M). IsServing (begins o)) observed
      → linearizable_get sm key (passes_of observed) ≡ some (ok value)
      → (i : ℕ) × (o : Observed S M) × (get_elem? observed i ≡ some o) × Reads key value o
  unfolding linearizable_get run_pass
  linearizable_get-Reads key [] value r v h = absurd (cc)
  linearizable_get-Reads key (o ∷ observed) value (r, rs) (v, vs) h =
      elim (loop_ok key o.pass (passes_of observed) (run_pass sm key o.pass) value h) [
        | inl e ↦
            (0, o, refl, after_barrier_ok key o (ensure_quorum o.pass.barrier) value r v refl e)
        | inr later ↦
            let (i, q, there, reads) = linearizable_get-Reads key observed value rs vs later in
            (suc i, q, there, reads)
      ]
