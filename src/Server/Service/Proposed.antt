-- ===== src/Server/Service/Proposed.antt =====
-- internal/raft/node.go: what stands behind a proposal that `proposeAppend` accepts.
use go_raft_kv.Prelude.{
  ℕ, [], ◌∷◌, ◌++◌, ◌+◌, ◌≡◌, inl, inr, refl, true, false, Option, none, some, Option-cases,
  Bool-cases, subst, arith,
}
use go_raft_kv.Storage.Types.{Command, LogEntry}
use go_raft_kv.Prelude.Word.{inc64}
use go_raft_kv.Raft.Log.{last_index}
use go_raft_kv.Raft.Commit.{advance_commit}
use go_raft_kv.Raft.Types.{Error, node_stopped, Store, Timer}
use go_raft_kv.Raft.Node.{Node, is_leader, not_leader_error}
use go_raft_kv.Raft.Propose.{
  Accepted, rejected, accepted, propose_append, register_proposal, append_proposal, with_proposal,
}

module _ {S M : Type 0} (st : Store S) (t : Timer) (c : Command) (n : Node S M) where
  -- The command was proposed: the node ran and led, the store took an entry with the command, the
  -- node's term and the next index, the node put it behind its log and registered the caller's
  -- channel, a new one, for the entry's index; then the commit index was advanced.
  abbrev pub Proposed : Type 0
  Proposed = (entry : LogEntry) × (m : Node S M) × record {
    runs : (n.stopped ≡ false) × (n.storage_fatal ≡ none);
    leads : is_leader n.role ≡ true;
    command : entry.command ≡ c;
    in_term : entry.term ≡ n.current_term;
    place : entry.index ≡ inc64 (last_index n.snapshot n.log);
    written : st.append_entries n.store (entry ∷ []) ≡ (m.store, none);
    logged : m.log ≡ n.log ++ entry ∷ [];
    waits : m.waiters ≡ n.waiters ++ (entry.index, n.next_waiter) ∷ [];
    fresh : m.next_waiter ≡ n.next_waiter + 1;
    appended :
        propose_append st t c n ≡ (advance_commit st t m, accepted n.next_waiter entry.index);
  }

  register_Proposed :
      (entry : LogEntry) (r : S × Option Error) (waiter index : ℕ)
      → (n.stopped ≡ false) × (n.storage_fatal ≡ none) × (is_leader n.role ≡ true)
      → entry.command ≡ c
      → entry.term ≡ n.current_term
      → entry.index ≡ inc64 (last_index n.snapshot n.log)
      → st.append_entries n.store (entry ∷ []) ≡ r
      → propose_append st t c n ≡ register_proposal st t entry n r
      → (register_proposal st t entry n r).1 ≡ accepted waiter index
      → Proposed
  unfolding register_proposal
  register_Proposed entry (s, some e) waiter index live has_command term place written same h =
      absurd (cc)
  register_Proposed entry (s, none) waiter index (runs, sound, leads) has_command term place written
        same h =
      (
        entry,
        with_proposal entry (record n { store = s }),
        record {
          runs = (runs, sound);
          leads = leads;
          command = has_command;
          in_term = term;
          place = place;
          written = written;
          logged = refl;
          waits = refl;
          fresh = refl;
          appended = same;
        },
      )

  -- Only a node that runs and leads accepts.
  accepted_live :
      (waiter index : ℕ)
      → (propose_append st t c n).1 ≡ accepted waiter index
      → (n.stopped ≡ false) × (n.storage_fatal ≡ none) × (is_leader n.role ≡ true)
  unfolding propose_append
  accepted_live waiter index h = elim (Bool-cases n.stopped) [
    | inl stopped ↦
        let e : rejected node_stopped ≡ accepted waiter index = rw stopped at h in absurd (cc)
    | inr runs ↦ elim (Option-cases n.storage_fatal) [
      | inr (x, fatal) ↦
          let e : rejected x ≡ accepted waiter index = rw (runs, fatal) at h in absurd (cc)
      | inl sound ↦ elim (Bool-cases (is_leader n.role)) [
        | inl leads ↦ (runs, sound, leads)
        | inr follows ↦
            let e : rejected (not_leader_error n) ≡ accepted waiter index =
              rw (runs, sound, follows) at h in
            absurd (cc)
      ]
    ]
  ]

  pub accepted-Proposed :
      (waiter index : ℕ) → (propose_append st t c n).1 ≡ accepted waiter index → Proposed
  unfolding propose_append append_proposal
  accepted-Proposed waiter index h =
      let (runs, sound, leads) = accepted_live waiter index h in
      let entry : LogEntry = record {
        index = inc64 (last_index n.snapshot n.log);
        term = n.current_term;
        command = c;
      } in
      let same : propose_append st t c n ≡ append_proposal st t c n =
        ground (arith, runs, sound, leads) in
      register_Proposed entry (st.append_entries n.store (entry ∷ [])) waiter index
        (runs, sound, leads) refl refl refl refl same
        (subst (λ (r : Node S M × Accepted). r.1 ≡ accepted waiter index) same h)
