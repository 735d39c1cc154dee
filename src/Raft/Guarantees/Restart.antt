-- ===== src/Raft/Guarantees/Restart.antt =====
-- A vote that a node has granted is there after a crash: `HandleRequestVote` and then `NewNode` of
-- internal/raft/node.go, on a store that loads what it has saved.
use go_raft_kv.Prelude.{◌≡◌, sym, subst, inl, inr, true, arith, none, some, List}
use go_raft_kv.Storage.Types.{LogEntry, HardState, Snapshot}
use go_raft_kv.Raft.Types.{RequestVoteRequest, Store, StateMachine, Timer}
use go_raft_kv.Raft.Node.{Node}
use go_raft_kv.Raft.Vote.{handle_request_vote}
use go_raft_kv.Raft.Recover.{Config, new_node}
use go_raft_kv.Raft.Progress.{IsValid}
use go_raft_kv.Raft.Guarantees.Vote.{Granted, handle_request_vote-Granted}
use go_raft_kv.Raft.Guarantees.Recover.{Rebuilt, new_node_lem, clamp_commit_lem}

-- A store from which a hard state, a log and a snapshot are loaded.
abbrev pub Loads : {S : Type 0} → Store S → S → HardState → List LogEntry → Snapshot → Type 0
Loads {S} st s hs log snap = (s' : S) × (st.load s ≡ (s', none, hs, log, snap))

-- A hard state that is saved without an error is the one loaded next, and nothing else is changed.
abbrev pub Remembers : {S : Type 0} → Store S → Type 0
Remembers {S} st =
    (s s' : S) (old hs : HardState) (log : List LogEntry) (snap : Snapshot)
    → Loads st s old log snap
    → st.save_hard_state s hs ≡ (s', none)
    → Loads st s' hs log snap

module _ {S M : Type 0} (st : Store S) (sm : StateMachine M) (remembers : Remembers st) where
  -- A granted vote is what the store loads.
  Granted-Loads :
      (req : RequestVoteRequest) (n m : Node S M) (old : HardState)
      → Loads st n.store old n.log n.snapshot
      → Granted st req n m
      → Loads st m.store
          (record {
            current_term = req.term;
            voted_for = req.candidate_id;
            commit_index = n.commit_index;
          })
          n.log
          n.snapshot
  Granted-Loads req n m old here g = elim g.saved.from [
    | inl same ↦
        remembers g.saved.before m.store old _ n.log n.snapshot
          (subst (λ s. Loads st s old n.log n.snapshot) (sym same) here) g.saved.written
    | inr (h, saved) ↦
        remembers g.saved.before m.store h _ n.log n.snapshot
          (remembers n.store g.saved.before old h n.log n.snapshot here saved) g.saved.written
  ]

  -- On a store that loads the hard state that was saved last, and that holds the log and the snapshot
  -- of a valid node: when the node has granted a vote and is started again from its store, with any
  -- configuration and state machine, the start succeeds, and the new node is a follower in the term of
  -- the request with the vote for its candidate, with the log, snapshot and commit index of the old one
  -- and all committed entries applied.
  pub vote_durable :
      (t u : Timer) (cfg : Config) (machine : M) (req : RequestVoteRequest) (n : Node S M)
      (old : HardState)
      → IsValid n
      → Loads st n.store old n.log n.snapshot
      → (handle_request_vote st t req n).1.vote_granted ≡ true
      → (o : Node S M) × (new_node st sm u cfg (handle_request_vote st t req n).0.store machine
          ≡ (o.store, (none, some o)))
        × Rebuilt sm
            (record {
              current_term = req.term;
              voted_for = req.candidate_id;
              commit_index = n.commit_index;
            })
            n.log
            n.snapshot
            machine
            o
  vote_durable t u cfg machine req n old v here granted =
      let m = (handle_request_vote st t req n).0 in
      let (s, loaded) =
        Granted-Loads req n m old here (handle_request_vote-Granted st t req n granted) in
      elim (new_node_lem st sm u cfg m.store s machine _ n.log n.snapshot loaded v.contiguous
        v.bounded) [
          | inl started ↦ started
          | inr (e, failed, changed, unsaved) ↦
              let clamped = clamp_commit_lem n.commit_index n.snapshot n.log in
              absurd (changed (omega (arith, clamped, v.covered, v.applied, v.committed)))
        ]
