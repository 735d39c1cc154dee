-- ===== src/Raft/Progress/Replicate.antt =====
-- The sections of `replicateToPeer` of internal/raft/node.go keep the node valid.
use go_raft_kv.Prelude.{
  ℕ, ◌-◌, String, Bool, true, not, ◌||◌, Option, none, some, ltb, leb, ◌==◌, if-cases, length,
  is_some, max,
}
use go_raft_kv.Prelude.Word.{inc64, add64}
use go_raft_kv.Raft.Types.{AppendEntriesRequest, AppendEntriesResponse, Store, Timer}
use go_raft_kv.Raft.Log.{last_index, term_at, entries_from}
use go_raft_kv.Raft.Node.{Node, is_leader, update}
use go_raft_kv.Raft.Commit.{advance_commit}
use go_raft_kv.Raft.Replicate.{
  Round, again, send, Ending, prepare_from, prepare_round, raise_peer, take_answer, snapshot_sent,
  try_acquire, finish_peer_replication,
}
use go_raft_kv.Raft.Persist.{become_follower}
use go_raft_kv.Raft.Progress.{Keeps, Keeps-refl, Keeps-trans}
use go_raft_kv.Raft.Progress.Frames.{Frame-Keeps, become_follower-Frame}
use go_raft_kv.Raft.Progress.Commit.{advance_commit-Keeps}

module _ {S M : Type 0} where
  prepare_from-Keeps :
      (peer : String) (next : ℕ) (n : Node S M) → Keeps n (prepare_from peer next n).0
  unfolding prepare_from
  prepare_from-Keeps peer next n =
      let P : Node S M × Round → Type 0 = λ r. Keeps n r.0 in
      if-cases P (leb next n.snapshot.last_included_index) _ _ (λ _. Keeps-refl n)
        (λ _. go (term_at n.snapshot n.log (next - 1)))
    where
      go :
          (o : Option ℕ)
          → let x : Node S M × Round = elim o [
            | none ↦ (
              record n {
                next_index =
                    update n.next_index peer (max 1 (inc64 n.snapshot.last_included_index));
              },
              again,
            )
            | some term ↦ (
              n,
              send (record {
                term = n.current_term;
                leader_id = n.id;
                prev_log_index = next - 1;
                prev_log_term = term;
                entries = entries_from n.log next;
                leader_commit = n.commit_index;
              }),
            )
          ] in
            Keeps n x.0
      go none = Keeps-refl n
      go (some term) = Keeps-refl n

  pub prepare_round-Keeps : (peer : String) (n : Node S M) → Keeps n (prepare_round peer n).0
  unfolding prepare_round
  prepare_round-Keeps peer n =
      let P : Node S M × Round → Type 0 = λ r. Keeps n r.0 in
      if-cases P (n.stopped || not (is_leader n.role)) _ _ (λ _. Keeps-refl n)
        λ _.
          if-cases P (n.next_index peer == 0) _ _
            (λ _.
              let next = inc64 (last_index n.snapshot n.log) in
              prepare_from-Keeps peer next
                (record n { next_index = update n.next_index peer next }))
            (λ _. prepare_from-Keeps peer (n.next_index peer) n)

  pub snapshot_sent-Keeps :
      (peer : String) (term index : ℕ) (n : Node S M) → Keeps n (snapshot_sent peer term index n)
  unfolding snapshot_sent raise_peer
  snapshot_sent-Keeps peer term index n =
      if-cases (Keeps n) (not (is_leader n.role) || not (n.current_term == term)) _ _
        (λ _. Keeps-refl n) (λ _. Keeps-refl n)

  pub try_acquire-Keeps : (peer : String) (n : Node S M) → Keeps n (try_acquire peer n).0
  unfolding try_acquire
  try_acquire-Keeps peer n =
      let P : Node S M × Option Bool → Type 0 = λ r. Keeps n r.0 in
      if-cases P (n.stopped || is_some n.storage_fatal || not (is_leader n.role)) _ _
        (λ _. Keeps-refl n)
        λ _. if-cases P (not (n.replicating peer)) _ _ (λ _. Keeps-refl n) (λ _. Keeps-refl n)

  pub release-Keeps : (peer : String) (n : Node S M) → Keeps n (finish_peer_replication peer n)
  unfolding finish_peer_replication
  release-Keeps peer n = Keeps-refl n

module _ {S M : Type 0} (st : Store S) where
  pub take_answer-Keeps :
      (t : Timer) (peer : String) (req : AppendEntriesRequest) (resp : AppendEntriesResponse)
      (n : Node S M)
      → Keeps n (take_answer st t peer req resp n).0
  unfolding take_answer raise_peer become_follower
  take_answer-Keeps t peer req resp n =
      let P : Node S M × Ending → Type 0 = λ r. Keeps n r.0 in
      let match = add64 req.prev_log_index (length req.entries) in
      if-cases P (ltb n.current_term resp.term) _ _
        (λ _.
          let m = (become_follower st t resp.term "" n).0 in
          Frame-Keeps n m (become_follower-Frame st t true resp.term "" n))
        λ _.
          if-cases P (not (is_leader n.role) || not (n.current_term == req.term)) _ _
            (λ _. Keeps-refl n)
            λ _.
              if-cases P resp.success _ _
                (λ _.
                  let raised = raise_peer peer match n in
                  Keeps-trans n raised (advance_commit st t raised) (Keeps-refl n)
                    (advance_commit-Keeps st t raised))
                λ _.
                  if-cases P (ltb 0 resp.conflict_index) _ _ (λ _. Keeps-refl n) (λ _. Keeps-refl n)
