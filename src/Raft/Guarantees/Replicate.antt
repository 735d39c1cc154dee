-- ===== src/Raft/Guarantees/Replicate.antt =====
-- The requests that `replicateToPeer` of internal/raft/node.go sends.
use go_raft_kv.Prelude.{
  ℕ, ◌+◌, ◌-◌, ◌≤◌, ◌≡◌, ◌≢◌, refl, sym, ap, ◌∙◌, subst, String, true, false, not, ◌||◌, arith,
  Option, none, some, List, [], ◌∷◌, leb, ◌==◌, if-cases, length, max,
}
use go_raft_kv.Prelude.Word.{inc64}
use go_raft_kv.Storage.Types.{LogEntry}
use go_raft_kv.Raft.Types.{AppendEntriesRequest}
use go_raft_kv.Raft.Log.{last_index, term_at, entries_from}
use go_raft_kv.Raft.Log.Contiguous.{Contiguous, term_at_inside, last_index-Contiguous}
use go_raft_kv.Raft.Log.Suffix.{behind, behind-Contiguous, last_index-behind}
use go_raft_kv.Raft.Node.{Node, is_leader, update}
use go_raft_kv.Raft.Replicate.{
  Round, over, needs_snapshot, again, send, prepare_from, prepare_round,
}
use go_raft_kv.Raft.Progress.{IsValid}

-- The entries from an index on are those behind the one before it.
entries_from-behind : (k : ℕ) (log : List LogEntry) → entries_from log (k + 1) ≡ behind k log
unfolding entries_from
entries_from-behind k [] = refl
entries_from-behind k (e ∷ log) = ground (arith, entries_from-behind k log)

-- A request whose entries are exactly those of the leader's log above an entry that the leader has.
abbrev pub Sends : {S M : Type 0} → Node S M → AppendEntriesRequest → Type 0
Sends n req = record {
  leads : is_leader n.role ≡ true;
  in_term : req.term ≡ n.current_term;
  above : n.snapshot.last_included_index ≤ req.prev_log_index;
  previous : term_at n.snapshot n.log req.prev_log_index ≡ some req.prev_log_term;
  whole : req.entries ≡ behind req.prev_log_index n.log;
  entries : Contiguous req.prev_log_index req.entries;
  ends : req.prev_log_index + length req.entries ≡ last_index n.snapshot n.log;
  commits : req.leader_commit ≡ n.commit_index;
}

send_injective : {x y : AppendEntriesRequest} → send x ≡ send y → x ≡ y
send_injective h = cc

module _ {S M : Type 0} where
  request_Sends :
      (n : Node S M) (prev term : ℕ)
      → IsValid n
      → is_leader n.role ≡ true
      → n.snapshot.last_included_index ≤ prev
      → term_at n.snapshot n.log prev ≡ some term
      → Sends n (record {
        term = n.current_term;
        leader_id = n.id;
        prev_log_index = prev;
        prev_log_term = term;
        entries = behind prev n.log;
        leader_commit = n.commit_index;
      })
  request_Sends n prev term v leads above at =
      let inside = term_at_inside n.snapshot n.log prev v.contiguous at in
      let new = record n.snapshot { last_included_index = prev } in
      let c = behind-Contiguous n.snapshot new n.log v.contiguous above inside in
      let same = last_index-behind n.snapshot new n.log v.contiguous above inside in
      record {
        leads = leads;
        in_term = refl;
        above = above;
        previous = at;
        whole = refl;
        entries = c;
        ends = omega (arith, same, last_index-Contiguous new (behind prev n.log) c);
        commits = refl;
      }

  prepare_from-Sends :
      (peer : String) (next : ℕ) (n : Node S M) (req : AppendEntriesRequest)
      → IsValid n
      → is_leader n.role ≡ true
      → (prepare_from peer next n).1 ≡ send req
      → Sends n req
  unfolding prepare_from
  prepare_from-Sends peer next n req v leads =
      let P : Node S M × Round → Type 0 = λ r. r.1 ≡ send req → Sends n req in
      if-cases P (leb next n.snapshot.last_included_index) _ _ (λ _ h. absurd (no_snapshot h))
        (λ beyond. go beyond (term_at n.snapshot n.log (next - 1)) refl)
    where
      no_snapshot : needs_snapshot n.current_term n.snapshot ≢ send req
      no_snapshot h = cc

      no_round : again ≢ send req
      no_round h = cc

      go :
          leb next n.snapshot.last_included_index ≡ false
          → (o : Option ℕ) → term_at n.snapshot n.log (next - 1) ≡ o
          → (let x : Node S M × Round = elim o [
            | none ↦ (
              record n {
                next_index =
                    update n.next_index peer (max 1 (inc64 n.snapshot.last_included_index));
              },
              again,
            )
            | some term ↦ (
              n,
              send (record {
                term = n.current_term;
                leader_id = n.id;
                prev_log_index = next - 1;
                prev_log_term = term;
                entries = entries_from n.log next;
                leader_commit = n.commit_index;
              }),
            )
          ] in
              x.1 ≡ send req → Sends n req)
      go beyond none at h = absurd (no_round h)
      go beyond (some term) at h =
          let above : n.snapshot.last_included_index ≤ next - 1 = ground arith in
          let one : next - 1 + 1 ≡ next = ground arith in
          let log : behind (next - 1) n.log ≡ entries_from n.log next =
            sym (entries_from-behind (next - 1) n.log) ∙ ap (λ i. entries_from n.log i) one in
          subst (λ (r : AppendEntriesRequest). Sends n r)
            (ap
                (λ (es : List LogEntry). record {
                  term = n.current_term;
                  leader_id = n.id;
                  prev_log_index = next - 1;
                  prev_log_term = term;
                  entries = es;
                  leader_commit = n.commit_index;
                })
                log
              ∙ send_injective h)
            (request_Sends n (next - 1) term v leads above at)

  -- The request that a round of a valid node sends: the node leads, and the request has its term and
  -- commit index, an entry of its log or its snapshot as the previous one, with the right term, and as
  -- its entries exactly those of the log above that index, as they are; they follow it one by one up to
  -- the last index.
  pub prepare_round-Sends :
      (peer : String) (n : Node S M) (req : AppendEntriesRequest)
      → IsValid n
      → (prepare_round peer n).1 ≡ send req
      → Sends n req
  unfolding prepare_round
  prepare_round-Sends peer n req v =
      let P : Node S M × Round → Type 0 = λ r. r.1 ≡ send req → Sends n req in
      if-cases P (n.stopped || not (is_leader n.role)) _ _ (λ _ h. absurd (no_request h))
        λ live.
          let leads : is_leader n.role ≡ true = ground arith in
          if-cases P (n.next_index peer == 0) _ _
            (λ _.
              let next = inc64 (last_index n.snapshot n.log) in
              prepare_from-Sends peer next (record n { next_index = update n.next_index peer next })
                req v leads)
            (λ _. prepare_from-Sends peer (n.next_index peer) n req v leads)
    where
      no_request : over ≢ send req
      no_request h = cc
