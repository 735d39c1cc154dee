-- ===== src/Server/Service/Answers.antt =====
-- internal/server/service.go: what a client can rely on in the answers.
use go_raft_kv.Prelude.{
  ℕ, ◌≡◌, ◌⊎◌, inl, inr, refl, ap, String, Bool, true, false, Option, none, some, Option-cases,
  arith,
}
use go_raft_kv.Storage.Types.{Command, ApplyResult}
use go_raft_kv.Api
use go_raft_kv.Raft.Types.{Error, not_leader, ApplyOutcome, Store, Timer}
use go_raft_kv.Raft.Node.{Node, is_leader, leader_address, not_leader_error, no_result}
use go_raft_kv.Raft.Errors.{error_text, as_not_leader}
use go_raft_kv.Raft.Propose.{
  Accepted, rejected, accepted, Wakeup, outcome, cancelled, propose, propose_append, propose_result,
  result_from_outcome, answer_proposal,
}
use go_raft_kv.Server.Service.{
  leader_hint, put_command, delete_command, cas_command, put_response, delete_response,
  cas_response, put, delete, cas,
}
use go_raft_kv.Server.Service.Proposed.{Proposed, accepted-Proposed}

-- The outcome that reached the waiter says that the command was applied.
abbrev pub Applied : Wakeup → Type 0
Applied w =
    (o : ApplyOutcome) × ((w ≡ outcome o) ⊎ (w ≡ cancelled (some o)))
    × (o.err ≡ none)
    × (o.result.ok ≡ true)

outcome_ok :
    (o : ApplyOutcome)
    → (result_from_outcome o).1 ≡ none
    → (result_from_outcome o).0.ok ≡ true
    → (o.err ≡ none) × (o.result.ok ≡ true)
unfolding result_from_outcome
outcome_ok o h k = elim (Option-cases o.err) [
  | inl e ↦ (e, ground (arith, e, h, k))
  | inr (x, e) ↦ absurd (ground (arith, e, h))
]

propose_result_ok :
    (index : ℕ) (w : Wakeup)
    → (propose_result index w).1 ≡ none
    → (propose_result index w).0.ok ≡ true
    → Applied w
unfolding propose_result
propose_result_ok index (outcome o) h k = let (a, b) = outcome_ok o h k in (o, inl refl, a, b)
propose_result_ok index (cancelled (some o)) h k =
    let (a, b) = outcome_ok o h k in (o, inr refl, a, b)
propose_result_ok index (cancelled none) h k = absurd (cc)

module _ {S M : Type 0} where
  answer_proposal_ok :
      (w : Wakeup) (a : Node S M × Accepted)
      → (answer_proposal w a).2 ≡ none
      → (answer_proposal w a).1.ok ≡ true
      → ((waiter index : ℕ) × (a.1 ≡ accepted waiter index)) × Applied w
  unfolding answer_proposal
  answer_proposal_ok (outcome o) (n, rejected e) h k = absurd (cc)
  answer_proposal_ok (cancelled o) (n, rejected e) h k = absurd (cc)
  answer_proposal_ok (outcome o) (n, accepted waiter index) h k =
      ((waiter, index, refl), propose_result_ok index (outcome o) h k)
  answer_proposal_ok (cancelled o) (n, accepted waiter index) h k =
      ((waiter, index, refl), propose_result_ok index (cancelled o) h k)

module _ (ctx : String) where
  put_response_ok :
      (res : ApplyResult) (e : Option Error)
      → (put_response ctx res e).ok ≡ true
      → (e ≡ none) × (res.ok ≡ true)
  unfolding put_response
  put_response_ok res none h = (refl, h)
  put_response_ok res (some e) h = absurd (cc)

  delete_response_ok :
      (res : ApplyResult) (e : Option Error)
      → (delete_response ctx res e).ok ≡ true
      → (e ≡ none) × (res.ok ≡ true)
  unfolding delete_response
  delete_response_ok res none h = (refl, h)
  delete_response_ok res (some e) h = absurd (cc)

  cas_response_ok :
      (res : ApplyResult) (e : Option Error)
      → (cas_response ctx res e).ok ≡ true
      → (e ≡ none) × (res.ok ≡ true)
  unfolding cas_response
  cas_response_ok res none h = (refl, h)
  cas_response_ok res (some e) h = absurd (cc)

-- A client's request to write.
pub data Write : Type 0 where
  puts : Api.PutRequest → Write
  deletes : Api.DeleteRequest → Write
  swaps : Api.CasRequest → Write

abbrev pub write_command : Write → Command
write_command (puts req) = put_command req
write_command (deletes req) = delete_command req
write_command (swaps req) = cas_command req

module _ {S M : Type 0} (st : Store S) (ctx : String) (t : Timer) (w : Wakeup) (n : Node S M) where
  -- Whether the service's answer has OK.
  abbrev pub write_ok : Write → Bool
  write_ok (puts req) = (put st ctx t req w n).1.ok
  write_ok (deletes req) = (delete st ctx t req w n).1.ok
  write_ok (swaps req) = (cas st ctx t req w n).1.ok

module _ {S M : Type 0} (st : Store S) (ctx : String) (t : Timer) (w : Wakeup) (n : Node S M) where
  -- What stands behind an acknowledgement of a command.
  abbrev pub Acknowledged : Command → Type 0
  Acknowledged c = Proposed st t c n × Applied w

  proposed_ok :
      (c : Command)
      → ((propose st t c w n).2 ≡ none) × ((propose st t c w n).1.ok ≡ true)
      → Acknowledged c
  unfolding propose
  proposed_ok c (h, k) =
      let ((waiter, index, there), applied) = answer_proposal_ok w (propose_append st t c n) h k in
      (accepted-Proposed st t c n waiter index there, applied)

  -- When a put, a delete or a compare-and-swap is answered with OK, the node ran and led, its store
  -- took without an error an entry with the request's command, the node's term and the next index, the
  -- node put the entry behind its log and registered a new channel for its index, and what the caller
  -- received from its channel, at the latest when its context ended, is an outcome without an error and
  -- with the state machine's OK.
  pub write_ok-Applied :
      (r : Write) → write_ok st ctx t w n r ≡ true → Acknowledged (write_command r)
  unfolding put delete cas
  write_ok-Applied (puts req) h = proposed_ok (put_command req) (
      put_response_ok ctx (propose st t (put_command req) w n).1
        (propose st t (put_command req) w n).2 h)
  write_ok-Applied (deletes req) h = proposed_ok (delete_command req) (
      delete_response_ok ctx (propose st t (delete_command req) w n).1
        (propose st t (delete_command req) w n).2 h)
  write_ok-Applied (swaps req) h = proposed_ok (cas_command req) (
      cas_response_ok ctx (propose st t (cas_command req) w n).1
        (propose st t (cas_command req) w n).2 h)

  propose_append_not_leader :
      (c : Command)
      → n.stopped ≡ false
      → n.storage_fatal ≡ none
      → is_leader n.role ≡ false
      → propose_append st t c n ≡ (n, rejected (not_leader_error n))
  unfolding propose_append
  propose_append_not_leader c runs sound follows = ground (arith, runs, sound, follows)

  propose_not_leader :
      (c : Command)
      → n.stopped ≡ false
      → n.storage_fatal ≡ none
      → is_leader n.role ≡ false
      → propose st t c w n ≡ (n, no_result, some (not_leader_error n))
  unfolding propose answer_proposal
  propose_not_leader c runs sound follows =
      ap (answer_proposal w) (propose_append_not_leader c runs sound follows)

  -- A running node that does not lead answers every write, without a change of its state, with no OK
  -- and with the identifier and the address of the leader that it knows.
  pub write_not_leader :
      (put_req : Api.PutRequest) (delete_req : Api.DeleteRequest) (cas_req : Api.CasRequest)
      → n.stopped ≡ false
      → n.storage_fatal ≡ none
      → is_leader n.role ≡ false
      → (put st ctx t put_req w n ≡ (
        n,
        record {
          ok = false;
          error = error_text ctx (not_leader n.leader_id (leader_address n));
          leader_id = n.leader_id;
          leader_address = leader_address n;
        },
      ))
        × (delete st ctx t delete_req w n ≡ (
          n,
          record {
            ok = false;
            found = false;
            previous_value = "";
            error = error_text ctx (not_leader n.leader_id (leader_address n));
            leader_id = n.leader_id;
            leader_address = leader_address n;
          },
        ))
        × (cas st ctx t cas_req w n ≡ (
          n,
          record {
            ok = false;
            swapped = false;
            found = false;
            current_value = "";
            error = error_text ctx (not_leader n.leader_id (leader_address n));
            leader_id = n.leader_id;
            leader_address = leader_address n;
          },
        ))
  unfolding put delete cas put_response delete_response cas_response leader_hint not_leader_error
      as_not_leader
  write_not_leader put_req delete_req cas_req runs sound follows = (
    ap (λ (r : Node S M × ApplyResult × Option Error). (r.0, put_response ctx r.1 r.2))
        (propose_not_leader (put_command put_req) runs sound follows),
    ap (λ (r : Node S M × ApplyResult × Option Error). (r.0, delete_response ctx r.1 r.2))
        (propose_not_leader (delete_command delete_req) runs sound follows),
    ap (λ (r : Node S M × ApplyResult × Option Error). (r.0, cas_response ctx r.1 r.2))
        (propose_not_leader (cas_command cas_req) runs sound follows),
  )
