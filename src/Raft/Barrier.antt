-- ===== src/Raft/Barrier.antt =====
-- internal/raft/node.go: `ensureQuorum`, the read barrier. Its goroutines, one for each peer, count
-- answers and wake the caller; a run of it is the list of what they do under the tally's lock, with
-- the node as each of them sees it.
use go_raft_kv.Prelude.{
  ℕ, ◌+◌, String, Bool, true, false, not, ◌&&◌, ◌||◌, Option, none, some, List, [], ◌∷◌, leb, ◌==◌,
  if◌then◌else◌, length, Result, ok, err,
}
use go_raft_kv.Raft.Types.{Error, node_stopped, message}
use go_raft_kv.Raft.Node.{Node, quorum, is_leader, not_leader_error}

-- The counters that the goroutines share, and whether their channels of capacity 1 are full.
pub record Tally : Type 0 where
  pub acked : ℕ
  pub failed : ℕ
  pub acked_at : Bool
  pub quorum_ch : Bool
  pub done_ch : Bool

abbrev pub new_tally : Tally
new_tally = record { acked = 1; failed = 0; acked_at = false; quorum_ch = false; done_ch = false }

unfoldable pub count : Bool → Tally → Tally
count true c = record c { acked = c.acked + 1 }
count false c = record c { failed = c.failed + 1 }

unfoldable pub signal : ℕ → ℕ → Tally → Tally
signal target peers c =
    if leb target c.acked
    then record c { acked_at = true; quorum_ch = true }
    else if leb (peers + 1) (c.acked + c.failed)
    then record c { done_ch = true }
    else c

-- A goroutine counts the answer of its peer, with what `replicateToPeerForRead` gave and the node as
-- it is then; or it signals.
pub data Event (S M : Type 0) : Type 0 where
  counted : String → Bool → Node S M → Event S M
  signalled : Event S M

-- What the caller finds in its `select`.
pub data Woken : Type 0 where
  quorum_reached all_answered : Woken
  context_over : Error → Woken

-- One call: the node at its first section, what the goroutines did, what woke the caller, and the
-- node then.
pub record BarrierRun (S M : Type 0) : Type 0 where
  pub start : Node S M
  pub events : List (Event S M)
  pub woken : Woken
  pub finish : Node S M

abbrev pub no_quorum : Error
no_quorum = message "leader cannot contact quorum"

module _ {S M : Type 0} where
  -- A positive answer counts only while the node still leads in the term.
  unfoldable pub confirm_ack : ℕ → Bool → Node S M → Bool
  confirm_ack term answer n = answer && (is_leader n.role && (n.current_term == term))

  unfoldable pub tally : ℕ → ℕ → ℕ → List (Event S M) → Tally → Tally
  unfolding count signal confirm_ack
  tally target peers term [] c = c
  tally target peers term (counted peer answer n ∷ es) c =
      tally target peers term es (count (confirm_ack term answer n) c)
  tally target peers term (signalled ∷ es) c = tally target peers term es (signal target peers c)

  unfoldable pub open_barrier : Node S M → Result Error ℕ
  unfolding not_leader_error
  open_barrier n =
      if n.stopped
      then err node_stopped
      else if not (is_leader n.role)
      then err (not_leader_error n)
      else ok n.current_term

  -- The section that follows a quorum.
  unfoldable pub close_barrier : ℕ → Tally → Node S M → Result Error ℕ
  unfolding not_leader_error
  close_barrier term c n =
      if n.stopped
      then err node_stopped
      else if not (is_leader n.role) || not (n.current_term == term)
      then err (not_leader_error n)
      else if not c.acked_at
      then err no_quorum
      else ok term

  -- `none`: the channel is empty, and the caller waits on.
  unfoldable pub select_barrier : ℕ → Woken → Node S M → Tally → Option (Result Error ℕ)
  unfolding close_barrier
  select_barrier term quorum_reached n c =
      if c.quorum_ch then some (close_barrier term c n) else none
  select_barrier term all_answered n c = if c.done_ch then some (err no_quorum) else none
  select_barrier term (context_over e) n c = some (err e)

  unfoldable pub after_open : BarrierRun S M → Result Error ℕ → Option (Result Error ℕ)
  unfolding select_barrier tally
  after_open run (err e) = some (err e)
  after_open run (ok term) =
      select_barrier term run.woken run.finish
        (tally (quorum run.start) (length run.start.peer_addrs) term run.events new_tally)

  unfoldable pub ensure_quorum : BarrierRun S M → Option (Result Error ℕ)
  unfolding open_barrier after_open
  ensure_quorum run =
      if quorum run.start == 1
      then some (open_barrier run.start)
      else after_open run (open_barrier run.start)
