-- ===== src/Raft/Configure/Laws.antt =====
-- internal/raft/node.go: the timeouts of a node whose configuration was normalised.
use go_raft_kv.Prelude.{ℕ, ◌+◌, ◌*◌, ◌-◌, ◌≤◌, ◌<◌, ◌≡◌, refl, true, arith, max}
use go_raft_kv.Prelude.Ints.{ℤ, pos, negsuc, lebℤ, to_nat}
use go_raft_kv.Raft.Types.{Timer}
use go_raft_kv.Raft.Node.{Node, reset_election}
use go_raft_kv.Raft.Recover
use go_raft_kv.Raft.Configure.{
  Config, millisecond, or_positive, longer_than, normalize_config, settle,
}

or_positive-pos : (z : ℤ) (d : ℕ) → 0 < d → 0 < to_nat (or_positive z d)
or_positive-pos (pos n) d h = ground (arith, h)
or_positive-pos (negsuc n) d h = h

-- A time that is not longer is replaced by the default.
longer_than_short : (z low : ℤ) (d : ℕ) → lebℤ z low ≡ true → to_nat (longer_than z low d) ≡ d
longer_than_short z low d h = rw h refl

-- The configuration that a node is built from.
abbrev pub settled : Config → Recover.Config
settled c = settle (normalize_config c)

module _ {S M : Type 0} (t : Timer) (n : Node S M) where
  reset_election_bounds :
      ((k : ℕ) → 0 < k → t.draw k < k)
      → (t.now + n.timeout_min ≤ (reset_election t n).election_due)
        × ((reset_election t n).election_due < t.now + max n.timeout_max (n.timeout_min + 1))
  unfolding reset_election
  reset_election_bounds draws = ground (arith, draws (n.timeout_max - n.timeout_min))

  reset_election_fixed :
      n.timeout_max ≤ n.timeout_min → (reset_election t n).election_due ≡ t.now + n.timeout_min
  unfolding reset_election
  reset_election_fixed h = ground (arith, h)

  -- For every configuration, however its numbers are chosen, a node with the timeouts that it is
  -- normalised to has a positive lower timeout and positive sizes for its snapshots, and each time that
  -- its election timer is reset, the election is due not before the lower timeout and before the upper
  -- one, or exactly at the lower one where the upper is not above it; `rand.Int63n` draws below its
  -- bound.
  pub normalize_config_bounds :
      (c : Config)
      → ((k : ℕ) → 0 < k → t.draw k < k)
      → n.timeout_min ≡ (settled c).election_timeout_min
      → n.timeout_max ≡ (settled c).election_timeout_max
      → (0 < n.timeout_min)
        × (0 < (settled c).snapshot_threshold)
        × (0 < (settled c).snapshot_chunk_bytes)
        × (t.now + n.timeout_min ≤ (reset_election t n).election_due)
        × ((reset_election t n).election_due < t.now + max n.timeout_max (n.timeout_min + 1))
  unfolding normalize_config settle
  normalize_config_bounds c draws low high =
      let (after, ahead) = reset_election_bounds draws in
      (
        omega (arith, or_positive-pos c.election_timeout_min 300000000 (omega arith), low),
        or_positive-pos c.snapshot_threshold 64 (omega arith),
        or_positive-pos c.snapshot_chunk_bytes 1048576 (omega arith),
        after,
        ahead,
      )

  -- With a lower timeout of 600 milliseconds or more and an upper one that is not longer, such as none,
  -- the normalised upper timeout of 600 milliseconds is not above the lower one, and the election is due
  -- at the lower timeout whatever is drawn.
  pub normalize_config_fixed :
      (c : Config)
      → lebℤ c.election_timeout_max (or_positive c.election_timeout_min (300 * millisecond)) ≡ true
      → 600 * millisecond ≤ (settled c).election_timeout_min
      → n.timeout_min ≡ (settled c).election_timeout_min
      → n.timeout_max ≡ (settled c).election_timeout_max
      → (reset_election t n).election_due ≡ t.now + (settled c).election_timeout_min
  unfolding normalize_config settle
  normalize_config_fixed c short long low high =
      let top =
        longer_than_short c.election_timeout_max
          (or_positive c.election_timeout_min (300 * millisecond)) (600 * millisecond) short in
      omega (arith, reset_election_fixed (omega (arith, top, high, low, long)), low)
