-- ===== src/Raft/Progress.antt =====
-- What every handler of internal/raft/node.go keeps: the node's log is contiguous above its
-- snapshot, the indexes are in order, and nothing goes back.
pub mod Frames
pub mod Heed
pub mod Vote
pub mod Append
pub mod Commit
pub mod Replicate
pub mod Lead
pub mod Compact
pub mod Apply
pub mod Installed
pub mod Receive
pub mod Install
use go_raft_kv.Prelude.{
  ℕ, ◌+◌, ◌≤◌, ◌<◌, ◌≡◌, ◌≢◌, refl, sym, ◌∙◌, String, Bool, arith, Option, none, some, List,
}
use native.Mathlib.Nat.{le_refl, le_trans}
use go_raft_kv.Prelude.Word.{u64_mod}
use go_raft_kv.Storage.Types.{LogEntry, Snapshot}
use go_raft_kv.Raft.Log.{last_index, entry_at}
use go_raft_kv.Raft.Log.Contiguous.{Contiguous}
use go_raft_kv.Raft.Log.Suffix.{behind, behind-Contiguous, last_index-behind, entry_at-behind}
use go_raft_kv.Raft.Node.{Node}

-- A change of term in the middle would not be undone.
same_term : {a b c : ℕ} → a ≤ b → b ≤ c → a ≡ c → a ≡ b
same_term h k e = omega arith

module _ {S M : Type 0} where
  abbrev pub IsValid : Node S M → Type 0
  IsValid n = record {
    contiguous : Contiguous n.snapshot.last_included_index n.log;
    covered : n.snapshot.last_included_index ≤ n.last_applied;
    applied : n.last_applied ≤ n.commit_index;
    committed : n.commit_index ≤ last_index n.snapshot n.log;
    bounded : last_index n.snapshot n.log < u64_mod;
  }

  -- From `n` to `m` no index and no term falls, a vote is kept within its term, and an entry up to
  -- the commit index stays as it is until a snapshot covers it.
  abbrev pub Advances : Node S M → Node S M → Type 0
  Advances n m = record {
    terms : n.current_term ≤ m.current_term;
    votes : n.current_term ≡ m.current_term → n.voted_for ≢ "" → m.voted_for ≡ n.voted_for;
    snapshots : n.snapshot.last_included_index ≤ m.snapshot.last_included_index;
    commits : n.commit_index ≤ m.commit_index;
    applies : n.last_applied ≤ m.last_applied;
    entries :
        (i : ℕ)
        → i ≤ n.commit_index
        → m.snapshot.last_included_index < i
        → entry_at m.snapshot m.log i ≡ entry_at n.snapshot n.log i;
  }

  pub Advances-refl : (n : Node S M) → Advances n n
  Advances-refl n = record {
    terms = le_refl _;
    votes = λ _ _. refl;
    snapshots = le_refl _;
    commits = le_refl _;
    applies = le_refl _;
    entries = λ i _ _. refl;
  }

  pub Advances-trans : (n m o : Node S M) → Advances n m → Advances m o → Advances n o
  Advances-trans n m o a b = record {
    terms = le_trans a.terms b.terms;
    votes = λ e v.
        let first = a.votes (same_term a.terms b.terms e) v in
        b.votes (sym (same_term a.terms b.terms e) ∙ e) (λ z. v (sym first ∙ z)) ∙ first;
    snapshots = le_trans a.snapshots b.snapshots;
    commits = le_trans a.commits b.commits;
    applies = le_trans a.applies b.applies;
    entries =
        λ i h k. b.entries i (le_trans h a.commits) k ∙ a.entries i h (omega (arith, b.snapshots));
  }

  -- The parts that `IsValid` and the entries depend on are as they were.
  abbrev pub SameLog : Node S M → Node S M → Type 0
  SameLog n m = record {
    snapshot : m.snapshot ≡ n.snapshot;
    log : m.log ≡ n.log;
    commit_index : m.commit_index ≡ n.commit_index;
    last_applied : m.last_applied ≡ n.last_applied;
  }

  pub SameLog-refl : (n : Node S M) → SameLog n n
  SameLog-refl n = record { snapshot = refl; log = refl; commit_index = refl; last_applied = refl }

  pub SameLog-trans : (n m o : Node S M) → SameLog n m → SameLog m o → SameLog n o
  SameLog-trans n m o a b = record {
    snapshot = b.snapshot ∙ a.snapshot;
    log = b.log ∙ a.log;
    commit_index = b.commit_index ∙ a.commit_index;
    last_applied = b.last_applied ∙ a.last_applied;
  }

  pub SameLog-IsValid : (n m : Node S M) → SameLog n m → IsValid n → IsValid m
  SameLog-IsValid n m s v = record {
    contiguous = rw (s.snapshot, s.log) v.contiguous;
    covered = rw (s.snapshot, s.last_applied) v.covered;
    applied = rw (s.commit_index, s.last_applied) v.applied;
    committed = rw (s.snapshot, s.log, s.commit_index) v.committed;
    bounded = rw (s.snapshot, s.log) v.bounded;
  }

  -- Terms only grow, and within a term a vote is not changed.
  abbrev pub VoteKeeps : Node S M → Node S M → Type 0
  VoteKeeps n m = record {
    terms : n.current_term ≤ m.current_term;
    votes : n.current_term ≡ m.current_term → n.voted_for ≢ "" → m.voted_for ≡ n.voted_for;
  }

  pub VoteKeeps-trans : (n m o : Node S M) → VoteKeeps n m → VoteKeeps m o → VoteKeeps n o
  VoteKeeps-trans n m o a b = record {
    terms = le_trans a.terms b.terms;
    votes = λ e v.
        let first = a.votes (same_term a.terms b.terms e) v in
        b.votes (sym (same_term a.terms b.terms e) ∙ e) (λ z. v (sym first ∙ z)) ∙ first;
  }

  pub SameLog-Advances : (n m : Node S M) → SameLog n m → VoteKeeps n m → Advances n m
  SameLog-Advances n m s v = record {
    terms = v.terms;
    votes = v.votes;
    snapshots = rw (s.snapshot) (le_refl _);
    commits = rw (s.commit_index) (le_refl _);
    applies = rw (s.last_applied) (le_refl _);
    entries = λ i _ _. rw (s.snapshot, s.log) refl;
  }

  -- A step that starts in a valid state ends in one, and goes back on nothing.
  abbrev pub Keeps : Node S M → Node S M → Type 0
  Keeps n m = IsValid n → IsValid m × Advances n m

  pub Keeps-refl : (n : Node S M) → Keeps n n
  Keeps-refl n v = (v, Advances-refl n)

  pub Keeps-trans : (n m o : Node S M) → Keeps n m → Keeps m o → Keeps n o
  Keeps-trans n m o a b v =
      let (v', first) = a v in let (v'', second) = b v' in (v'', Advances-trans n m o first second)

  pub Keeps-relog :
      (n : Node S M) (log : List LogEntry)
      → Contiguous n.snapshot.last_included_index log
      → ((i : ℕ) → i ≤ n.commit_index → entry_at n.snapshot log i ≡ entry_at n.snapshot n.log i)
      → n.commit_index ≤ last_index n.snapshot log
      → last_index n.snapshot log < u64_mod
      → Keeps n (record n { log = log })
  Keeps-relog n log c same last small v = (
    record {
      contiguous = c;
      covered = v.covered;
      applied = v.applied;
      committed = last;
      bounded = small;
    },
    record {
      terms = le_refl _;
      votes = λ _ _. refl;
      snapshots = le_refl _;
      commits = le_refl _;
      applies = le_refl _;
      entries = λ i h _. same i h;
    },
  )

  pub Keeps-recommit :
      (n : Node S M) (commit : ℕ)
      → n.commit_index ≤ commit
      → commit ≤ last_index n.snapshot n.log
      → Keeps n (record n { commit_index = commit })
  Keeps-recommit n commit up last v = (
    record {
      contiguous = v.contiguous;
      covered = v.covered;
      applied = le_trans v.applied up;
      committed = last;
      bounded = v.bounded;
    },
    record {
      terms = le_refl _;
      votes = λ _ _. refl;
      snapshots = le_refl _;
      commits = up;
      applies = le_refl _;
      entries = λ i _ _. refl;
    },
  )

  -- A snapshot within the applied entries takes the place of the entries that it covers.
  pub Keeps-compact :
      (n : Node S M) (snap : Snapshot)
      → n.snapshot.last_included_index ≤ snap.last_included_index
      → snap.last_included_index ≤ n.last_applied
      → Keeps n (record n { snapshot = snap; log = behind snap.last_included_index n.log })
  Keeps-compact n snap up done v =
      let top : snap.last_included_index ≤ last_index n.snapshot n.log =
        omega (arith, v.applied, v.committed) in
      let same = last_index-behind n.snapshot snap n.log v.contiguous up top in
      (
        record {
          contiguous = behind-Contiguous n.snapshot snap n.log v.contiguous up top;
          covered = done;
          applied = v.applied;
          committed = omega (arith, same, v.committed);
          bounded = omega (arith, same, v.bounded);
        },
        record {
          terms = le_refl _;
          votes = λ _ _. refl;
          snapshots = up;
          commits = le_refl _;
          applies = le_refl _;
          entries = λ i _ above. entry_at-behind n.snapshot snap n.log v.contiguous up top i above;
        },
      )
