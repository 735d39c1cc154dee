-- ===== src/Storage/Store.antt =====
-- internal/storage/wal.go: the methods of `Store` over the three files. A JSON file is the value that
-- it holds; the outcome of each write to a file is an argument of the method.
use go_raft_kv.Prelude.{
  ℕ, ◌⊎◌, inl, inr, String, Bool, true, ◌&&◌, Option, none, some, List, [], ◌++◌, ltb, ◌==◌,
  if◌then◌else◌, length, take,
}
use go_raft_kv.Storage.Types.{LogEntry, HardState, Snapshot}
use go_raft_kv.Storage.Wal.{
  Codec, WalData, WalError, FileRead, missing, failed, content, base_line, encode_wal_line,
  encode_wal_entries, encode_wal, read_wal, reconcile_wal_with_snapshot,
}

-- What `readJSONFile` finds.
pub data JsonFile (A : Type 0) : Type 0 where
  absent : JsonFile A
  invalid : String → JsonFile A
  holds : A → JsonFile A

pub record Files (B : Type 0) : Type 0 where
  pub hard_state : JsonFile HardState
  pub wal : FileRead B
  pub snapshot : JsonFile Snapshot

-- The outcome of a write to a temporary file that is renamed: done, an error before the rename, or an
-- error of the sync of the directory after it.
pub data AtomicWrite : Type 0 where
  replaced : AtomicWrite
  refused unsynced : String → AtomicWrite

-- The outcome of an append: done, an error after some bytes, or an error of the sync or the close.
pub data Append : Type 0 where
  appended : Append
  torn : ℕ → String → Append
  unsafe : String → Append

pub data LoadError : Type 0 where
  bad_hard_state bad_snapshot not_rewritten : String → LoadError
  bad_wal : WalError → LoadError
  snapshot_missing : ℕ → LoadError

unfoldable pub write_atomic : {A : Type 0} → AtomicWrite → A → A → A × Option String
write_atomic replaced old new = (new, none)
write_atomic (refused e) old new = (old, some e)
write_atomic (unsynced e) old new = (new, some e)

unfoldable pub append_bytes : {B : Type 0} → Append → List B → List B → List B × Option String
append_bytes appended old new = (old ++ new, none)
append_bytes (torn k e) old new = (old ++ take k new, some e)
append_bytes (unsafe e) old new = (old ++ new, some e)

-- A missing file is the zero value.
unfoldable pub or_zero : {A : Type 0} → A → JsonFile A → String ⊎ A
or_zero zero absent = inr zero
or_zero zero (invalid e) = inl e
or_zero zero (holds a) = inr a

abbrev pub zero_hard_state : HardState
zero_hard_state = record { current_term = 0; voted_for = ""; commit_index = 0 }

abbrev pub zero_snapshot : Snapshot
zero_snapshot = record { last_included_index = 0; last_included_term = 0; contents = none }

unfoldable pub snapshot_base : JsonFile Snapshot → String ⊎ (ℕ × ℕ)
snapshot_base absent = inr (0, 0)
snapshot_base (invalid e) = inl e
snapshot_base (holds snap) = inr (snap.last_included_index, snap.last_included_term)

unfoldable pub save_hard_state :
    {B : Type 0} → AtomicWrite → HardState → Files B → Files B × Option String
unfolding write_atomic
save_hard_state w hs f =
    let (file, err) = write_atomic w f.hard_state (holds hs) in
    (record f { hard_state = file }, err)

unfoldable pub save_snapshot :
    {B : Type 0} → AtomicWrite → Snapshot → Files B → Files B × Option String
unfolding write_atomic
save_snapshot w snap f =
    let (file, err) = write_atomic w f.snapshot (holds snap) in (record f { snapshot = file }, err)

module _ {B : Type 0} (c : Codec B) where
  unfoldable pub replace_entries : AtomicWrite → List LogEntry → Files B → Files B × Option String
  unfolding snapshot_base write_atomic encode_wal
  replace_entries w entries f = elim (snapshot_base f.snapshot) [
    | inl e ↦ (f, some e)
    | inr b ↦
        let (file, err) = write_atomic w f.wal (content (encode_wal c b.0 b.1 entries)) in
        (record f { wal = file }, err)
  ]

  -- The bytes that are there, and whether the file is new; an empty one counts as new.
  unfoldable pub append_to :
      Append → List B → List LogEntry → Bool → Files B → Files B × Option String
  unfolding append_bytes snapshot_base encode_wal_line encode_wal_entries
  append_to a old entries created f =
      let lines = encode_wal_entries c entries in
      elim (if created then snapshot_base f.snapshot else inr (0, 0)) [
        | inl e ↦ (f, some e)
        | inr b ↦
            let new = if created then encode_wal_line c (base_line b.0 b.1) ++ lines else lines in
            let (bytes, err) = append_bytes a old new in (record f { wal = content bytes }, err)
      ]

  unfoldable pub append_file :
      Append → List LogEntry → FileRead B → Files B → Files B × Option String
  unfolding append_to
  append_file a entries (failed e) f = (f, some e)
  append_file a entries missing f = append_to a [] entries true f
  append_file a entries (content bytes) f = append_to a bytes entries (length bytes == 0) f

  unfoldable pub append_entries : Append → List LogEntry → Files B → Files B × Option String
  unfolding append_file
  append_entries a entries f =
      if length entries == 0 then (f, none) else append_file a entries f.wal f

  -- What `Load` does with the log once all files are read.
  unfoldable pub settle :
      AtomicWrite
      → HardState
      → Snapshot
      → WalData
      → Files B
      → Files B × (LoadError ⊎ (HardState × List LogEntry × Snapshot))
  unfolding reconcile_wal_with_snapshot write_atomic encode_wal
  settle w hs snap wal f =
      if ltb 0 snap.last_included_index
      then (let (entries, rewrite) = reconcile_wal_with_snapshot wal snap in
          let bytes = encode_wal c snap.last_included_index snap.last_included_term entries in
          let (file, err) = write_atomic w f.wal (content bytes) in
          if rewrite
          then elim err [
            | some e ↦ (record f { wal = file }, inl (not_rewritten e))
            | none ↦ (record f { wal = file }, inr (hs, entries, snap))
          ]
          else (f, inr (hs, entries, snap)))
      else if wal.has_base && ltb 0 wal.base_index
      then (f, inl (snapshot_missing wal.base_index))
      else (f, inr (hs, wal.entries, snap))

  -- What follows the reading of the log.
  unfoldable pub after_read :
      AtomicWrite
      → HardState
      → Snapshot
      → Files B
      → (WalError ⊎ WalData) × FileRead B
      → Files B × (LoadError ⊎ (HardState × List LogEntry × Snapshot))
  unfolding settle
  after_read w hs snap f (inl e, file) = (record f { wal = file }, inl (bad_wal e))
  after_read w hs snap f (inr wal, file) = settle w hs snap wal (record f { wal = file })

  unfoldable pub load_wal :
      Option String
      → AtomicWrite
      → HardState
      → Snapshot
      → Files B
      → Files B × (LoadError ⊎ (HardState × List LogEntry × Snapshot))
  unfolding read_wal after_read
  load_wal truncate w hs snap f = after_read w hs snap f (read_wal c truncate f.wal)

  unfoldable pub load :
      Option String
      → AtomicWrite
      → Files B
      → Files B × (LoadError ⊎ (HardState × List LogEntry × Snapshot))
  unfolding or_zero load_wal
  load truncate w f = elim (or_zero zero_hard_state f.hard_state) [
    | inl e ↦ (f, inl (bad_hard_state e))
    | inr hs ↦ elim (or_zero zero_snapshot f.snapshot) [
      | inl e ↦ (f, inl (bad_snapshot e))
      | inr snap ↦ load_wal truncate w hs snap f
    ]
  ]
