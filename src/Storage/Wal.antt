-- ===== src/Storage/Wal.antt =====
-- internal/storage/wal.go: the write-ahead log's records, how they are written, and how a log is read
-- and brought in line with the snapshot. encoding/json, bytes.TrimSpace and hash/crc32 are parameters.
pub mod Lines
pub mod ReadBack
pub mod Crash
use go_raft_kv.Prelude.{
  ℕ, ◌+◌, ◌⊎◌, inl, inr, String, Bool, true, false, not, ◌&&◌, ◌||◌, Option, none, some, List, [],
  ◌∷◌, ◌++◌, ltb, leb, ◌==◌, if◌then◌else◌, length, get_last?, keep, str_eq,
}
use go_raft_kv.Prelude.Word.{inc64}
use go_raft_kv.Storage.Types.{op_put, other, Command, LogEntry, Snapshot}

-- The `type` is "base" for a base record and "" for an entry; a nil `crc` is `none`.
pub record WalLine : Type 0 where
  pub line_type : String
  pub last_included_index : ℕ
  pub last_included_term : ℕ
  pub index : ℕ
  pub term : ℕ
  pub command : Command
  pub crc : Option ℕ

-- What the code takes from the libraries, over a type of bytes. `marshal` does not fail on a struct of
-- strings and numbers.
pub record Codec (B : Type 0) : Type 0 where
  pub newline : B
  pub is_newline : B → Bool
  pub marshal : WalLine → List B
  pub unmarshal : List B → Option WalLine
  pub trim : List B → List B
  pub crc32 : List B → ℕ

pub record WalData : Type 0 where
  pub has_base : Bool
  pub base_index : ℕ
  pub base_term : ℕ
  pub entries : List LogEntry

-- The errors of reading a log, without their texts.
pub data WalError : Type 0 where
  not_json checksum_mismatch base_not_first zero_index : WalError
  unknown_type : String → WalError
  not_after_base not_first not_next : ℕ → ℕ → WalError
  unreadable truncate_failed : String → WalError

pub data DecodedWalLine : Type 0 where
  base : ℕ → ℕ → DecodedWalLine
  entry : LogEntry → DecodedWalLine

abbrev pub no_command : Command
no_command = record { op = other ""; key = ""; value = ""; expected = "" }

abbrev pub base_line : ℕ → ℕ → WalLine
base_line base_index base_term = record {
  line_type = "base";
  last_included_index = base_index;
  last_included_term = base_term;
  index = 0;
  term = 0;
  command = no_command;
  crc = none;
}

abbrev pub entry_line : LogEntry → WalLine
entry_line e = record {
  line_type = "";
  last_included_index = 0;
  last_included_term = 0;
  index = e.index;
  term = e.term;
  command = e.command;
  crc = none;
}

-- The switch on a line's type.
unfoldable pub decode_type : WalLine → WalError ⊎ DecodedWalLine
decode_type raw =
    if str_eq raw.line_type "base"
    then inr (base raw.last_included_index raw.last_included_term)
    else if str_eq raw.line_type ""
    then inr (entry (record { index = raw.index; term = raw.term; command = raw.command }))
    else inl (unknown_type raw.line_type)

module _ {B : Type 0} (c : Codec B) where
  unfoldable pub wal_checksum : WalLine → ℕ
  wal_checksum line = c.crc32 (c.marshal (record line { crc = none }))

  -- The bytes of a line, with the newline that `Encode` adds.
  unfoldable pub encode_wal_line : WalLine → List B
  unfolding wal_checksum
  encode_wal_line line =
      c.marshal (record line { crc = some (wal_checksum line) }) ++ c.newline ∷ []

  -- The loop that encodes entries.
  unfoldable pub encode_wal_entries : List LogEntry → List B
  unfolding encode_wal_line
  encode_wal_entries [] = []
  encode_wal_entries (e ∷ entries) = encode_wal_line (entry_line e) ++ encode_wal_entries entries

  -- The file that `writeWALAtomic` renames into place.
  unfoldable pub encode_wal : ℕ → ℕ → List LogEntry → List B
  unfolding encode_wal_entries
  encode_wal base_index base_term entries =
      encode_wal_line (base_line base_index base_term) ++ encode_wal_entries entries

  unfoldable pub check_crc : WalLine → WalError ⊎ DecodedWalLine
  unfolding wal_checksum decode_type
  check_crc raw = elim raw.crc [
    | none ↦ decode_type raw
    | some sum ↦ if wal_checksum raw == sum then decode_type raw else inl checksum_mismatch
  ]

  unfoldable pub decode_wal_line : List B → WalError ⊎ DecodedWalLine
  unfolding check_crc
  decode_wal_line line = elim (c.unmarshal line) [ none ↦ inl not_json | some raw ↦ check_crc raw ]

-- The checks of `readWAL` on a decoded line.
unfoldable pub add_entry : WalData → LogEntry → WalError ⊎ WalData
add_entry wal e =
    if e.index == 0
    then inl zero_index
    else if wal.has_base && leb e.index wal.base_index
    then inl (not_after_base e.index wal.base_index)
    else if (length wal.entries == 0) && wal.has_base && not (e.index == inc64 wal.base_index)
    then inl (not_first e.index wal.base_index)
    else elim (get_last? wal.entries) [
      | none ↦ inr (record wal { entries = wal.entries ++ e ∷ [] })
      | some prev ↦
          if not (e.index == inc64 prev.index)
          then inl (not_next e.index prev.index)
          else inr (record wal { entries = wal.entries ++ e ∷ [] })
    ]

unfoldable pub add_line : WalData → DecodedWalLine → WalError ⊎ WalData
unfolding add_entry
add_line wal (base base_index base_term) =
    if wal.has_base || ltb 0 (length wal.entries)
    then inl base_not_first
    else inr (record wal { has_base = true; base_index = base_index; base_term = base_term })
add_line wal (entry e) = add_entry wal e

module _ {B : Type 0} (c : Codec B) where
  -- A byte in front of the lines and the rest that follow it.
  unfoldable pub push_byte : B → List (List B) × List B → List (List B) × List B
  push_byte b (lines, tail) =
      if c.is_newline b
      then ([] ∷ lines, tail)
      else elim lines [ [] ↦ ([], b ∷ tail) | line ∷ rest ↦ ((b ∷ line) ∷ rest, tail) ]

  -- The complete lines of a file, and the bytes behind the last newline.
  unfoldable pub split_lines : List B → List (List B) × List B
  unfolding push_byte
  split_lines [] = ([], [])
  split_lines (b ∷ bytes) = push_byte b (split_lines bytes)

  -- The bytes of complete lines.
  unfoldable pub join_lines : List (List B) → List B
  join_lines [] = []
  join_lines (line ∷ lines) = line ++ c.newline ∷ join_lines lines

-- What `os.ReadFile` gives.
pub data FileRead (B : Type 0) : Type 0 where
  missing : FileRead B
  failed : String → FileRead B
  content : List B → FileRead B

abbrev pub empty_wal : WalData
empty_wal = record { has_base = false; base_index = 0; base_term = 0; entries = [] }

module _ {B : Type 0} (c : Codec B) where
  unfoldable pub read_line : List B → WalData → WalError ⊎ WalData
  unfolding decode_wal_line add_line
  read_line bytes wal =
      let line = c.trim bytes in
      if length line == 0
      then inr wal
      else elim (decode_wal_line c line) [ inl e ↦ inl e | inr decoded ↦ add_line wal decoded ]

  -- The loop of `readWAL` over the complete lines.
  unfoldable pub read_lines : List (List B) → WalData → WalError ⊎ WalData
  unfolding read_line
  read_lines [] wal = inr wal
  read_lines (line ∷ lines) wal = elim (read_line line wal) [
    | inl e ↦ inl e
    | inr next ↦ read_lines lines next
  ]

  -- `truncate` is the error of cutting the partial tail off, if that fails. The file after the call
  -- is returned too.
  unfoldable pub read_split :
      Option String → List B → List (List B) × List B → (WalError ⊎ WalData) × FileRead B
  unfolding read_lines join_lines
  read_split truncate bytes (lines, tail) = elim (read_lines lines empty_wal) [
    | inl e ↦ (inl e, content bytes)
    | inr wal ↦ if length tail == 0 then (inr wal, content bytes) else elim truncate [
      | none ↦ (inr wal, content (join_lines c lines))
      | some e ↦ (inl (truncate_failed e), content bytes)
    ]
  ]

  unfoldable pub read_wal : Option String → FileRead B → (WalError ⊎ WalData) × FileRead B
  unfolding split_lines read_split
  read_wal truncate missing = (inr empty_wal, missing)
  read_wal truncate (failed e) = (inl (unreadable e), failed e)
  read_wal truncate (content bytes) = read_split truncate bytes (split_lines c bytes)

unfoldable pub has_snapshot_boundary_entry : List LogEntry → Snapshot → Bool
has_snapshot_boundary_entry [] snap =
    (snap.last_included_index == 0) && (snap.last_included_term == 0)
has_snapshot_boundary_entry (e ∷ entries) snap =
    let rest = has_snapshot_boundary_entry entries snap in
    if e.index == snap.last_included_index then e.term == snap.last_included_term else rest

-- `out` is a buffer over the same array, and is copied before it is returned.
unfoldable pub entries_after : List LogEntry → ℕ → List LogEntry × Bool
entries_after entries index =
    let out = keep (λ (e : LogEntry). ltb index e.index) entries in
    (out, not (length out == length entries))

-- The entries behind the snapshot, and whether the file has to be written again.
unfoldable pub reconcile_wal_with_snapshot : WalData → Snapshot → List LogEntry × Bool
unfolding has_snapshot_boundary_entry entries_after
reconcile_wal_with_snapshot wal snap =
    if wal.has_base
      && (wal.base_index == snap.last_included_index)
      && (wal.base_term == snap.last_included_term)
    then entries_after wal.entries snap.last_included_index
    else if has_snapshot_boundary_entry wal.entries snap
    then ((entries_after wal.entries snap.last_included_index).0, true)
    else if (length wal.entries == 0) && not wal.has_base
    then ([], false)
    else ([], true)
