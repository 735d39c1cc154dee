-- ===== src/Storage/Unreadable.antt =====
-- `ReplaceEntries` of internal/storage/wal.go takes the base of the log from the stored snapshot, also
-- when the entries that it is given begin below that.
use go_raft_kv.Prelude.{
  ℕ, ◌≤◌, ◌<◌, ◌≡◌, refl, sym, ap, ◌∙◌, subst, inl, inr, Option, none, List, [], ◌∷◌, arith,
  append-nil, String,
}
use go_raft_kv.Storage.Types.{LogEntry, Snapshot}
use go_raft_kv.Storage.Wal.{
  Codec, not_after_base, base, entry, base_line, entry_line, empty_wal, decode_type, add_entry,
  add_line, encode_wal, split_lines, join_lines, read_line, read_lines, read_split, read_wal,
}
use go_raft_kv.Storage.Wal.Lines.{split_lines-join_lines}
use go_raft_kv.Storage.Wal.ReadBack.{
  IsLawful, based, body, bodies, all_lines, read_line-body, read_lines_step, encode_wal_lem,
}
use go_raft_kv.Storage.Wal.Crash.{all_lines-IsLine}
use go_raft_kv.Storage.Store.{holds, Files, replaced, snapshot_base, write_atomic, replace_entries}

add_entry_below :
    (i t : ℕ) (e : LogEntry)
    → 0 < e.index
    → e.index ≤ i
    → add_entry (based i t []) e ≡ inl (not_after_base e.index i)
unfolding add_entry
add_entry_below i t e pos low = ground arith

module _ {B : Type 0} (c : Codec B) (lawful : IsLawful c) where
  read_lines_below :
      (i t : ℕ) (e : LogEntry) (entries : List LogEntry)
      → 0 < e.index
      → e.index ≤ i
      → read_lines c (all_lines c lawful i t (e ∷ entries)) empty_wal
        ≡ inl (not_after_base e.index i)
  unfolding all_lines bodies decode_type add_line read_lines
  read_lines_below i t e entries pos low =
      let first : read_line c (body c lawful (base_line i t)) empty_wal ≡ inr (based i t []) =
        read_line-body c lawful (base_line i t) empty_wal (base i t) refl in
      let bad : read_line c (body c lawful (entry_line e)) (based i t [])
          ≡ inl (not_after_base e.index i) =
        read_line-body c lawful (entry_line e) (based i t []) (entry e) refl
        ∙ add_entry_below i t e pos low in
      read_lines_step c lawful (body c lawful (base_line i t)) (bodies c lawful (e ∷ entries))
        empty_wal (based i t []) first
      ∙ rw (bad, read_lines) refl

  -- A log that is replaced, while the stored snapshot is at or beyond its first entry, is written
  -- without an error and cannot be read: reading it reports that the entry is not after the base.
  pub replace_entries_below :
      (truncate : Option String) (snap : Snapshot) (e : LogEntry) (entries : List LogEntry)
      (f : Files B)
      → f.snapshot ≡ holds snap
      → 0 < e.index
      → e.index ≤ snap.last_included_index
      → ((replace_entries c replaced (e ∷ entries) f).1 ≡ none)
        × ((read_wal c truncate (replace_entries c replaced (e ∷ entries) f).0.wal).0
            ≡ inl (not_after_base e.index snap.last_included_index))
  unfolding replace_entries snapshot_base write_atomic read_wal read_split
  replace_entries_below truncate snap e entries f stored pos low =
      let i = snap.last_included_index in
      let t = snap.last_included_term in
      let lines = all_lines c lawful i t (e ∷ entries) in
      let bytes = encode_wal c i t (e ∷ entries) in
      let split : split_lines c bytes ≡ (lines, []) =
        ap (λ l. split_lines c l)
          (encode_wal_lem c lawful i t (e ∷ entries) ∙ sym (append-nil (join_lines c lines)))
        ∙ split_lines-join_lines c lawful.breaks lines []
            (all_lines-IsLine c lawful i t (e ∷ entries)) tt in
      let unreadable : (read_split c truncate bytes (split_lines c bytes)).0
          ≡ inl (not_after_base e.index i) =
        subst (λ r. (read_split c truncate bytes r).0 ≡ inl (not_after_base e.index i)) (sym split)
          (rw (read_lines_below i t e entries pos low, read_split) refl) in
      rw (stored, replace_entries) (refl, unreadable)
