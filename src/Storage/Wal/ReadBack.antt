-- ===== src/Storage/Wal/ReadBack.antt =====
-- What `readWAL` of internal/storage/wal.go reads of a log that this package wrote, whole or with its
-- end torn off by a crash.
use go_raft_kv.Prelude.{
  ℕ, suc, ◌+◌, ◌<◌, ◌≡◌, refl, ap, ◌∙◌, subst, inr, true, false, some, List, [], ◌∷◌, ◌++◌, map,
  arith, length, All, ◌==◌, last_or, ==_iff, append-nil, length-append,
}
use mathlib.Core.List.{append_assoc}
use go_raft_kv.Prelude.Word.{u64_mod, inc64_exact}
use go_raft_kv.Storage.Types.{LogEntry}
use go_raft_kv.Storage.Wal.{
  WalLine, Codec, WalData, DecodedWalLine, base, entry, base_line, entry_line, empty_wal,
  wal_checksum, encode_wal_line, encode_wal_entries, encode_wal, decode_type, check_crc,
  decode_wal_line, add_entry, add_line, join_lines, read_line, read_lines,
}
use go_raft_kv.Storage.Wal.Lines.{IsLine}
use go_raft_kv.Raft.Log.Contiguous.{Contiguous, Contiguous-append, last_or-Contiguous}

-- What encoding/json and bytes.TrimSpace do: a value is read back from what was written of it, which
-- has no newline and is not blank.
pub record IsLawful {B : Type 0} (c : Codec B) : Type 0 where
  pub breaks : c.is_newline c.newline ≡ true
  pub reads : (l : WalLine) → c.unmarshal (c.trim (c.marshal l)) ≡ some l
  pub one_line : (l : WalLine) → IsLine c (c.marshal l)
  pub visible : (l : WalLine) → (length (c.trim (c.marshal l)) == 0) ≡ false

-- A log with its base record.
abbrev pub based : ℕ → ℕ → List LogEntry → WalData
based i t entries = record { has_base = true; base_index = i; base_term = t; entries = entries }

-- An entry that follows the ones before it is taken.
add_entry_next :
    (i t : ℕ) (old : List LogEntry) (e : LogEntry)
    → Contiguous i old
    → e.index ≡ i + length old + 1
    → e.index < u64_mod
    → add_entry (based i t old) e ≡ inr (based i t (old ++ e ∷ []))
unfolding add_entry
add_entry_next i t [] e c at small = ground (arith, inc64_exact i)
add_entry_next i t (x ∷ old) e c at small =
    let last = last_or-Contiguous i x old c in
    ground (arith, last, inc64_exact (last_or x old).index)

module _ {B : Type 0} (c : Codec B) (lawful : IsLawful c) where
  -- A line without its newline.
  abbrev pub body : WalLine → List B
  body l = c.marshal (record l { crc = some (wal_checksum c l) })

  pub body-IsLine : (l : WalLine) → IsLine c (body l)
  body-IsLine l = lawful.one_line (record l { crc = some (wal_checksum c l) })

  decode_wal_line-body : (l : WalLine) → decode_wal_line c (c.trim (body l)) ≡ decode_type l
  unfolding decode_wal_line check_crc wal_checksum decode_type
  decode_wal_line-body l =
      let written : WalLine = record l { crc = some (wal_checksum c l) } in
      let sum = (==_iff (wal_checksum c l) (wal_checksum c l)).1 refl in
      rw (lawful.reads written, decode_wal_line) (rw (sum, check_crc) refl)

  pub read_line-body :
      (l : WalLine) (wal : WalData) (d : DecodedWalLine)
      → decode_type l ≡ inr d
      → read_line c (body l) wal ≡ add_line wal d
  unfolding read_line
  read_line-body l wal d h =
      rw (lawful.visible (record l { crc = some (wal_checksum c l) }), decode_wal_line-body l, h)
        refl

  pub read_lines_step :
      (line : List B) (lines : List (List B)) (wal next : WalData)
      → read_line c line wal ≡ inr next
      → read_lines c (line ∷ lines) wal ≡ read_lines c lines next
  unfolding read_lines
  read_lines_step line lines wal next h = rw (h, read_lines) refl

  unfoldable pub bodies : List LogEntry → List (List B)
  bodies entries = map (λ (e : LogEntry). body (entry_line e)) entries

  -- Entries that follow the ones before them are all taken.
  read_lines-bodies :
      (i t : ℕ) (old new : List LogEntry)
      → Contiguous i old
      → Contiguous (i + length old) new
      → i + length old + length new + 1 < u64_mod
      → read_lines c (bodies new) (based i t old) ≡ inr (based i t (old ++ new))
  unfolding read_lines bodies decode_type add_line
  read_lines-bodies i t old [] co cn small = rw (append-nil old) refl
  read_lines-bodies i t old (e ∷ new) co cn small =
      let step : read_line c (body (entry_line e)) (based i t old)
          ≡ inr (based i t (old ++ e ∷ [])) =
        read_line-body (entry_line e) (based i t old) (entry e) refl
        ∙ add_entry_next i t old e co (omega arith) (omega arith) in
      let longer : length (old ++ e ∷ []) ≡ length old + 1 = length-append old (e ∷ []) in
      let next : suc (i + length old) ≡ i + length (old ++ e ∷ []) = omega (arith, longer) in
      let one : suc (i + length old) ≡ e.index = omega arith in
      read_lines_step (body (entry_line e)) (bodies new) (based i t old) (based i t (old ++ e ∷ []))
        step
      ∙ (read_lines-bodies i t (old ++ e ∷ []) new (Contiguous-append i old (e ∷ []) co (cn.0, tt))
            (subst (λ k. Contiguous k new) next cn.1) (omega (arith, longer))
          ∙ ap (λ (l : List LogEntry). inr (based i t l)) (append_assoc old (e ∷ []) new))

  unfoldable pub all_lines : ℕ → ℕ → List LogEntry → List (List B)
  all_lines i t entries = body (base_line i t) ∷ bodies entries

  pub bodies-IsLine : (entries : List LogEntry) → All (IsLine c) (bodies entries)
  unfolding bodies
  bodies-IsLine [] = tt
  bodies-IsLine (e ∷ entries) = (body-IsLine (entry_line e), bodies-IsLine entries)

  pub encode_wal_entries_lem :
      (entries : List LogEntry) → encode_wal_entries c entries ≡ join_lines c (bodies entries)
  unfolding encode_wal_entries encode_wal_line join_lines bodies
  encode_wal_entries_lem [] = refl
  encode_wal_entries_lem (e ∷ entries) =
      append_assoc (body (entry_line e)) (c.newline ∷ []) (encode_wal_entries c entries)
      ∙ ap (λ (l : List B). body (entry_line e) ++ c.newline ∷ l) (encode_wal_entries_lem entries)

  pub encode_wal_lem :
      (i t : ℕ) (entries : List LogEntry)
      → encode_wal c i t entries ≡ join_lines c (all_lines i t entries)
  unfolding encode_wal encode_wal_line join_lines all_lines
  encode_wal_lem i t entries =
      append_assoc (body (base_line i t)) (c.newline ∷ []) (encode_wal_entries c entries)
      ∙ ap (λ (l : List B). body (base_line i t) ++ c.newline ∷ l) (encode_wal_entries_lem entries)

  pub read_all_lines :
      (i t : ℕ) (entries : List LogEntry)
      → Contiguous i entries
      → i + length entries + 1 < u64_mod
      → read_lines c (all_lines i t entries) empty_wal ≡ inr (based i t entries)
  unfolding all_lines read_lines decode_type add_line
  read_all_lines i t entries ce small =
      let first : read_line c (body (base_line i t)) empty_wal ≡ inr (based i t []) =
        read_line-body (base_line i t) empty_wal (base i t) refl in
      let start : i ≡ i + 0 = omega arith in
      read_lines_step (body (base_line i t)) (bodies entries) empty_wal (based i t []) first
      ∙ (read_lines-bodies i t [] entries tt (subst (λ k. Contiguous k entries) start ce)
          (omega arith))
