-- ===== src/Storage/Wal/Crash.antt =====
-- The guarantees of the write-ahead log of internal/storage/wal.go: what was written is read back, also
-- when a crash tears the end of an append off.
use go_raft_kv.Prelude.{
  ℕ, zero, suc, ◌+◌, ◌≤◌, ◌<◌, ◌≡◌, refl, sym, ap, ◌∙◌, ◌⊎◌, inr, String, Option, none, List, [],
  ◌∷◌, ◌++◌, arith, length, take, All, ◌==◌, if-cases, length-append, length-take, append-nil,
  subst,
}
use mathlib.Core.List.{append_assoc}
use go_raft_kv.Prelude.Word.{u64_mod}
use go_raft_kv.Storage.Types.{LogEntry}
use go_raft_kv.Storage.Wal.{
  Codec, WalData, WalError, base_line, entry_line, FileRead, content, empty_wal, encode_wal_entries,
  encode_wal, split_lines, join_lines, read_lines, read_split, read_wal,
}
use go_raft_kv.Storage.Wal.Lines.{IsLine, split_lines-join_lines, take-join_lines}
use go_raft_kv.Storage.Wal.ReadBack.{
  IsLawful, based, body, body-IsLine, bodies, bodies-IsLine, all_lines, read_all_lines,
  encode_wal_entries_lem, encode_wal_lem,
}
use go_raft_kv.Raft.Log.Contiguous.{Contiguous, Contiguous-append}

module _ {B : Type 0} (c : Codec B) where
  read_wal_lines :
      (truncate : Option String) (bytes : List B) (lines : List (List B)) (wal : WalData)
      → split_lines c bytes ≡ (lines, [])
      → read_lines c lines empty_wal ≡ inr wal
      → read_wal c truncate (content bytes) ≡ (inr wal, content bytes)
  unfolding read_wal read_split
  read_wal_lines truncate bytes lines wal h k =
      subst (λ r. read_split c truncate bytes r ≡ (inr wal, content bytes)) (sym h)
        (rw (k, read_split) refl)

  -- A tail is cut off.
  read_wal_tail :
      (bytes : List B) (lines : List (List B)) (tail : List B) (wal : WalData)
      → split_lines c bytes ≡ (lines, tail)
      → read_lines c lines empty_wal ≡ inr wal
      → (read_wal c none (content bytes)).0 ≡ inr wal
  unfolding read_wal read_split
  read_wal_tail bytes lines tail wal h k =
      subst (λ r. (read_split c none bytes r).0 ≡ inr wal) (sym h)
        (rw (k, read_split)
          (if-cases (λ (r : (WalError ⊎ WalData) × FileRead B). r.0 ≡ inr wal) (length tail == 0) _
            _ (λ _. refl) (λ _. refl)))

module _ {B : Type 0} (c : Codec B) (lawful : IsLawful c) where
  pub all_lines-IsLine :
      (i t : ℕ) (entries : List LogEntry) → All (IsLine c) (all_lines c lawful i t entries)
  unfolding all_lines
  all_lines-IsLine i t entries =
      (body-IsLine c lawful (base_line i t), bodies-IsLine c lawful entries)

  -- A log that is written whole, with entries that follow its base one by one and indexes below the
  -- largest uint64, is read back as it was, and the file stays as it is.
  pub read_wal-encode_wal :
      (truncate : Option String) (i t : ℕ) (entries : List LogEntry)
      → Contiguous i entries
      → i + length entries + 1 < u64_mod
      → read_wal c truncate (content (encode_wal c i t entries))
        ≡ (inr (based i t entries), content (encode_wal c i t entries))
  read_wal-encode_wal truncate i t entries ce small =
      let lines = all_lines c lawful i t entries in
      read_wal_lines c truncate (encode_wal c i t entries) lines (based i t entries)
        (ap (λ l. split_lines c l)
            (encode_wal_lem c lawful i t entries ∙ sym (append-nil (join_lines c lines)))
          ∙ split_lines-join_lines c lawful.breaks lines [] (all_lines-IsLine i t entries) tt)
        (read_all_lines c lawful i t entries ce small)

  join_lines-append :
      (xs ys : List (List B)) → join_lines c (xs ++ ys) ≡ join_lines c xs ++ join_lines c ys
  unfolding join_lines
  join_lines-append [] ys = refl
  join_lines-append (x ∷ xs) ys =
      ap (λ (l : List B). x ++ c.newline ∷ l) (join_lines-append xs ys)
      ∙ sym (append_assoc x (c.newline ∷ join_lines c xs) (join_lines c ys))

  bodies-append :
      (xs ys : List LogEntry)
      → bodies c lawful (xs ++ ys) ≡ bodies c lawful xs ++ bodies c lawful ys
  unfolding bodies
  bodies-append [] ys = refl
  bodies-append (x ∷ xs) ys =
      ap (λ (l : List (List B)). body c lawful (entry_line x) ∷ l) (bodies-append xs ys)

  bodies-take :
      (j : ℕ) (xs : List LogEntry) → bodies c lawful (take j xs) ≡ take j (bodies c lawful xs)
  unfolding bodies
  bodies-take zero xs = refl
  bodies-take (suc j) [] = refl
  bodies-take (suc j) (x ∷ xs) =
      ap (λ (l : List (List B)). body c lawful (entry_line x) ∷ l) (bodies-take j xs)

  length-bodies : (xs : List LogEntry) → length (bodies c lawful xs) ≡ length xs
  unfolding bodies
  length-bodies [] = refl
  length-bodies (x ∷ xs) = omega (arith, length-bodies xs)

  -- The lines of a log to which some of the lines of an append were added.
  torn_lines :
      (i t j : ℕ) (old new : List LogEntry)
      → join_lines c (all_lines c lawful i t old) ++ join_lines c (take j (bodies c lawful new))
        ≡ join_lines c (all_lines c lawful i t (old ++ take j new))
  unfolding all_lines
  torn_lines i t j old new =
      sym (join_lines-append (all_lines c lawful i t old) (take j (bodies c lawful new)))
      ∙ ap (λ (l : List (List B)). join_lines c (body c lawful (base_line i t) ∷ l))
          (ap (λ (l : List (List B)). bodies c lawful old ++ l) (sym (bodies-take j new))
            ∙ sym (bodies-append old (take j new)))

  Contiguous-take : (i j : ℕ) (xs : List LogEntry) → Contiguous i xs → Contiguous i (take j xs)
  Contiguous-take i zero xs h = tt
  Contiguous-take i (suc j) [] h = tt
  Contiguous-take i (suc j) (x ∷ xs) h = (h.0, Contiguous-take (suc i) j xs h.1)

  -- A crash in the middle of an append, after any number of its bytes: the log is read back with its
  -- base, all of its old entries, and some first ones of the new entries, whole, and all of them if all
  -- bytes are there. The entries follow the base one by one, with indexes below the largest uint64, and
  -- the partial tail can be cut off.
  pub torn_append :
      (i t k : ℕ) (old new : List LogEntry)
      → Contiguous i old
      → Contiguous (i + length old) new
      → i + length old + length new + 1 < u64_mod
      → (j : ℕ) × (j ≤ length new)
        × (length (encode_wal_entries c new) ≤ k → j ≡ length new)
        × ((read_wal c none (content (encode_wal c i t old ++ take k (encode_wal_entries c new)))).0
            ≡ inr (based i t (old ++ take j new)))
  torn_append i t k old new co cn small =
      let (j, tail, few, all, line, same) =
        take-join_lines c lawful.breaks k (bodies c lawful new) (bodies-IsLine c lawful new) in
      let kept = old ++ take j new in
      let lines = all_lines c lawful i t kept in
      let bytes = encode_wal c i t old ++ take k (encode_wal_entries c new) in
      let whole : bytes ≡ join_lines c lines ++ tail =
        ap (λ (l : List B). l ++ take k (encode_wal_entries c new))
          (encode_wal_lem c lawful i t old)
        ∙ ap (λ (l : List B). join_lines c (all_lines c lawful i t old) ++ l)
            (ap (λ (l : List B). take k l) (encode_wal_entries_lem c lawful new) ∙ same)
        ∙ sym (
            append_assoc (join_lines c (all_lines c lawful i t old))
              (join_lines c (take j (bodies c lawful new))) tail)
        ∙ ap (λ (l : List B). l ++ tail) (torn_lines i t j old new) in
      (
        j,
        omega (arith, length-bodies new),
        λ whole_write.
            all (rw (sym (encode_wal_entries_lem c lawful new)) whole_write) ∙ length-bodies new,
        read_wal_tail c bytes lines tail (based i t kept)
            (ap (λ l. split_lines c l) whole
              ∙ split_lines-join_lines c lawful.breaks lines tail (all_lines-IsLine i t kept) line)
            (read_all_lines c lawful i t kept
              (Contiguous-append i old (take j new) co (Contiguous-take (i + length old) j new cn))
              (omega (arith, length-append old (take j new), length-take j new))),
      )
