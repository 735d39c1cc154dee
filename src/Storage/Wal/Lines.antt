-- ===== src/Storage/Wal/Lines.antt =====
-- Lines and bytes of the files of internal/storage/wal.go.
use go_raft_kv.Prelude.{
  ℕ, zero, suc, ◌+◌, ◌-◌, ◌≤◌, ◌≡◌, refl, sym, ap, ◌∙◌, true, false, List, [], ◌∷◌, ◌++◌, arith,
  length, length-append, take, All,
}
use native.Mathlib.Decide.{dec_le}
use mathlib.Core.List.{append_assoc}
use go_raft_kv.Storage.Wal.{Codec, push_byte, split_lines, join_lines}

-- No byte is a newline.
abbrev pub IsLine : {B : Type 0} → Codec B → List B → Type 0
IsLine c = All (λ b. c.is_newline b ≡ false)

module _ {B : Type 0} (c : Codec B) (law : c.is_newline c.newline ≡ true) where
  split_lines_line :
      (line rest : List B)
      → IsLine c line
      → split_lines c (line ++ c.newline ∷ rest)
        ≡ (line ∷ (split_lines c rest).0, (split_lines c rest).1)
  unfolding split_lines push_byte
  split_lines_line [] rest h = rw law refl
  split_lines_line (b ∷ line) rest h =
      ap (λ r. push_byte c b r) (split_lines_line line rest h.1) ∙ rw h.0 refl

  pub split_lines_tail : (tail : List B) → IsLine c tail → split_lines c tail ≡ ([], tail)
  unfolding split_lines push_byte
  split_lines_tail [] h = refl
  split_lines_tail (b ∷ tail) h =
      ap (λ r. push_byte c b r) (split_lines_tail tail h.1) ∙ rw h.0 refl

  -- Complete lines are found again, and what is behind them is split on its own.
  pub split_lines-join_lines :
      (lines : List (List B)) (tail : List B)
      → All (IsLine c) lines
      → IsLine c tail
      → split_lines c (join_lines c lines ++ tail) ≡ (lines, tail)
  unfolding join_lines
  split_lines-join_lines [] tail h t = split_lines_tail tail t
  split_lines-join_lines (line ∷ lines) tail h t =
      ap (λ l. split_lines c l) (append_assoc line (c.newline ∷ join_lines c lines) tail)
      ∙ split_lines_line line (join_lines c lines ++ tail) h.0
      ∙ rw (split_lines-join_lines lines tail h.1 t) refl

  take-IsLine : (k : ℕ) (line : List B) → IsLine c line → IsLine c (take k line)
  take-IsLine zero line h = tt
  take-IsLine (suc k) [] h = tt
  take-IsLine (suc k) (b ∷ line) h = (h.0, take-IsLine k line h.1)

  take_within : (k : ℕ) (xs ys : List B) → k ≤ length xs → take k (xs ++ ys) ≡ take k xs
  take_within zero xs ys h = refl
  take_within (suc k) [] ys h = absurd (omega arith)
  take_within (suc k) (x ∷ xs) ys h = ap (λ (l : List B). x ∷ l) (take_within k xs ys (omega arith))

  take_beyond : (k m : ℕ) (xs ys : List B) → m ≡ length xs + k → take m (xs ++ ys) ≡ xs ++ take k ys
  take_beyond k m [] ys h = let same : m ≡ k = omega arith in ap (λ i. take i ys) same
  take_beyond k zero (x ∷ xs) ys h = absurd (omega arith)
  take_beyond k (suc m) (x ∷ xs) ys h =
      ap (λ (l : List B). x ∷ l) (take_beyond k m xs ys (omega arith))

  take_none : (k : ℕ) → take {A = B} k [] ≡ []
  take_none zero = refl
  take_none (suc k) = refl

  -- A prefix of complete lines is some of them and a part of the next.
  pub take-join_lines :
      (k : ℕ) (lines : List (List B))
      → All (IsLine c) lines
      → (j : ℕ) × (tail : List B) × (j ≤ length lines)
        × (length (join_lines c lines) ≤ k → j ≡ length lines)
        × IsLine c tail
        × (take k (join_lines c lines) ≡ join_lines c (take j lines) ++ tail)
  unfolding join_lines
  take-join_lines k [] h = (0, [], omega arith, λ _. refl, tt, take_none k)
  take-join_lines k (line ∷ lines) h = elim (dec_le k (length line)) [
    | yes short ↦ (
      0,
      take k line,
      omega arith,
      λ all. absurd (omega (arith, length-append line (c.newline ∷ join_lines c lines))),
      take-IsLine k line h.0,
      take_within k line _ short,
    )
    | no long ↦
        let rest = k - length line - 1 in
        let (j, tail, few, all, t, same) = take-join_lines rest lines h.1 in
        let at : k ≡ length line + suc rest = omega arith in
        (
          suc j,
          tail,
          omega arith,
          λ whole.
              ap (λ m. suc m)
                (all (omega (arith, length-append line (c.newline ∷ join_lines c lines)))),
          t,
          take_beyond (suc rest) k line (c.newline ∷ join_lines c lines) at
              ∙ ap (λ (l : List B). line ++ c.newline ∷ l) same
              ∙ sym (append_assoc line (c.newline ∷ join_lines c (take j lines)) tail),
        )
  ]
