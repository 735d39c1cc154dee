-- ===== src/Raft/Guarantees/Quorum.antt =====
-- The members of a node's cluster (`peerAddrs` of internal/raft/node.go), and how many of them pass a
-- test.
use mathlib.Core.List.{Perm, Permᴰ, Mem, mem-cons_self, mem-cons_of_mem}
use mathlib.Core.Logic.{∥∥₁_elim}
use native.Mathlib.Nat.{ℕ_set}
use go_raft_kv.Prelude.{
  ◌∙◌, ℕ, ◌+◌, ◌<◌, ◌≡◌, refl, String, Bool, true, List, [], ◌∷◌, arith, length, map, Bool-cases,
  inl, inr, if◌then◌else◌,
}
use go_raft_kv.Prelude.Dict.{Dict}
use go_raft_kv.Raft.Node.{Node}

-- How many elements pass the test.
abbrev pub tally {ℓ} : {A : Type ℓ} → (A → Bool) → List A → ℕ
tally p [] = 0
tally p (x ∷ xs) = (if p x then 1 else 0) + tally p xs

-- Two tests that more pass together than there are elements have one that passes both.
pub tally_meet :
    (p q : String → Bool) (xs : List String)
    → length xs < tally p xs + tally q xs
    → (x : String) × Mem x xs × (p x ≡ true) × (q x ≡ true)
tally_meet p q [] h = absurd (omega arith)
tally_meet p q (x ∷ xs) h = elim (Bool-cases (p x)) [
  | inr not_p ↦
      let (y, m, py, qy) = tally_meet p q xs (ground arith) in (y, mem-cons_of_mem x m, py, qy)
  | inl yes_p ↦ elim (Bool-cases (q x)) [
    | inl yes_q ↦ (x, mem-cons_self, yes_p, yes_q)
    | inr not_q ↦
        let (y, m, py, qy) = tally_meet p q xs (ground arith) in (y, mem-cons_of_mem x m, py, qy)
  ]
]

abbrev pub keys : Dict String → List String
keys = map (λ (p : String × String). p.0)

pub length-keys : (d : Dict String) → length (keys d) ≡ length d
length-keys [] = refl
length-keys (p ∷ d) = omega (arith, length-keys d)

-- The node itself and its peers.
abbrev pub members : {S M : Type 0} → Node S M → List String
members n = n.id ∷ keys n.peer_addrs

tally_permᴰ : (p : String → Bool) {xs ys : List String} → Permᴰ xs ys → tally p xs ≡ tally p ys
tally_permᴰ p Permᴰ.nil = refl
tally_permᴰ p (Permᴰ.cons e h) = rw (e, tally_permᴰ p h) refl
tally_permᴰ p (Permᴰ.swap e f) = rw (e, f) (omega arith)
tally_permᴰ p (Permᴰ.trans h k) = tally_permᴰ p h ∙ tally_permᴰ p k

-- The length and the tally are the same in any order.
pub Perm-tally : (p : String → Bool) {xs ys : List String} → Perm xs ys → tally p xs ≡ tally p ys
Perm-tally p h = ∥∥₁_elim h (ℕ_set _ _) (tally_permᴰ p)

Perm-lengthᴰ : {xs ys : List String} → Permᴰ xs ys → length xs ≡ length ys
Perm-lengthᴰ Permᴰ.nil = refl
Perm-lengthᴰ (Permᴰ.cons e h) = omega (arith, Perm-lengthᴰ h)
Perm-lengthᴰ (Permᴰ.swap e f) = refl
Perm-lengthᴰ (Permᴰ.trans h k) = Perm-lengthᴰ h ∙ Perm-lengthᴰ k

pub Perm-length : {xs ys : List String} → Perm xs ys → length xs ≡ length ys
Perm-length h = ∥∥₁_elim h (ℕ_set _ _) Perm-lengthᴰ
