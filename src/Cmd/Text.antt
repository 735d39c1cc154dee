-- ===== src/Cmd/Text.antt =====
-- The functions of Go's package strings that cmd/kvctl/main.go and cmd/server/main.go use.
pub mod Laws
use Prim.Native.Char.{Char, code}
use Prim.Native.String
use go_raft_kv.Prelude.{
  ℕ, String, Bool, true, false, ◌&&◌, ◌||◌, List, [], ◌∷◌, leb, ◌==◌, if◌then◌else◌, str_eq,
}

-- `unicode.IsSpace`
unfoldable pub is_space : Char → Bool
is_space c =
    (leb 9 (code c) && leb (code c) 13)
    || (code c == 32)
    || (code c == 133)
    || (code c == 160)
    || (code c == 5760)
    || (leb 8192 (code c) && leb (code c) 8202)
    || (code c == 8232)
    || (code c == 8233)
    || (code c == 8239)
    || (code c == 8287)
    || (code c == 12288)

unfoldable pub trim_left : String → String
unfolding is_space
trim_left String.[] = String.[]
trim_left (String.◌∷◌ c s) = elim (is_space c) [ true ↦ trim_left s | false ↦ String.◌∷◌ c s ]

unfoldable pub trim_right : String → String
unfolding is_space
trim_right String.[] = String.[]
trim_right (String.◌∷◌ c s) =
    let rest = trim_right s in if is_space c && str_eq rest "" then "" else String.◌∷◌ c rest

-- `strings.TrimSpace`
unfoldable pub trim_space : String → String
unfolding trim_left trim_right
trim_space s = trim_right (trim_left s)

abbrev pub push : Char → List String → List String
push c [] = String.◌∷◌ c "" ∷ []
push c (p ∷ ps) = String.◌∷◌ c p ∷ ps

-- `strings.Split` at one character
unfoldable pub split : ℕ → String → List String
split sep String.[] = "" ∷ []
split sep (String.◌∷◌ c s) =
    let rest = split sep s in if code c == sep then "" ∷ rest else push c rest

-- `strings.Cut` at one character: what stands before and behind the first one, and whether there is
-- one.
unfoldable pub cut : ℕ → String → String × String × Bool
cut sep String.[] = ("", "", false)
cut sep (String.◌∷◌ c s) =
    let (before, behind, found) = cut sep s in
    if code c == sep then ("", s, true) else (String.◌∷◌ c before, behind, found)
