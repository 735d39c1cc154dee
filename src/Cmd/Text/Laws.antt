-- ===== src/Cmd/Text/Laws.antt =====
-- The functions of package strings on texts that are put together with separators.
use Prim.Native.Char.{code}
use go_raft_kv.Prelude.{ℕ, ◌≡◌, refl, ap, ◌∙◌, String, Bool, true, false, List, [], ◌∷◌, ◌==◌, All}
use go_raft_kv.Cmd.Text.{push, split, cut}

-- No character of the text has the code `sep`.
abbrev pub Without : ℕ → String → Type 0
Without sep String.[] = Unit
Without sep (String.◌∷◌ c s) = ((code c == sep) ≡ false) × Without sep s

-- Two texts one behind the other.
abbrev pub followed_by : String → String → String
followed_by String.[] t = t
followed_by (String.◌∷◌ c s) t = String.◌∷◌ c (followed_by s t)

-- `strings.Join` with a comma
unfoldable pub join : List String → String
join [] = ""
join (p ∷ []) = p
join (p ∷ q ∷ ps) = followed_by p (followed_by "," (join (q ∷ ps)))

pub split_whole : (sep : ℕ) (p : String) → Without sep p → split sep p ≡ p ∷ []
unfolding split
split_whole sep String.[] h = refl
split_whole sep (String.◌∷◌ c s) (d, h) = rw d (ap (push c) (split_whole sep s h))

pub split-append :
    (p rest : String)
    → Without 44 p
    → split 44 (followed_by p (followed_by "," rest)) ≡ p ∷ split 44 rest
unfolding split
split-append String.[] rest h = refl
split-append (String.◌∷◌ c s) rest (d, h) = rw d (ap (push c) (split-append s rest h))

pub cut-append :
    (key value : String)
    → Without 61 key
    → cut 61 (followed_by key (followed_by "=" value)) ≡ (key, value, true)
unfolding cut
cut-append String.[] value h = refl
cut-append (String.◌∷◌ c s) value (d, h) =
    rw d (ap (λ (x : String × String × Bool). (String.◌∷◌ c x.0, x.1, x.2)) (cut-append s value h))

pub split-join :
    (p : String) (ps : List String)
    → Without 44 p
    → All (Without 44) ps
    → split 44 (join (p ∷ ps)) ≡ p ∷ ps
unfolding join
split-join p [] h all = split_whole 44 p h
split-join p (q ∷ qs) h (h', all) =
    split-append p (join (q ∷ qs)) h ∙ ap (λ (t : List String). p ∷ t) (split-join q qs h' all)
