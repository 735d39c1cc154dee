-- ===== src/Cmd/Flags/Laws.antt =====
-- The maps and lists on the command lines of cmd/server/main.go and cmd/kvctl/main.go are read back as
-- they are written.
use text.Mathlib.TextLemmas.{cons≢nil}
use go_raft_kv.Prelude.{
  ◌≡◌, ◌≢◌, refl, ap, ◌∙◌, String, Bool, true, false, not, ◌||◌, List, [], ◌∷◌, map, str_eq, eq_iff,
  arith, All, Result, ok, err,
}
use go_raft_kv.Prelude.Dict
use go_raft_kv.Prelude.Dict.{Dict}
use go_raft_kv.Server.StateMachine.{copy_into}
use go_raft_kv.Cmd.Text.{trim_space, cut}
use go_raft_kv.Cmd.Text.Laws.{Without, followed_by, join, split-join, cut-append}
use go_raft_kv.Cmd.Kvctl.{keep_parts, split_csv}
use go_raft_kv.Cmd.Flags.{parse_parts, parse_map}

-- A part of a list: a text that is not empty and has no comma in it and no blanks at its ends.
abbrev pub IsPart : String → Type 0
IsPart p = record { not_empty : p ≢ ""; no_comma : Without 44 p; trimmed : trim_space p ≡ p }

keep_parts-IsPart : (ps : List String) → All IsPart ps → keep_parts ps ≡ ps
unfolding keep_parts
keep_parts-IsPart [] all = refl
keep_parts-IsPart (p ∷ ps) (h, all) =
    let there : str_eq p "" ≡ false = ground (arith, eq_iff p "", h.not_empty) in
    rw (h.trimmed, there) (ap (λ (t : List String). p ∷ t) (keep_parts-IsPart ps all))

no_commas : (ps : List String) → All IsPart ps → All (Without 44) ps
no_commas [] all = tt
no_commas (p ∷ ps) (h, all) = (h.no_comma, no_commas ps all)

-- Parts that are joined by commas, at least one, are what splitCSV gives back.
pub split_csv-join :
    (p : String) (ps : List String) → All IsPart (p ∷ ps) → split_csv (join (p ∷ ps)) ≡ p ∷ ps
unfolding split_csv
split_csv-join p ps (h, all) =
    ap keep_parts (split-join p ps h.no_comma (no_commas ps all))
    ∙ keep_parts-IsPart (p ∷ ps) (h, all)

-- An entry of a map as it is written.
abbrev pub print_entry : String × String → String
print_entry (key, value) = followed_by key (followed_by "=" value)

abbrev pub IsEntry : String × String → Type 0
IsEntry e = record {
  key : e.0 ≢ "";
  value : e.1 ≢ "";
  no_equals : Without 61 e.0;
  part : IsPart (print_entry e);
}

abbrev tested :
    Dict String → List String → String → String → String → Bool → Result String (Dict String)
tested out parts part key value bad = elim bad [
  | true ↦ err part
  | false ↦ parse_parts parts (Dict.put out key value)
]

-- The test on an entry.
abbrev parsed :
    Dict String → List String → String → String × String × Bool → Result String (Dict String)
parsed out parts part (key, value, found) = elim (not found || (str_eq key "" || str_eq value "")) [
  | true ↦ err part
  | false ↦ parse_parts parts (Dict.put out key value)
]

parsed_entry :
    (out : Dict String) (parts : List String) (part key value : String)
    → key ≢ ""
    → value ≢ ""
    → parsed out parts part (key, value, true) ≡ parse_parts parts (Dict.put out key value)
parsed_entry out parts part key value k v =
    let full : (str_eq key "" || str_eq value "") ≡ false =
      ground (arith, eq_iff key "", eq_iff value "", k, v) in
    ap (tested out parts part key value) full

parse_parts-print :
    (es : List (String × String)) (out : Dict String)
    → All IsEntry es
    → parse_parts (map print_entry es) out ≡ ok (copy_into es out)
unfolding parse_parts copy_into
parse_parts-print [] out all = refl
parse_parts-print ((key, value) ∷ es) out (h, all) =
    let part = print_entry (key, value) in
    ap (parsed out (map print_entry es) part)
      (ap (cut 61) h.part.trimmed ∙ cut-append key value h.no_equals)
    ∙ parsed_entry out (map print_entry es) part key value h.key h.value
    ∙ parse_parts-print es (Dict.put out key value) all

parts_of : (es : List (String × String)) → All IsEntry es → All (Without 44) (map print_entry es)
parts_of [] all = tt
parts_of (e ∷ es) (h, all) = (h.part.no_comma, parts_of es all)

join_not_empty : (p : String) (ps : List String) → p ≢ "" → join (p ∷ ps) ≢ ""
unfolding join
join_not_empty p [] h = h
join_not_empty String.[] (q ∷ qs) h = absurd (h refl)
join_not_empty (String.◌∷◌ c s) (q ∷ qs) h = λ e. cons≢nil e

-- A map with at least one entry is what parseMap gives for the text of its entries `id=address`, joined
-- by commas, if no key or address is empty, no key has an equals sign, and no entry has a comma or
-- blanks at its ends; the text as a whole has no blanks at its ends. A later entry overrides an earlier
-- one with its key.
pub parse_map-print :
    (e : String × String) (es : List (String × String))
    → All IsEntry (e ∷ es)
    → trim_space (join (map print_entry (e ∷ es))) ≡ join (map print_entry (e ∷ es))
    → parse_map (join (map print_entry (e ∷ es))) ≡ ok (copy_into (e ∷ es) [])
unfolding parse_map
parse_map-print e es (h, all) clean =
    let text = join (map print_entry (e ∷ es)) in
    let full : text ≢ "" = join_not_empty (print_entry e) (map print_entry es) h.part.not_empty in
    let there : str_eq text "" ≡ false = ground (arith, eq_iff text "", full) in
    rw (clean, there)
      (ap (λ (ps : List String). parse_parts ps [])
          (split-join (print_entry e) (map print_entry es) h.part.no_comma (parts_of es all))
        ∙ parse_parts-print (e ∷ es) [] (h, all))
