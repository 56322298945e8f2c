-- ===== src/Enforce/Glob.antt =====
-- crates/a2g-core/src/enforce.rs: `glob_matches`, `simple_wildcard_match` and `extract_host`.
use a2g_cli.Base.{
  ℕ, ◌+◌, Bool, true, false, not, ◌&&◌, Option, none, some, List, [], ◌∷◌, if◌then◌else◌, is_empty,
  length, leb, drop, last?, init, head?, unwrap_or,
}
use a2g_cli.Base.Text.{
  Text, codes, text_eq, starts_with, ends_with, find, contains, split, split_once, trim_end_matches,
  trim_start_matches, remove_all,
}

-- The loop over the middle parts: each is found after the one before it.
unfoldable pub match_middle : List Text → Text → Option Text
match_middle [] remaining = some remaining
match_middle (part ∷ parts) remaining = elim (find remaining part) [
  | none ↦ none
  | some i ↦ match_middle parts (drop (i + length part) remaining)
]

-- The match on the parts between the stars.
unfoldable pub match_parts : List Text → Text → Bool
unfolding match_middle
match_parts [] text = true
match_parts (only ∷ []) text = text_eq only text
match_parts (prefix ∷ suffix ∷ []) text =
    starts_with text prefix
    && (ends_with text suffix && leb (length prefix + length suffix) (length text))
match_parts (first ∷ x ∷ y ∷ rest) text =
    if not (starts_with text first)
    then false
    else elim (match_middle (init (x ∷ y ∷ rest)) (drop (length first) text)) [
      | none ↦ false
      | some remaining ↦ ends_with remaining (unwrap_or (last? (x ∷ y ∷ rest)) [])
    ]

unfoldable pub simple_wildcard_match : Text → Text → Bool
unfolding match_parts
simple_wildcard_match pattern text = match_parts (split b'*' pattern) text

-- `path.rsplit('/').next()`
abbrev file_name : Text → Text
file_name path = unwrap_or (last? (split b'/' path)) path

-- The branch of a pattern that contains `**`, from what stands on the two sides of the first.
unfoldable pub double_star : Text → Text → Text → Bool
unfolding simple_wildcard_match
double_star prefix suffix path =
    if not (is_empty prefix) && not (starts_with path prefix)
    then false
    else if is_empty suffix
    then true
    else if contains suffix (codes "*")
    then simple_wildcard_match suffix (file_name path)
    else ends_with path suffix

unfoldable pub glob_matches : Text → Text → Bool
unfolding double_star
glob_matches pattern path = elim (split_once pattern (codes "**")) [
  | some (prefix, suffix) ↦
      double_star (trim_end_matches b'/' prefix) (trim_start_matches b'/' suffix) path
  | none ↦
      if contains pattern (codes "*")
      then simple_wildcard_match pattern path
      else text_eq pattern path
]

-- `s.split(c).next()`
abbrev first_part : ℕ → Text → Text
first_part c t = unwrap_or (head? (split c t)) t

unfoldable pub extract_host : Text → Text
extract_host url =
    first_part b':'
      (first_part b'/' (remove_all (remove_all url (codes "https://")) (codes "http://")))
