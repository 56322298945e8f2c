-- ===== src/Enforce/Paths.antt =====
-- crates/a2g-core/src/enforce.rs: `canonicalize_path_logical` and the path that boundaries see.
use a2g_cli.Base.{
  Bool, false, not, ◌&&◌, ◌||◌, none, some, List, [], ◌∷◌, reverse, if◌then◌else◌, is_empty,
}
use a2g_cli.Base.Text.{
  Text, codes, text_eq, starts_with, split, join, strip_prefix, trim_start_matches,
}

abbrev pub dot_dot : Text
dot_dot = codes ".."

-- The loop's vector of components, its last element first.
abbrev pub top_is_dot_dot : List Text → Bool
top_is_dot_dot [] = false
top_is_dot_dot (x ∷ xs) = text_eq x dot_dot

abbrev pub pop : List Text → List Text
pop [] = []
pop (x ∷ xs) = xs

-- One round of the loop over the parts.
unfoldable pub push_part : Bool → List Text → Text → List Text
push_part absolute stack part =
    if is_empty part || text_eq part (codes ".")
    then stack
    else if text_eq part dot_dot
    then (if not (is_empty stack) && (absolute || not (top_is_dot_dot stack))
        then pop stack
        else if not absolute
        then dot_dot ∷ stack
        else stack)
    else part ∷ stack

unfoldable pub push_parts : Bool → List Text → List Text → List Text
unfolding push_part
push_parts absolute stack [] = stack
push_parts absolute stack (part ∷ parts) = push_parts absolute (push_part absolute stack part) parts

unfoldable pub components : Text → List Text
unfolding push_parts
components raw = reverse (push_parts (starts_with raw (codes "/")) [] (split b'/' raw))

unfoldable pub canonicalize_path_logical : Text → Text
unfolding components
canonicalize_path_logical raw =
    let joined = join (codes "/") (components raw) in
    if starts_with raw (codes "/")
    then b'/' ∷ joined
    else if is_empty joined
    then codes "."
    else joined

-- The path relative to the workspace root, if the mandate has one and it is a prefix.
unfoldable pub bounded_path : Text → Text → Text
unfolding canonicalize_path_logical
bounded_path workspace_root raw =
    let full = canonicalize_path_logical raw in
    if is_empty workspace_root
    then full
    else elim (strip_prefix full (canonicalize_path_logical workspace_root)) [
      | none ↦ full
      | some rest ↦ trim_start_matches b'/' rest
    ]
