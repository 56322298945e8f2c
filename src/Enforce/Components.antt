-- ===== src/Enforce/Components.antt =====
-- crates/a2g-core/src/enforce.rs, `canonicalize_path_logical`: what its components are.
use a2g_cli.Base.{
  ◌∙◌, ap, ◌≡◌, refl, inl, inr, arith, Bool, true, false, not, ◌&&◌, ◌||◌, List, [], ◌∷◌, ◌++◌,
  reverse, is_empty, if◌then◌else◌, Bool-cases,
}
use mathlib.Core.List.{reverse-cons}
use a2g_cli.Base.Text.{text_eq→eq, Text, codes, text_eq}
use a2g_cli.Enforce.Paths.{dot_dot, push_part, push_parts, top_is_dot_dot}

-- A part that names a file or a folder.
abbrev pub is_name : Text → Bool
is_name t = not (is_empty t || text_eq t (codes ".")) && not (text_eq t dot_dot)

-- The stack of the loop, its last element first: names, on top of `..` parts, of which an absolute
-- path has none.
abbrev pub is_stack : Bool → List Text → Bool
is_stack absolute [] = true
is_stack absolute (x ∷ xs) =
    if is_name x
    then is_stack absolute xs
    else not absolute
      && (text_eq x dot_dot && (is_empty xs || (top_is_dot_dot xs && is_stack absolute xs)))

pub dot_dot-is_not_dot : text_eq dot_dot (codes ".") ≡ false
unfolding text_eq
dot_dot-is_not_dot = refl

pub dot_dot-text_eq : text_eq dot_dot dot_dot ≡ true
unfolding text_eq
dot_dot-text_eq = refl

push_part-is_stack :
    (absolute : Bool) (stack : List Text) (part : Text)
    → is_stack absolute stack ≡ true
    → is_stack absolute (push_part absolute stack part) ≡ true
unfolding push_part
push_part-is_stack absolute [] part h = ground (arith, dot_dot-is_not_dot, dot_dot-text_eq)
push_part-is_stack absolute (x ∷ xs) part h = ground (arith, dot_dot-is_not_dot, dot_dot-text_eq)

pub push_parts-is_stack :
    (absolute : Bool) (stack parts : List Text)
    → is_stack absolute stack ≡ true
    → is_stack absolute (push_parts absolute stack parts) ≡ true
unfolding push_parts
push_parts-is_stack absolute stack [] h = h
push_parts-is_stack absolute stack (part ∷ parts) h =
    push_parts-is_stack absolute (push_part absolute stack part) parts
      (push_part-is_stack absolute stack part h)

push_parts-append :
    (absolute : Bool) (stack xs ys : List Text)
    → push_parts absolute stack (xs ++ ys) ≡ push_parts absolute (push_parts absolute stack xs) ys
unfolding push_parts
push_parts-append absolute stack [] ys = refl
push_parts-append absolute stack (x ∷ xs) ys =
    push_parts-append absolute (push_part absolute stack x) xs ys

-- The next part of a path that is in normal form already is pushed as it is.
push_part-keeps :
    (absolute : Bool) (x : Text) (xs : List Text)
    → is_stack absolute (x ∷ xs) ≡ true
    → (push_part absolute xs x ≡ x ∷ xs) × (is_stack absolute xs ≡ true)
unfolding push_part
push_part-keeps absolute x [] h = elim (Bool-cases (text_eq x dot_dot)) [
  | inl e ↦
      let same : x ≡ dot_dot = text_eq→eq x dot_dot e in
      ground (arith, same, dot_dot-is_not_dot, dot_dot-text_eq)
  | inr e ↦ ground arith
]
push_part-keeps absolute x (y ∷ ys) h = elim (Bool-cases (text_eq x dot_dot)) [
  | inl e ↦
      let same : x ≡ dot_dot = text_eq→eq x dot_dot e in
      ground (arith, same, dot_dot-is_not_dot, dot_dot-text_eq)
  | inr e ↦ ground arith
]

-- A path in normal form goes through the loop unchanged.
pub push_parts-reverse :
    (absolute : Bool) (stack : List Text)
    → is_stack absolute stack ≡ true
    → push_parts absolute [] (reverse stack) ≡ stack
unfolding push_parts
push_parts-reverse absolute [] h = refl
push_parts-reverse absolute (x ∷ xs) h =
    let (e, hs) = push_part-keeps absolute x xs h in
    ap (push_parts absolute []) (reverse-cons x xs)
    ∙ push_parts-append absolute [] (reverse xs) (x ∷ [])
    ∙ ap (λ s. push_part absolute s x) (push_parts-reverse absolute xs hs)
    ∙ e
