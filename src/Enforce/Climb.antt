-- ===== src/Enforce/Climb.antt =====
-- crates/a2g-core/src/enforce.rs, `canonicalize_path_logical`: where `..` can stand in a canonical
-- path.
use a2g_cli.Base.{
  ◌⊎◌, ◌≡◌, refl, sym, ap, ◌∙◌, inl, inr, arith, ℕ, zero, suc, Bool, true, false, List, [], ◌∷◌,
  ◌++◌, reverse, All, All-append, length, replicate, Bool-cases,
}
use mathlib.Core.Path.{subst}
use mathlib.Core.List.{reverse-cons, append_assoc, append-nil}
use a2g_cli.Base.Text.{Text, codes, text_eq, text_eq→eq, split, starts_with}
use a2g_cli.Enforce.Paths.{dot_dot, top_is_dot_dot, push_parts, components}
use a2g_cli.Enforce.Components.{
  is_stack, push_parts-is_stack, is_name, dot_dot-text_eq, dot_dot-is_not_dot,
}

replicate-append : (n : ℕ) (t : Text) → replicate n t ++ (t ∷ []) ≡ t ∷ replicate n t
replicate-append zero t = refl
replicate-append (suc n) t = ap (λ r. t ∷ r) (replicate-append n t)

-- A stack with `..` on top is nothing but `..` parts.
climbing :
    (xs : List Text)
    → top_is_dot_dot xs ≡ true
    → is_stack false xs ≡ true
    → reverse xs ≡ replicate (length xs) dot_dot
climbing [] t h = refl
climbing (x ∷ []) t h = ap (λ y. y ∷ []) (text_eq→eq x dot_dot t)
climbing (x ∷ y ∷ ys) t h =
    let same : x ≡ dot_dot = text_eq→eq x dot_dot t in
    let below : top_is_dot_dot (y ∷ ys) ≡ true =
      ground (arith, same, dot_dot-text_eq, dot_dot-is_not_dot) in
    let rest : is_stack false (y ∷ ys) ≡ true =
      ground (arith, same, dot_dot-text_eq, dot_dot-is_not_dot) in
    reverse-cons x (y ∷ ys)
    ∙ ap (λ r. r ++ (x ∷ [])) (climbing (y ∷ ys) below rest)
    ∙ ap (λ z. replicate (length (y ∷ ys)) dot_dot ++ (z ∷ [])) same
    ∙ replicate-append (length (y ∷ ys)) dot_dot

-- Some `..` parts, none if the path is absolute, and then names.
abbrev pub IsNormal : Bool → List Text → Type 0
IsNormal absolute ps =
    (n : ℕ) × (names : List Text) × (ps ≡ replicate n dot_dot ++ names)
    × All (λ t. is_name t ≡ true) names
    × ((absolute ≡ false) ⊎ (n ≡ 0))

stack-IsNormal :
    (absolute : Bool) (stack : List Text)
    → is_stack absolute stack ≡ true
    → IsNormal absolute (reverse stack)
stack-IsNormal absolute [] h = (0, [], refl, tt, inr refl)
stack-IsNormal absolute (x ∷ xs) h = elim (Bool-cases (is_name x)) [
  | inl e ↦
      let rest : is_stack absolute xs ≡ true = ground arith in
      let (n, names, s, a, z) = stack-IsNormal absolute xs rest in
      (
        n,
        names ++ (x ∷ []),
        reverse-cons x xs
            ∙ ap (λ r. r ++ (x ∷ [])) s
            ∙ append_assoc (replicate n dot_dot) names (x ∷ []),
        All-append _ names (x ∷ []) a (e, tt),
        z,
      )
  | inr e ↦
      let relative : absolute ≡ false = ground arith in
      let t : text_eq x dot_dot ≡ true = ground arith in
      let h' : is_stack false (x ∷ xs) ≡ true =
        subst (λ a. is_stack a (x ∷ xs) ≡ true) relative h in
      (
        length (x ∷ xs),
        [],
        climbing (x ∷ xs) t h' ∙ sym (append-nil (replicate (length (x ∷ xs)) dot_dot)),
        tt,
        inl relative,
      )
]

-- The components of a path are some `..` parts followed by names, none of which is empty, `.` or
-- `..`; the components of an absolute path are names only, so that it never climbs.
pub components-IsNormal : (raw : Text) → IsNormal (starts_with raw (codes "/")) (components raw)
unfolding components
components-IsNormal raw =
    let absolute = starts_with raw (codes "/") in
    stack-IsNormal absolute (push_parts absolute [] (split b'/' raw))
      (push_parts-is_stack absolute [] (split b'/' raw) refl)
