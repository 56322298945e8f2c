-- ===== src/Enforce/Canonical.antt =====
-- crates/a2g-core/src/enforce.rs, `canonicalize_path_logical`: a canonical path is its own
-- canonical path, and holds no way up out of the root.
use a2g_cli.Base.{
  All-reverse, ◌≡◌, refl, ap, ◌∙◌, arith, Bool, true, false, List, [], ◌∷◌, reverse, All, is_empty,
  if◌then◌else◌,
}
use a2g_cli.Base.Text.{Text, codes, text_eq, split, join, starts_with}
use a2g_cli.Base.Split.{lacks, Lacks, split-Lacks, split-join}
use a2g_cli.Enforce.Paths.{push_part, push_parts, components, canonicalize_path_logical}
use a2g_cli.Enforce.Components.{push_parts-is_stack, push_parts-reverse}

-- No part is empty.
abbrev Filled : List Text → Type 0
Filled ps = All (λ t. is_empty t ≡ false) ps

push_part-Lacks :
    (absolute : Bool) (stack : List Text) (part : Text)
    → Lacks b'/' stack
    → lacks b'/' part ≡ true
    → Lacks b'/' (push_part absolute stack part)
unfolding push_part
push_part-Lacks absolute [] part h e = ground arith
push_part-Lacks absolute (x ∷ xs) part (h, t) e = ground arith

push_parts-Lacks :
    (absolute : Bool) (stack parts : List Text)
    → Lacks b'/' stack
    → Lacks b'/' parts
    → Lacks b'/' (push_parts absolute stack parts)
unfolding push_parts
push_parts-Lacks absolute stack [] h t = h
push_parts-Lacks absolute stack (part ∷ parts) h (e, t) =
    push_parts-Lacks absolute (push_part absolute stack part) parts
      (push_part-Lacks absolute stack part h e) t

push_part-Filled :
    (absolute : Bool) (stack : List Text) (part : Text)
    → Filled stack
    → Filled (push_part absolute stack part)
unfolding push_part
push_part-Filled absolute [] part h = ground arith
push_part-Filled absolute (x ∷ xs) part (h, t) = ground arith

push_parts-Filled :
    (absolute : Bool) (stack parts : List Text)
    → Filled stack
    → Filled (push_parts absolute stack parts)
unfolding push_parts
push_parts-Filled absolute stack [] h = h
push_parts-Filled absolute stack (part ∷ parts) h =
    push_parts-Filled absolute (push_part absolute stack part) parts
      (push_part-Filled absolute stack part h)

components-Filled : (raw : Text) → Filled (components raw)
unfolding components
components-Filled raw =
    All-reverse _ _ (push_parts-Filled (starts_with raw (codes "/")) [] (split b'/' raw) tt)

components-Lacks : (raw : Text) → Lacks b'/' (components raw)
unfolding components
components-Lacks raw =
    All-reverse _ _
      (push_parts-Lacks (starts_with raw (codes "/")) [] (split b'/' raw) tt (split-Lacks b'/' raw))

-- Running the loop over the components of a path gives their stack back.
push_parts-components :
    (raw : Text)
    → reverse (push_parts (starts_with raw (codes "/")) [] (components raw)) ≡ components raw
unfolding components
push_parts-components raw =
    let absolute = starts_with raw (codes "/") in
    let stack = push_parts absolute [] (split b'/' raw) in
    ap reverse
      (push_parts-reverse absolute stack (push_parts-is_stack absolute [] (split b'/' raw) refl))

-- The loop over the text joined from parts that it keeps.
push_parts-join :
    (absolute : Bool) (ps : List Text)
    → Lacks b'/' ps
    → push_parts absolute [] (split b'/' (join (codes "/") ps)) ≡ push_parts absolute [] ps
unfolding push_parts push_part split join
push_parts-join absolute [] h = refl
push_parts-join absolute (x ∷ xs) h = ap (push_parts absolute []) (split-join b'/' x xs h)

-- The text of a list of components.
abbrev render : Bool → List Text → Text
render true ps = b'/' ∷ join (codes "/") ps
render false [] = codes "."
render false (p ∷ ps) = join (codes "/") (p ∷ ps)

join-Filled :
    (sep p : Text) (ps : List Text) → Filled (p ∷ ps) → is_empty (join sep (p ∷ ps)) ≡ false
unfolding join
join-Filled sep [] ps (f, _) = cc
join-Filled sep (c ∷ cs) [] f = refl
join-Filled sep (c ∷ cs) (p ∷ ps) f = refl

render-unfold :
    (absolute : Bool) (ps : List Text)
    → Filled ps
    → (if absolute
        then b'/' ∷ join (codes "/") ps
        else if is_empty (join (codes "/") ps)
        then codes "."
        else join (codes "/") ps)
      ≡ render absolute ps
unfolding join
render-unfold true ps f = refl
render-unfold false [] f = refl
render-unfold false (p ∷ ps) f = rw (join-Filled (codes "/") p ps f) refl

canonical-render :
    (raw : Text)
    → canonicalize_path_logical raw ≡ render (starts_with raw (codes "/")) (components raw)
unfolding canonicalize_path_logical
canonical-render raw =
    render-unfold (starts_with raw (codes "/")) (components raw) (components-Filled raw)

render-starts_with :
    (absolute : Bool) (ps : List Text)
    → Lacks b'/' ps
    → Filled ps
    → starts_with (render absolute ps) (codes "/") ≡ absolute
unfolding starts_with join
render-starts_with true ps h f = refl
render-starts_with false [] h f = refl
render-starts_with false ([] ∷ ps) h (f, _) = cc
render-starts_with false ((c ∷ cs) ∷ []) (h, _) f = ground arith
render-starts_with false ((c ∷ cs) ∷ p ∷ ps) (h, _) f = ground arith

render-components :
    (absolute : Bool) (ps : List Text)
    → Lacks b'/' ps
    → Filled ps
    → reverse (push_parts absolute [] ps) ≡ ps
    → components (render absolute ps) ≡ ps
unfolding components push_parts push_part split join starts_with text_eq
render-components true ps h f e = ap reverse (push_parts-join true ps h) ∙ e
render-components false [] h f e = refl
render-components false (p ∷ ps) h f e =
    rw (render-starts_with false (p ∷ ps) h f) (ap reverse (push_parts-join false (p ∷ ps) h) ∙ e)

-- Canonicalizing a path twice is the same as doing it once.
pub canonicalize_path_logical-idempotent :
    (raw : Text)
    → canonicalize_path_logical (canonicalize_path_logical raw) ≡ canonicalize_path_logical raw
canonicalize_path_logical-idempotent raw =
    let absolute = starts_with raw (codes "/") in
    let ps = components raw in
    let first = render-starts_with absolute ps (components-Lacks raw) (components-Filled raw) in
    let again =
      render-components absolute ps (components-Lacks raw) (components-Filled raw)
        (push_parts-components raw) in
    rw (canonical-render raw) (
      canonical-render (render absolute ps)
      ∙ ap (λ a. render a (components (render absolute ps))) first
      ∙ ap (render absolute) again)
