-- ===== src/Base/Split.antt =====
-- Splitting and joining text: the parts of a text never hold the separator, and parts without the
-- separator come back from their join.
use a2g_cli.Base.Tests.{◌==◌, Bool-cases}
use mathlib.Core.Logic.{inl, inr}
use a2g_cli.Base.Lists.{All}
use Prim.Native.Nat.{ℕ}
use mathlib.Core.Path.{◌≡◌, refl, ◌∙◌, ap}
use mathlib.Core.Bool.{Bool, true, false, not, ◌&&◌}
use mathlib.Core.List.{List, [], ◌∷◌, ◌++◌}
use native.Mathlib.Omega.{arith}
use a2g_cli.Base.Text.{Text, split, join, cons_part}

-- The text does not hold `c`.
abbrev pub lacks : ℕ → Text → Bool
lacks c [] = true
lacks c (x ∷ xs) = not (x == c) && lacks c xs

abbrev pub Lacks : ℕ → List Text → Type 0
Lacks c ts = All (λ t. lacks c t ≡ true) ts

cons_part-Lacks :
    (c x : ℕ) (ps : List Text) → (x == c) ≡ false → Lacks c ps → Lacks c (cons_part x ps)
cons_part-Lacks c x [] h t = (ground arith, tt)
cons_part-Lacks c x (p ∷ ps) h (a, b) = (ground arith, b)

pub split-Lacks : (c : ℕ) (t : Text) → Lacks c (split c t)
unfolding split
split-Lacks c [] = (refl, tt)
split-Lacks c (x ∷ xs) = elim (Bool-cases (x == c)) [
  | inl e ↦ rw e (refl, split-Lacks c xs)
  | inr e ↦ rw e (cons_part-Lacks c x (split c xs) e (split-Lacks c xs))
]

split-lacks : (c : ℕ) (t : Text) → lacks c t ≡ true → split c t ≡ t ∷ []
unfolding split
split-lacks c [] h = refl
split-lacks c (x ∷ xs) h =
    let e : (x == c) ≡ false = ground arith in
    let r : lacks c xs ≡ true = ground arith in rw (e, split-lacks c xs r) refl

split-append :
    (c : ℕ) (p rest : Text) → lacks c p ≡ true → split c (p ++ (c ∷ rest)) ≡ p ∷ split c rest
unfolding split
split-append c [] rest h = let e : (c == c) ≡ true = ground arith in rw e refl
split-append c (x ∷ xs) rest h =
    let e : (x == c) ≡ false = ground arith in
    let r : lacks c xs ≡ true = ground arith in rw (e, split-append c xs rest r) refl

pub split-join :
    (c : ℕ) (p : Text) (ps : List Text)
    → Lacks c (p ∷ ps)
    → split c (join (c ∷ []) (p ∷ ps)) ≡ p ∷ ps
unfolding join
split-join c p [] (h, _) = split-lacks c p h
split-join c p (q ∷ ps) (h, t) =
    split-append c p (join (c ∷ []) (q ∷ ps)) h ∙ ap (λ r. p ∷ r) (split-join c q ps t)
