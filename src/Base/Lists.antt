-- ===== src/Base/Lists.antt =====
-- Lists measured and indexed by native numbers, and the tests that iterators make.
use Prim.Native.Nat.{ℕ, zero, suc, ◌+◌}
use mathlib.Core.Path.{◌≡◌, refl, sym, ap, ◌∙◌}
use mathlib.Core.Bool.{Bool, true, false, ◌&&◌, ◌||◌}
use mathlib.Core.List.{append_assoc, List, [], ◌∷◌, ◌++◌, reverse, reverse-cons}
use mathlib.Core.Option.{Option, none, some}
use native.Mathlib.Omega.{arith}

module _ {ℓ} {A : Type ℓ} where
  abbrev pub length : List A → ℕ
  length [] = 0
  length (x ∷ xs) = suc (length xs)

  abbrev pub get_elem? : List A → ℕ → Option A
  get_elem? [] i = none
  get_elem? (x ∷ xs) zero = some x
  get_elem? (x ∷ xs) (suc i) = get_elem? xs i

  abbrev pub take : ℕ → List A → List A
  take zero xs = []
  take (suc n) [] = []
  take (suc n) (x ∷ xs) = x ∷ take n xs

  abbrev pub drop : ℕ → List A → List A
  drop zero xs = xs
  drop (suc n) [] = []
  drop (suc n) (x ∷ xs) = drop n xs

  abbrev pub replicate : ℕ → A → List A
  replicate zero a = []
  replicate (suc n) a = a ∷ replicate n a

  abbrev pub is_empty : List A → Bool
  is_empty [] = true
  is_empty (x ∷ xs) = false

  -- `iter().any(p)`
  abbrev pub any : (A → Bool) → List A → Bool
  any p [] = false
  any p (x ∷ xs) = p x || any p xs

  -- `iter().all(p)`
  abbrev pub all : (A → Bool) → List A → Bool
  all p [] = true
  all p (x ∷ xs) = p x && all p xs

  -- `iter().find(p)`
  abbrev pub find_first : (A → Bool) → List A → Option A
  find_first p [] = none
  find_first p (x ∷ xs) = let rest = find_first p xs in elim (p x) [ true ↦ some x | false ↦ rest ]

  abbrev pub last? : List A → Option A
  last? [] = none
  last? (x ∷ []) = some x
  last? (x ∷ y ∷ xs) = last? (y ∷ xs)

  abbrev pub head? : List A → Option A
  head? [] = none
  head? (x ∷ xs) = some x

  -- `split_last`: the last element and what stands before it.
  abbrev pub init : List A → List A
  init [] = []
  init (x ∷ []) = []
  init (x ∷ y ∷ xs) = x ∷ init (y ∷ xs)

  -- Every element satisfies `P`.
  abbrev pub All {κ} : (A → Type κ) → List A → Type κ
  All P [] = Unit
  All P (x ∷ xs) = P x × All P xs

  pub length-append : (xs ys : List A) → length (xs ++ ys) ≡ length xs + length ys
  length-append [] ys = omega arith
  length-append (x ∷ xs) ys = omega (arith, length-append xs ys)

module _ {ℓ κ} {A : Type ℓ} (P : A → Type κ) where
  pub All-append : (xs ys : List A) → All P xs → All P ys → All P (xs ++ ys)
  All-append [] ys h t = t
  All-append (x ∷ xs) ys (e, h) t = (e, All-append xs ys h t)

  pub All-reverse : (xs : List A) → All P xs → All P (reverse xs)
  All-reverse [] h = tt
  All-reverse (x ∷ xs) (e, h) =
      rw (reverse-cons x xs) (All-append (reverse xs) (x ∷ []) (All-reverse xs h) (e, tt))

  pub All-map {μ} : {Q : A → Type μ} → ((a : A) → P a → Q a) → (xs : List A) → All P xs → All Q xs
  All-map h [] t = tt
  All-map h (x ∷ xs) (e, t) = (h x e, All-map h xs t)

-- The new list is the old one with elements in front that satisfy `P`.
abbrev pub Adds {ℓ κ} : {A : Type ℓ} → (A → Type κ) → List A → List A → Type (ℓ ⊔ κ)
Adds P old new = (more : List _) × (new ≡ more ++ old) × All P more

module _ {ℓ κ} {A : Type ℓ} (P : A → Type κ) where
  pub Adds-none : (old : List A) → Adds P old old
  Adds-none old = ([], refl, tt)

  pub Adds-one : (a : A) (old : List A) → P a → Adds P old (a ∷ old)
  Adds-one a old h = (a ∷ [], refl, (h, tt))

  pub Adds-map {μ} :
      {Q : A → Type μ} (old new : List A) → ((a : A) → P a → Q a) → Adds P old new → Adds Q old new
  Adds-map old new f (more, e, h) = (more, e, All-map P f more h)

  pub Adds-trans : (old mid new : List A) → Adds P old mid → Adds P mid new → Adds P old new
  Adds-trans old mid new (xs, e, h) (ys, d, k) =
      (ys ++ xs, d ∙ ap (λ t. ys ++ t) e ∙ sym (append_assoc ys xs old), All-append P ys xs k h)
