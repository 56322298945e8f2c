-- ===== src/Cli/Summary/Binds.antt =====
-- crates/a2g-cli/src/trust_summary.rs: the root of as many hashes binds each of them.
use a2g_cli.Base.{
  ◌∙◌, sym, ℕ, zero, suc, ◌≤◌, ◌≡◌, refl, ap, ◌≢◌, ◌⊎◌, inl, inr, List, [], ◌∷◌, ◌++◌, length, All,
  arith, Bool-cases,
}
use a2g_cli.Base.Text.{Text, text_eq, text_eq→eq, text_eq_refl}
use a2g_cli.Platform.{Platform}
use a2g_cli.Mandate.Verify.{digest_hex}
use a2g_cli.Cli.Summary.Merkle.{
  two_or_more, combined, next_level, climb, merkle_root, length-next_level,
}

-- Two different texts with the same digest.
abbrev pub Collision : Platform → Type 0
Collision p =
    (s : Text) × (t : Text) × (s ≢ t) × (digest_hex p (p.utf8 s) ≡ digest_hex p (p.utf8 t))

-- The hexadecimal text of a digest has 64 characters.
abbrev pub IsHash : Text → Type 0
IsHash t = length t ≡ 64

pub cons-injective {ℓ} :
    {A : Type ℓ} {x y : A} {xs ys : List A} → (x ∷ xs) ≡ (y ∷ ys) → (x ≡ y) × (xs ≡ ys)
cons-injective e = ground arith

append-injective : (s t u v : Text) → length s ≡ length t → (s ++ u) ≡ (t ++ v) → (s ≡ t) × (u ≡ v)
append-injective [] [] u v l e = (refl, e)
append-injective [] (y ∷ ys) u v l e = ground arith
append-injective (x ∷ xs) [] u v l e = ground arith
append-injective (x ∷ xs) (y ∷ ys) u v l e =
    let (head_is, tail_is) = cons-injective e in
    let (rest_is, end_is) = append-injective xs ys u v (omega arith) tail_is in ((cc), end_is)

module _ (p : Platform) where
  digest-binds :
      (s t : Text) → digest_hex p (p.utf8 s) ≡ digest_hex p (p.utf8 t) → (s ≡ t) ⊎ Collision p
  digest-binds s t e = elim (Bool-cases (text_eq s t)) [
    | inl same ↦ inl (text_eq→eq s t same)
    | inr other ↦ inr (s, t, λ same. ground (arith, text_eq_refl t), e)
  ]

  combined-injective :
      (a b c d : Text) → IsHash a → IsHash c → combined p a b ≡ combined p c d → (a ≡ c) × (b ≡ d)
  combined-injective a b c d ha hc e =
      let (first_is, rest_is) = append-injective a c _ _ (omega arith) e in
      (first_is, (cons-injective rest_is).1)

  next_level-binds :
      (xs ys : List Text)
      → length xs ≡ length ys
      → All IsHash xs
      → All IsHash ys
      → next_level p xs ≡ next_level p ys
      → (xs ≡ ys) ⊎ Collision p
  unfolding next_level
  next_level-binds [] [] l hx hy e = inl refl
  next_level-binds [] (y ∷ ys) l hx hy e = ground arith
  next_level-binds (x ∷ xs) [] l hx hy e = ground arith
  next_level-binds (x ∷ []) (y ∷ []) l hx hy e = inl e
  next_level-binds (x ∷ []) (y ∷ z ∷ ys) l hx hy e = ground arith
  next_level-binds (x ∷ w ∷ xs) (y ∷ []) l hx hy e = ground arith
  next_level-binds (x ∷ w ∷ xs) (y ∷ z ∷ ys) l hx hy e =
      let (head_is, tail_is) = cons-injective e in
      elim (digest-binds _ _ head_is) [
        | inr collision ↦ inr collision
        | inl same ↦ elim (next_level-binds xs ys (omega arith) hx.1.1 hy.1.1 tail_is) [
          | inr collision ↦ inr collision
          | inl rest ↦ let (a, b) = combined-injective x w y z hx.0 hy.0 same in inl (cc)
        ]
      ]

  module _ (hashes : (s : Text) → IsHash (digest_hex p s)) where
    next_level-IsHash : (xs : List Text) → All IsHash xs → All IsHash (next_level p xs)
    unfolding next_level
    next_level-IsHash [] h = tt
    next_level-IsHash (x ∷ []) h = h
    next_level-IsHash (x ∷ y ∷ rest) h = (hashes _, next_level-IsHash rest h.1.1)

    same_length :
        (xs ys : List Text)
        → length xs ≡ length ys
        → length (next_level p xs) ≡ length (next_level p ys)
    unfolding next_level
    same_length [] [] l = refl
    same_length [] (y ∷ ys) l = ground arith
    same_length (x ∷ xs) [] l = ground arith
    same_length (x ∷ []) (y ∷ []) l = refl
    same_length (x ∷ []) (y ∷ z ∷ ys) l = ground arith
    same_length (x ∷ w ∷ xs) (y ∷ []) l = ground arith
    same_length (x ∷ w ∷ xs) (y ∷ z ∷ ys) l = ap suc (same_length xs ys (omega arith))

    shorter :
        (x w : Text) (xs : List Text) (fuel : ℕ)
        → suc (suc (length xs)) ≤ suc (suc fuel)
        → length (next_level p (x ∷ w ∷ xs)) ≤ suc fuel
    unfolding next_level
    shorter x w xs fuel n = omega (arith, length-next_level p xs)

    climb-binds :
        (fuel : ℕ) (xs ys : List Text)
        → length xs ≡ length ys
        → length xs ≤ suc fuel
        → All IsHash xs
        → All IsHash ys
        → climb p fuel xs ≡ climb p fuel ys
        → (xs ≡ ys) ⊎ Collision p
    unfolding climb
    climb-binds fuel [] [] l n hx hy e = inl refl
    climb-binds fuel [] (y ∷ ys) l n hx hy e = ground arith
    climb-binds fuel (x ∷ xs) [] l n hx hy e = ground arith
    climb-binds fuel (x ∷ []) (y ∷ z ∷ ys) l n hx hy e = ground arith
    climb-binds fuel (x ∷ w ∷ xs) (y ∷ []) l n hx hy e = ground arith
    climb-binds zero (x ∷ []) (y ∷ []) l n hx hy e = inl (cc)
    climb-binds (suc fuel) (x ∷ []) (y ∷ []) l n hx hy e = inl (cc)
    climb-binds zero (x ∷ w ∷ xs) (y ∷ z ∷ ys) l n hx hy e = ground arith
    climb-binds (suc fuel) (x ∷ w ∷ xs) (y ∷ z ∷ ys) l n hx hy e =
        let e2 = rw ((two_or_more p (length xs)).0, (two_or_more p (length ys)).0) at e in
        elim (climb-binds fuel (next_level p (x ∷ w ∷ xs)) (next_level p (y ∷ z ∷ ys))
          (same_length (x ∷ w ∷ xs) (y ∷ z ∷ ys) l) (shorter x w xs fuel n)
          (next_level-IsHash (x ∷ w ∷ xs) hx) (next_level-IsHash (y ∷ z ∷ ys) hy) e2) [
            | inr collision ↦ inr collision
            | inl same ↦ next_level-binds (x ∷ w ∷ xs) (y ∷ z ∷ ys) l hx hy same
          ]

    merkle_root-climb :
        (x : Text) (xs : List Text) → merkle_root p (x ∷ xs) ≡ climb p (suc (length xs)) (x ∷ xs)
    unfolding merkle_root climb
    merkle_root-climb x [] = refl
    merkle_root-climb x (y ∷ ys) = rw (two_or_more p (length ys)).1 refl

    -- Two lists of as many hashes of 64 characters with the same Merkle root are the same list, or
    -- else two different texts with the same digest are found. Digests are assumed to have 64
    -- characters.
    pub merkle_root-binds :
        (xs ys : List Text)
        → length xs ≡ length ys
        → All IsHash xs
        → All IsHash ys
        → merkle_root p xs ≡ merkle_root p ys
        → (xs ≡ ys) ⊎ Collision p
    merkle_root-binds [] [] l hx hy e = inl refl
    merkle_root-binds [] (y ∷ ys) l hx hy e = ground arith
    merkle_root-binds (x ∷ xs) [] l hx hy e = ground arith
    merkle_root-binds (x ∷ xs) (y ∷ ys) l hx hy e =
        let n : length xs ≡ length ys = omega arith in
        climb-binds (suc (length xs)) (x ∷ xs) (y ∷ ys) l (omega arith) hx hy (
          sym (merkle_root-climb x xs)
          ∙ (e ∙ (merkle_root-climb y ys ∙ ap (λ k. climb p (suc k) (y ∷ ys)) (sym n))))
