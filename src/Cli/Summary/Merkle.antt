-- ===== src/Cli/Summary/Merkle.antt =====
-- crates/a2g-cli/src/trust_summary.rs: `merkle_root`.
use a2g_cli.Base.{
  false, true, ℕ, zero, suc, ◌≤◌, ◌==◌, ltb, ◌≡◌, List, [], ◌∷◌, ◌++◌, length, replicate, is_empty,
  if◌then◌else◌, arith,
}
use a2g_cli.Base.Text.{Text, codes}
use a2g_cli.Platform.{Platform}
use a2g_cli.Mandate.Verify.{digest_hex}

module _ (p : Platform) where
  abbrev pub combined : Text → Text → Text
  combined a b = a ++ (codes ":" ++ b)

  -- One level of the tree above another; an odd element is promoted.
  unfoldable pub next_level : List Text → List Text
  next_level [] = []
  next_level (a ∷ []) = a ∷ []
  next_level (a ∷ b ∷ rest) = digest_hex p (p.utf8 (combined a b)) ∷ next_level rest

  -- `current_level[0]`; the level is never empty.
  abbrev pub first_of : List Text → Text
  first_of [] = []
  first_of (a ∷ rest) = a

  -- The loop over the levels; the fuel is the number of hashes, which no level exceeds.
  unfoldable pub climb : ℕ → List Text → Text
  unfolding next_level
  climb zero level = first_of level
  climb (suc fuel) level =
      let rest = climb fuel (next_level level) in
      if ltb 1 (length level) then rest else first_of level

  unfoldable pub merkle_root : List Text → Text
  unfolding climb
  merkle_root hashes =
      if is_empty hashes
      then replicate 64 b'0'
      else if length hashes == 1
      then first_of hashes
      else climb (length hashes) hashes

  -- The level above a level of hashes: the hash of each two consecutive ones, and an odd last one as
  -- it is.
  pub data IsPaired : List Text → List Text → Type 0 where
    nothing : IsPaired [] []
    odd : (a : Text) → IsPaired (a ∷ []) (a ∷ [])
    pair :
        (a b : Text) {rest above : List Text}
        → IsPaired rest above
        → IsPaired (a ∷ b ∷ rest) (p.hex_encode (p.sha256 (p.utf8 (a ++ (codes ":" ++ b)))) ∷ above)

  -- The root of a tree over a list of hashes.
  pub data IsRoot : List Text → Text → Type 0 where
    single : (a : Text) → IsRoot (a ∷ []) a
    tree :
        {a b : Text} {rest above : List Text} {root : Text}
        → IsPaired (a ∷ b ∷ rest) above
        → IsRoot above root
        → IsRoot (a ∷ b ∷ rest) root

  next_level-IsPaired : (level : List Text) → IsPaired level (next_level level)
  unfolding next_level
  next_level-IsPaired [] = nothing
  next_level-IsPaired (a ∷ []) = odd a
  next_level-IsPaired (a ∷ b ∷ rest) = pair a b (next_level-IsPaired rest)

  pub length-next_level : (level : List Text) → length (next_level level) ≤ length level
  unfolding next_level
  length-next_level [] = omega arith
  length-next_level (a ∷ []) = omega arith
  length-next_level (a ∷ b ∷ rest) = omega (arith, length-next_level rest)

  pub two_or_more : (n : ℕ) → (ltb 1 (suc (suc n)) ≡ true) × ((suc (suc n) == 1) ≡ false)
  two_or_more n = ground arith

  climb-IsRoot :
      (fuel : ℕ) (a : Text) (rest : List Text)
      → length rest ≤ fuel
      → IsRoot (a ∷ rest) (climb fuel (a ∷ rest))
  unfolding climb next_level
  climb-IsRoot zero a [] h = single a
  climb-IsRoot (suc fuel) a [] h = single a
  climb-IsRoot zero a (b ∷ rest) h = elim h [ ]
  climb-IsRoot (suc fuel) a (b ∷ rest) h = rw (two_or_more (length rest)).0 (
      tree (next_level-IsPaired (a ∷ b ∷ rest)) (
        climb-IsRoot fuel (digest_hex p (p.utf8 (combined a b))) (next_level rest)
          (omega (arith, length-next_level rest))))

  -- The loop over the levels ends at the root of the tree, for every list of hashes that is not
  -- empty: the hash of a single one, and otherwise the root of the list of the hashes of its
  -- consecutive pairs, with an odd last element unchanged.
  pub merkle_root-IsRoot :
      (a : Text) (rest : List Text) → IsRoot (a ∷ rest) (merkle_root (a ∷ rest))
  unfolding merkle_root climb next_level
  merkle_root-IsRoot a [] = single a
  merkle_root-IsRoot a (b ∷ rest) =
      rw (two_or_more (length rest)).1
        (climb-IsRoot (suc (suc (length rest))) a (b ∷ rest) (omega arith))
