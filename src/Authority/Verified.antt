-- ===== src/Authority/Verified.antt =====
-- crates/a2g-core/src/authority.rs, `verify_chain`: exactly the chains it accepts, and how long
-- they can be.
use a2g_cli.Base.{sym, ◌≡◌, refl, ◌↔◌, arith, ◌+◌, ◌≤◌, List, [], ◌∷◌, true, length}
use a2g_cli.Base.Text.{text_eq, text_eq_iff}
use a2g_cli.Error.{ok-injective, ensure-eq-ok, >>-eq-ok, ok, is_ok, is_ok-eq-true}
use a2g_cli.Platform.{Platform, Time}
use a2g_cli.Authority.Types.{root, department, team, operator, rank, Delegation, AuthorityLevel}
use a2g_cli.Authority.Chain.{
  ChainValidation, verify_delegation, verify_links, verify_chain, genesis_hash, is_root,
}
use a2g_cli.Authority.Linked.{
  IsVerified, verify_delegation-IsVerified, IsVerified-verify_delegation, Linked,
  verify_links-Linked, Linked-verify_links,
}

is_root-eq-true : (l : AuthorityLevel) → is_root l ≡ true → l ≡ root
is_root-eq-true root h = refl
is_root-eq-true department h = cc
is_root-eq-true team h = cc
is_root-eq-true operator h = cc

rank-≤3 : (l : AuthorityLevel) → rank l ≤ 3
rank-≤3 root = omega arith
rank-≤3 department = omega arith
rank-≤3 team = omega arith
rank-≤3 operator = omega arith

module _ (p : Platform) (wall : Time) where
  -- A chain of trust: a root that delegates to itself from the genesis hash, then delegations each
  -- of which continues the one before it at a lower level.
  abbrev pub IsChain : List Delegation → Type 0
  IsChain [] = ⊥
  IsChain (r ∷ ds) =
      (r.grantor_did ≡ r.grantee_did)
      × (r.level ≡ root)
      × (r.parent_delegation_hash ≡ genesis_hash)
      × IsVerified p wall r
      × Linked p wall r ds

  verify_chain-IsChain :
      (chain : List Delegation) → is_ok (verify_chain p wall chain) ≡ true → IsChain chain
  unfolding verify_chain
  verify_chain-IsChain [] h = cc
  verify_chain-IsChain (r ∷ ds) h =
      let (v, h0) = is_ok-eq-true (verify_chain p wall (r ∷ ds)) h in
      let (a, h1) = ensure-eq-ok (text_eq r.grantor_did r.grantee_did) _ _ h0 in
      let (b, h2) = ensure-eq-ok (is_root r.level) _ _ h1 in
      let (c, h3) = ensure-eq-ok (text_eq r.parent_delegation_hash genesis_hash) _ _ h2 in
      let (d, h4) = >>-eq-ok (verify_delegation p wall r) _ h3 in
      let (e, h5) = >>-eq-ok (verify_links p wall 1 r ds) _ h4 in
      (
        (text_eq_iff _ _).0 a,
        is_root-eq-true r.level b,
        (text_eq_iff _ _).0 c,
        verify_delegation-IsVerified p wall r d,
        verify_links-Linked p wall 1 r ds e,
      )

  IsChain-verify_chain :
      (chain : List Delegation) → IsChain chain → is_ok (verify_chain p wall chain) ≡ true
  unfolding verify_chain
  IsChain-verify_chain [] h = elim h [ ]
  IsChain-verify_chain (r ∷ ds) (a, b, c, d, e) =
      let is_r : is_root r.level ≡ true = cc in
      rw
        (
          (text_eq_iff _ _).1 a,
          is_r,
          (text_eq_iff _ _).1 c,
          IsVerified-verify_delegation p wall r d,
          Linked-verify_links p wall 1 r ds e,
        )
        refl

  -- The levels of a chain of delegations grow strictly, so that it has at most as many links as
  -- there are levels below the first.
  Linked-length :
      (prev : Delegation) (ds : List Delegation)
      → Linked p wall prev ds
      → rank prev.level + length ds ≤ 3
  Linked-length prev [] h = ground (arith, rank-≤3 prev.level)
  Linked-length prev (d ∷ ds) ((_, _, lt, _), h) = let ih = Linked-length d ds h in omega arith

  -- `verify_chain` succeeds exactly on a chain that starts with a verified self-delegation at the
  -- root level from the genesis hash and in which each further delegation names the hash and the
  -- grantee of the one before it, has a lower level, and is verified: its signature over its hash
  -- checks under its key, and it expires after `wall`.
  pub verify_chain_iff :
      (chain : List Delegation) → (is_ok (verify_chain p wall chain) ≡ true) ↔ IsChain chain
  verify_chain_iff chain = (verify_chain-IsChain chain, IsChain-verify_chain chain)

  -- A chain that `verify_chain` accepts has at least one and at most four delegations, and
  -- `chain_depth` is their number.
  pub verify_chain-depth :
      (chain : List Delegation) (v : ChainValidation)
      → verify_chain p wall chain ≡ ok v
      → (v.chain_depth ≡ length chain) × (1 ≤ v.chain_depth) × (v.chain_depth ≤ 4)
  unfolding verify_chain
  verify_chain-depth [] v h = cc
  verify_chain-depth (r ∷ ds) v h =
      let (a, h1) = ensure-eq-ok (text_eq r.grantor_did r.grantee_did) _ _ h in
      let (b, h2) = ensure-eq-ok (is_root r.level) _ _ h1 in
      let (c, h3) = ensure-eq-ok (text_eq r.parent_delegation_hash genesis_hash) _ _ h2 in
      let (d, h4) = >>-eq-ok (verify_delegation p wall r) _ h3 in
      let (e, h5) = >>-eq-ok (verify_links p wall 1 r ds) _ h4 in
      let same = ok-injective (λ w. w.chain_depth) h5 in
      let bound = Linked-length r ds (verify_links-Linked p wall 1 r ds e) in
      (sym same, rw (sym same) (ground arith), rw (sym same) (ground arith))
