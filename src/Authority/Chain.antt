-- ===== src/Authority/Chain.antt =====
-- crates/a2g-core/src/authority.rs: the check of one delegation and of a chain of them.
use a2g_cli.Base.{ℕ, suc, Bool, true, false, not, List, [], ◌∷◌, ◌==◌, length, ltb, replicate}
use a2g_cli.Base.Text.{Text, text_eq}
use a2g_cli.Error.{
  authority_chain, hex_decode_error, invalid_key, signature_invalid, format, say, number, end,
  Result, ok, err, ◌>>=◌, ◌>>◌, ensure, ok_or,
}
use a2g_cli.Platform.{Platform, Time}
use a2g_cli.Authority.Types.{
  AuthorityLevel, root, level_le, AuthorityScope, Jurisdiction, Delegation,
}
use a2g_cli.Authority.Scope.{compute_effective_scope}

-- `"0".repeat(64)`
abbrev pub genesis_hash : Text
genesis_hash = replicate 64 b'0'

pub record ChainValidation : Type 0 where
  pub valid : Bool
  pub chain_depth : ℕ
  pub root_did : Text
  pub effective_scope : AuthorityScope
  pub effective_jurisdiction : Jurisdiction

abbrev pub is_root : AuthorityLevel → Bool
is_root root = true
is_root _ = false

-- The three tests that link a delegation, at position `i`, to the one before it.
unfoldable pub check_link : ℕ → Delegation → Delegation → Result (Unit {0})
check_link i prev d = do
  ensure (text_eq d.parent_delegation_hash prev.delegation_hash) (
      authority_chain (format "chain broken at delegation {}: parent_hash mismatch" (number i end)))
  ensure (text_eq d.grantor_did prev.grantee_did) (
      authority_chain
        (format "chain broken at delegation {}: grantor is not previous grantee" (number i end)))
  ensure (not (level_le d.level prev.level)) (
      authority_chain
        (format "chain broken at delegation {}: level does not decrease" (number i end)))

module _ (p : Platform) (wall : Time) where
  unfoldable pub verify_delegation : Delegation → Result (Unit {0})
  verify_delegation d = do
    key ← ok_or (p.hex_decode d.grantor_pubkey) hex_decode_error
    ensure (length key == 32) invalid_key
    ensure (p.is_verifying_key key) invalid_key
    sig ← ok_or (p.hex_decode d.signature) hex_decode_error
    ensure (length sig == 64) signature_invalid
    ensure (p.verify key (p.utf8 d.delegation_hash) sig) signature_invalid
    expires ←
        ok_or (p.parse_time d.expires_at) (authority_chain (say "invalid delegation expires_at"))
    ensure (ltb wall expires) (authority_chain (say "delegation expired"))

  -- The loop from position `i` on, with the delegation before it.
  unfoldable pub verify_links : ℕ → Delegation → List Delegation → Result (Unit {0})
  unfolding verify_delegation check_link
  verify_links i prev [] = ok tt
  verify_links i prev (d ∷ ds) =
      verify_delegation d >> (check_link i prev d >> verify_links (suc i) d ds)

  abbrev pub leaf_of : Delegation → List Delegation → Delegation
  leaf_of d [] = d
  leaf_of d (e ∷ es) = leaf_of e es

  unfoldable pub verify_chain : List Delegation → Result ChainValidation
  unfolding verify_links
  verify_chain [] = err (authority_chain (say "empty delegation chain"))
  verify_chain (r ∷ ds) = do
    ensure (text_eq r.grantor_did r.grantee_did)
        (authority_chain (say "chain root is not a self-delegation"))
    ensure (is_root r.level) (authority_chain (say "chain root is not ROOT level"))
    ensure (text_eq r.parent_delegation_hash genesis_hash)
        (authority_chain (say "chain root does not point to genesis"))
    verify_delegation r
    verify_links 1 r ds
    ok (record {
      valid = true;
      chain_depth = length (r ∷ ds);
      root_did = r.grantee_did;
      effective_scope = compute_effective_scope (r ∷ ds);
      effective_jurisdiction = (leaf_of r ds).jurisdiction;
    })
