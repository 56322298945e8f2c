-- ===== src/Examples/Chains.antt =====
-- The theorems on authority, applied to concrete delegations.
use a2g_cli.Examples.Texts.{platform-Signs}
use a2g_cli.Mandate.Verify.{did_of_key}
use a2g_cli.Authority.Issued.{verify_chain-delegate}
use a2g_cli.Authority.Delegate.{num_hours, delegate}
use a2g_cli.Base.{arith, replicate, ◌≡◌, refl, ◌↔◌, true, [], ◌∷◌}
use a2g_cli.Base.Text.{codes, text_eq}
use a2g_cli.Error.{ok, is_ok}
use a2g_cli.Authority.Types.{department, Delegation, default_scope}
use a2g_cli.Authority.Scope.{
  compute_effective_scope, validate_scope_subset, meet_scopes, meet_scope,
}
use a2g_cli.Authority.Chain.{
  check_link, verify_links, verify_chain, verify_delegation, ChainValidation,
}
use a2g_cli.Authority.Verified.{verify_chain_iff, IsChain}
use a2g_cli.Examples.{key, root_delegation, platform, two_links, next_delegation, limited_scope}

verify_chain_iff_example :
    (is_ok (verify_chain platform 7 two_links) ≡ true) ↔ IsChain platform 7 two_links
verify_chain_iff_example = verify_chain_iff platform 7 two_links

abbrev validation : ChainValidation
validation = record {
  valid = true;
  chain_depth = 2;
  root_did = codes "root";
  effective_scope = default_scope;
  effective_jurisdiction = next_delegation.jurisdiction;
}

accepted_chain : verify_chain platform 7 two_links ≡ ok validation
unfolding verify_chain verify_links verify_delegation check_link text_eq compute_effective_scope
    meet_scopes meet_scope
accepted_chain = refl

abbrev limited_delegation : Delegation
limited_delegation = record next_delegation { scope = limited_scope }

abbrev pub issuer : Delegation
issuer = record root_delegation {
  grantor_did = did_of_key platform key;
  grantee_did = did_of_key platform key;
}

abbrev child : Delegation
child = record root_delegation {
  delegation_id = codes "d1";
  grantor_did = did_of_key platform key;
  grantee_did = codes "sub";
  grantee_name = codes "Sub";
  level = department;
  delegated_at = replicate 7 b'x';
  expires_at = replicate 7 b'x';
  signature = platform.sign key (codes "DELEGATION:c");
  grantor_pubkey = key;
  parent_delegation_hash = codes "h0";
  delegation_hash = codes "DELEGATION:c";
}

abbrev issuer_valid : ChainValidation
issuer_valid = record {
  valid = true;
  chain_depth = 1;
  root_did = did_of_key platform key;
  effective_scope = compute_effective_scope (issuer ∷ []);
  effective_jurisdiction = issuer.jurisdiction;
}

issuer_verified : verify_chain platform 3 (issuer ∷ []) ≡ ok issuer_valid
unfolding verify_chain verify_links verify_delegation text_eq
issuer_verified = refl

issued :
    delegate platform
      (λ c. codes "c")
      7
      (codes "d1")
      key
      issuer
      (codes "sub")
      (codes "Sub")
      department
      default_scope
      issuer.jurisdiction
      0
    ≡ ok child
unfolding delegate num_hours validate_scope_subset text_eq
issued = refl

verify_chain-delegate_example : is_ok (verify_chain platform 3 (issuer ∷ child ∷ [])) ≡ true
verify_chain-delegate_example =
    verify_chain-delegate platform (λ c. codes "c") 3 7 (codes "d1") key issuer [] (codes "sub")
      (codes "Sub") department default_scope issuer.jurisdiction 0 key child 7 issuer_valid
      platform-Signs refl refl (omega arith) issuer_verified issued
