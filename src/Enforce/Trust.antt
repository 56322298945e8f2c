-- ===== src/Enforce/Trust.antt =====
-- crates/a2g-core/src/enforce.rs: the trust anchor and `check_issuer_trust`.
use a2g_cli.Base.{Bool, List, ◌==◌, length, any, head?, last?}
use a2g_cli.Base.Text.{text_eq}
use a2g_cli.Error.{
  invalid_key, issuer_untrusted, authority_chain, hex_decode_error, say, Result, ok, ◌>>=◌, ◌>>◌,
  ensure, ok_or,
}
use a2g_cli.Platform.{Platform, Time}
use a2g_cli.Mandate.Types.{Bytes, Mandate, CborMandate}
use a2g_cli.Authority.Types.{Delegation}
use a2g_cli.Authority.Chain.{verify_chain}
use a2g_cli.Authority.Scope.{validate_mandate_against_authority}

pub data TrustAnchor : Type 0 where
  self_sovereign : TrustAnchor
  roots : List Bytes → TrustAnchor
  chain : List Bytes → List Delegation → TrustAnchor

-- `roots.iter().any(|r| r == &key)`
abbrev pub is_trusted_key : List Bytes → Bytes → Bool
is_trusted_key keys key = any (λ k. text_eq k key) keys

-- The chain branch reads the wall clock (`wall`), not the injected time.
unfoldable pub check_issuer_trust :
    Platform → Time → TrustAnchor → CborMandate → Mandate → Result (Unit {0})
check_issuer_trust p wall self_sovereign envelope m = ok tt
check_issuer_trust p wall (roots keys) envelope m = do
  ensure (length envelope.issuer_pubkey == 32) invalid_key
  ensure (is_trusted_key keys envelope.issuer_pubkey) issuer_untrusted
check_issuer_trust p wall (chain keys ds) envelope m = do
  validation ← verify_chain p wall ds
  root ← ok_or (head? ds) (authority_chain (say "empty chain"))
  key ← ok_or (p.hex_decode root.grantor_pubkey) hex_decode_error
  ensure (length key == 32) invalid_key
  ensure (is_trusted_key keys key) issuer_untrusted
  leaf ← ok_or (last? ds) (authority_chain (say "empty chain"))
  ensure (text_eq leaf.grantee_did m.mandate.issuer) issuer_untrusted
  validate_mandate_against_authority p wall m leaf
