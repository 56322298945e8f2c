-- ===== src/Authority/Delegate.antt =====
-- crates/a2g-core/src/authority.rs: issuing a delegation to a subordinate.
use Prim.Native.Nat.{min}
use a2g_cli.Base.{
  ℕ, Option, some, ◌-◌, ◌*◌, ◌/◌, ◌^◌, not, ◌++◌, ◌==◌, length, leb, if◌then◌else◌, unwrap_or,
}
use a2g_cli.Base.Int.{ℤ, pos, sub_ℕ, ltb_ℤ}
use a2g_cli.Base.Text.{Text, codes, text_eq}
use a2g_cli.Error.{
  or_panic, and_then, authority_chain, mandate_invalid, hex_decode_error, invalid_key, format, say,
  text, number, signed, end, Result, ok, ◌>>=◌, ◌>>◌, ensure, ok_or,
}
use a2g_cli.Platform.{Platform, Time}
use a2g_cli.Mandate.Verify.{did_of_key, digest_hex}
use a2g_cli.Mandate.Types.{Bytes}
use a2g_cli.Authority.Chain.{genesis_hash}
use a2g_cli.Authority.Types.{
  root, AuthorityLevel, level_le, level_name, AuthorityScope, Jurisdiction, Delegation,
}
use a2g_cli.Authority.Scope.{validate_scope_subset}

abbrev hour_ns : ℕ
hour_ns = 3600000000000

-- `a.signed_duration_since(b).num_hours()`: whole hours, towards zero.
unfoldable pub num_hours : Time → Time → ℤ
num_hours a b = if leb b a then pos ((a - b) / hour_ns) else sub_ℕ 0 ((b - a) / hour_ns)

-- `i64::try_from(h).unwrap_or(i64::MAX)`
abbrev pub as_i64 : ℕ → ℕ
as_i64 h = min h (2 ^ 63 - 1)

-- The content that is hashed, as `format!` and the derived `Debug` spell it; the hexadecimal
-- digest is what is signed.
pub record Content : Type 0 where
  pub delegation_id : Text
  pub grantor_did : Text
  pub grantee_did : Text
  pub grantee_name : Text
  pub level : AuthorityLevel
  pub scope : AuthorityScope
  pub jurisdiction : Jurisdiction
  pub delegated_at : Text
  pub expires_at : Text
  pub parent_delegation_hash : Text

module _ (p : Platform) (content_text : Content → Text) where
  unfoldable pub delegate :
      Time
      → Text
      → Text
      → Delegation
      → Text
      → Text
      → AuthorityLevel
      → AuthorityScope
      → Jurisdiction
      → ℕ
      → Result Delegation
  unfolding num_hours
  delegate now delegation_id secret_hex parent grantee_did grantee_name level scope jurisdiction
        ttl =
      do
        ensure (not (level_le level parent.level)) (
            authority_chain (
              format "cannot delegate {} authority from {} level"
                (text (level_name level) (text (level_name parent.level) end))))
        validate_scope_subset scope parent.scope
        parent_expires ←
            ok_or (p.parse_time parent.expires_at)
              (mandate_invalid (say "invalid parent expires_at"))
        ensure (not (ltb_ℤ (num_hours parent_expires now) (pos (as_i64 ttl)))) (
            authority_chain (
              format "requested TTL ({} hours) exceeds parent's remaining TTL ({} hours)"
                (number ttl (signed (num_hours parent_expires now) end))))
        secret ← ok_or (p.hex_decode secret_hex) hex_decode_error
        ensure (length secret == 32) invalid_key
        let key = p.public_key secret
        ensure (text_eq (did_of_key p key) parent.grantee_did) (
            authority_chain (
              format "key-DID mismatch: signing key derives to '{}' but parent grantee is '{}'"
                (text (did_of_key p key) (text parent.grantee_did end))))
        let expires = unwrap_or (p.checked_add_secs now (3600 * as_i64 ttl)) now
        let content = content_text (record {
          delegation_id = delegation_id;
          grantor_did = parent.grantee_did;
          grantee_did = grantee_did;
          grantee_name = grantee_name;
          level = level;
          scope = scope;
          jurisdiction = jurisdiction;
          delegated_at = p.to_rfc3339 now;
          expires_at = p.to_rfc3339 expires;
          parent_delegation_hash = parent.delegation_hash;
        })
        let hash = digest_hex p (p.utf8 (codes "DELEGATION:" ++ content))
        ok (record {
          delegation_id = delegation_id;
          grantor_did = parent.grantee_did;
          grantee_did = grantee_did;
          grantee_name = grantee_name;
          level = level;
          scope = scope;
          jurisdiction = jurisdiction;
          delegated_at = p.to_rfc3339 now;
          expires_at = p.to_rfc3339 expires;
          signature = p.hex_encode (p.sign secret (p.utf8 hash));
          grantor_pubkey = p.hex_encode key;
          parent_delegation_hash = parent.delegation_hash;
          delegation_hash = hash;
        })

  -- The root delegation once its key and its lifetime in seconds are known.
  unfoldable pub root_delegation_for :
      (now : Time) (delegation_id : Text) (secret : Bytes) (root_name : Text) (secs : ℕ)
      → AuthorityScope
      → Jurisdiction
      → Delegation
  root_delegation_for now delegation_id secret root_name secs scope jurisdiction =
      let did = did_of_key p (p.public_key secret) in
      let expires = unwrap_or (p.checked_add_secs now secs) now in
      let content = content_text (record {
        delegation_id = delegation_id;
        grantor_did = did;
        grantee_did = did;
        grantee_name = root_name;
        level = root;
        scope = scope;
        jurisdiction = jurisdiction;
        delegated_at = p.to_rfc3339 now;
        expires_at = p.to_rfc3339 expires;
        parent_delegation_hash = genesis_hash;
      }) in
      let hash = digest_hex p (p.utf8 (codes "DELEGATION:" ++ content)) in
      record {
        delegation_id = delegation_id;
        grantor_did = did;
        grantee_did = did;
        grantee_name = root_name;
        level = root;
        scope = scope;
        jurisdiction = jurisdiction;
        delegated_at = p.to_rfc3339 now;
        expires_at = p.to_rfc3339 expires;
        signature = p.hex_encode (p.sign secret (p.utf8 hash));
        grantor_pubkey = p.hex_encode (p.public_key secret);
        parent_delegation_hash = genesis_hash;
        delegation_hash = hash;
      }

  unfoldable pub root_secret : Text → Result Bytes
  root_secret secret_hex = do
    secret ← ok_or (p.hex_decode secret_hex) hex_decode_error
    ensure (length secret == 32) invalid_key
    ok secret

  -- `hours` is `Duration::hours` in seconds, and `none` its panic.
  unfoldable pub create_root_delegation :
      (hours : ℕ → Option ℕ) (now : Time) (delegation_id secret_hex root_name : Text)
      → AuthorityScope
      → Jurisdiction
      → ℕ
      → Option (Result Delegation)
  unfolding root_secret root_delegation_for
  create_root_delegation hours now delegation_id secret_hex root_name scope jurisdiction ttl =
      and_then (some (root_secret secret_hex)) (λ secret. or_panic (hours (as_i64 ttl)) (λ secs.
        some (ok (root_delegation_for now delegation_id secret root_name secs scope jurisdiction))))
