-- ===== src/Mandate/Verify.antt =====
-- crates/a2g-core/src/mandate.rs: reading an envelope and checking its signature.
use a2g_cli.Base.{ℕ, List, ◌++◌, ◌==◌, length, ltb, ◌/◌, ◌-◌}
use a2g_cli.Base.Text.{Text, codes, text_eq, sort, join}
use a2g_cli.Error.{
  invalid_key, signature_invalid, cbor_decode, mandate_invalid, hex_decode_error, mandate_expired,
  format, say, text, end, Result, ok, ◌>>=◌, ◌>>◌, ensure, ok_or,
}
use a2g_cli.Platform.{Platform, Time}
use a2g_cli.Mandate.Types.{Bytes, CborMandate, Mandate, tbs_to_mandate}

-- `did:a2g:<bs58(pubkey)>`
abbrev pub did_of_key : Platform → Bytes → Text
did_of_key p k = codes "did:a2g:" ++ p.bs58_encode k

-- `hex::encode(Sha256::digest(bytes))`
abbrev pub digest_hex : Platform → Bytes → Text
digest_hex p b = p.hex_encode (p.sha256 b)

-- What `verify_cbor_mandate` returns.
pub record MandateInfo : Type 0 where
  pub agent_did : Text
  pub agent_name : Text
  pub issuer : Text
  pub expires_at : Text
  pub ttl_remaining_sec : ℕ
  pub tools : List Text

module _ (p : Platform) where
  unfoldable pub capabilities_hash : List Text → Text
  capabilities_hash tools = digest_hex p (p.utf8 (join (codes "\n") (sort tools)))

  unfoldable pub parse_cbor_mandate_raw : Bytes → Result (Mandate × CborMandate)
  parse_cbor_mandate_raw cbor = do
    envelope ← ok_or (p.decode_envelope cbor) cbor_decode
    ensure (text_eq envelope.tag (codes "MANDATE-V1"))
        (mandate_invalid (format "expected MANDATE-V1 tag, got '{}'" (text envelope.tag end)))
    tbs ← ok_or (p.decode_tbs envelope.tbs) cbor_decode
    ensure (text_eq tbs.tag (codes "MANDATE"))
        (mandate_invalid (format "expected MANDATE TBS tag, got '{}'" (text tbs.tag end)))
    ok (tbs_to_mandate tbs, envelope)

  unfoldable pub verify_cbor_signature : CborMandate → Result (Unit {0})
  verify_cbor_signature envelope = do
    tbs ← ok_or (p.decode_tbs envelope.tbs) cbor_decode
    ensure (length envelope.issuer_pubkey == 32) invalid_key
    ensure (p.is_verifying_key envelope.issuer_pubkey) invalid_key
    ensure (length envelope.signature == 64) signature_invalid
    ensure (p.verify envelope.issuer_pubkey envelope.tbs envelope.signature) signature_invalid
    ensure (text_eq tbs.issuer_did (did_of_key p envelope.issuer_pubkey))
        (mandate_invalid (say "issuer_did does not match issuer_pubkey"))
    expected ← ok_or (p.hex_decode (capabilities_hash tbs.tools)) hex_decode_error
    ensure (text_eq tbs.capabilities_hash expected)
        (mandate_invalid (say "capabilities_hash does not match tools list"))
    ok tt

  -- `num_seconds` of the remaining life, which stops at 0 here; the source refuses 0 and below.
  abbrev remaining_secs : Time → Time → ℕ
  remaining_secs expires now = (expires - now) / 1000000000

  unfoldable pub verify_cbor_mandate : Bytes → Time → Result MandateInfo
  verify_cbor_mandate cbor now = do
    (m, envelope) ← parse_cbor_mandate_raw cbor
    verify_cbor_signature envelope
    expires ←
        ok_or (p.parse_time m.mandate.expires_at)
          (mandate_invalid (say "invalid expires_at timestamp"))
    ensure (ltb 0 (remaining_secs expires now)) mandate_expired
    ok (record {
      agent_did = m.mandate.agent_did;
      agent_name = m.mandate.agent_name;
      issuer = m.mandate.issuer;
      expires_at = p.to_rfc3339 expires;
      ttl_remaining_sec = remaining_secs expires now;
      tools = m.capabilities.tools;
    })
