-- ===== src/Cli/Compiled.antt =====
-- crates/a2g-cli/src/mandate_compile.rs, crates/a2g-core/src/mandate.rs: a compiled mandate verifies.
use Prim.Native.Nat.{min}
use a2g_cli.Base.{ℕ, ◌^◌, ◌-◌, ◌/◌, ◌<◌, ◌≡◌, refl, Option, some, lt→ltb, arith}
use a2g_cli.Base.Text.{text_eq, Text, text_eq_refl}
use a2g_cli.Error.{ok, ok_or-eq-ok}
use a2g_cli.Platform.{Platform, Time}
use a2g_cli.Mandate.Types.{Bytes, MandateTbs, CborMandate, Mandate, tbs_to_mandate}
use a2g_cli.Mandate.Verify.{
  did_of_key, capabilities_hash, parse_cbor_mandate_raw, verify_cbor_signature, verify_cbor_mandate,
}
use a2g_cli.Hitl.RoundTrip.{Signs}
use a2g_cli.Cli.Compile.{mandate_tbs, signed_envelope, compile_for, signing_secret, compile_mandate}

-- What the code relies on: what the encoders write, the decoders read back, and so for time stamps.
pub record ReadsBack (p : Platform) (encode_tbs : MandateTbs → Option Bytes)
    (encode_envelope : CborMandate → Option Bytes) : Type 0 where
  pub tbs_back : (t : MandateTbs) (b : Bytes) → encode_tbs t ≡ some b → p.decode_tbs b ≡ some t
  pub envelope_back :
      (e : CborMandate) (b : Bytes) → encode_envelope e ≡ some b → p.decode_envelope b ≡ some e
  pub time_back : (t : Time) → p.parse_time (p.to_rfc3339 t) ≡ some t

module _ (p : Platform) (encode_tbs : MandateTbs → Option Bytes)
    (encode_envelope : CborMandate → Option Bytes) where
  -- A compiled mandate is read back as it was compiled, with its signature, and its signature
  -- verifies.
  pub compile_for-parses :
      (now : Time) (secs : ℕ) (secret : Bytes) (proposal_hash : Text) (m : Mandate) (cbor : Bytes)
      → ReadsBack p encode_tbs encode_envelope
      → Signs p secret
      → compile_for p encode_tbs encode_envelope now secs secret proposal_hash m ≡ ok cbor
      → (caps : Bytes) × (bytes : Bytes) × (parse_cbor_mandate_raw p cbor
          ≡ ok (
            tbs_to_mandate (mandate_tbs p now secs secret caps proposal_hash m),
            signed_envelope p secret bytes,
          ))
        × (verify_cbor_signature p (signed_envelope p secret bytes) ≡ ok tt)
  unfolding compile_for parse_cbor_mandate_raw verify_cbor_signature mandate_tbs text_eq
  compile_for-parses now secs secret proposal_hash m cbor back sg h =
      let (caps, e1, h1) =
        ok_or-eq-ok (p.hex_decode (capabilities_hash p m.capabilities.tools)) _ _ h in
      let tbs = mandate_tbs p now secs secret caps proposal_hash m in
      let (bytes, e2, h2) = ok_or-eq-ok (encode_tbs tbs) _ _ h1 in
      let e3 : encode_envelope (signed_envelope p secret bytes) ≡ some cbor = ground (arith, h2) in
      let r2 = back.tbs_back tbs bytes e2 in
      let r3 = back.envelope_back _ cbor e3 in
      (
        caps,
        bytes,
        rw (r3, r2) refl,
        rw
            (
              r2,
              sg.key_length,
              sg.key_valid,
              sg.sign_length bytes,
              sg.verifies bytes,
              text_eq_refl (did_of_key p (p.public_key secret)),
              e1,
              text_eq_refl caps,
            )
            refl,
      )

  -- A mandate that was compiled verifies, with its agent, issuer and tools, as long as at least a
  -- second of its life is left. The encoders and time stamps are assumed to read back, and the
  -- issuer's key to sign.
  pub verify_cbor_mandate-compile_mandate :
      (hours : ℕ → Option ℕ) (now : Time) (m : Mandate) (key_hex : Text) (ttl secs : ℕ)
      (proposal_hash : Text) (secret cbor : Bytes) (expires at : Time)
      → ReadsBack p encode_tbs encode_envelope
      → Signs p secret
      → signing_secret p key_hex ≡ ok secret
      → hours (min ttl (2 ^ 63 - 1)) ≡ some secs
      → p.checked_add_secs now secs ≡ some expires
      → 0 < (expires - at) / 1000000000
      → compile_mandate p encode_tbs encode_envelope hours now m key_hex ttl proposal_hash
        ≡ some (ok cbor)
      → verify_cbor_mandate p cbor at
        ≡ ok (record {
          agent_did = m.mandate.agent_did;
          agent_name = m.mandate.agent_name;
          issuer = did_of_key p (p.public_key secret);
          expires_at = p.to_rfc3339 expires;
          ttl_remaining_sec = (expires - at) / 1000000000;
          tools = m.capabilities.tools;
        })
  unfolding compile_mandate verify_cbor_mandate tbs_to_mandate mandate_tbs
  verify_cbor_mandate-compile_mandate hours now m key_hex ttl secs proposal_hash secret cbor expires
        at back sg es eh ee left h =
      let made : compile_for p encode_tbs encode_envelope now secs secret proposal_hash m
          ≡ ok cbor =
        ground (arith, es, eh, h) in
      let (caps, bytes, parses, verifies) =
        compile_for-parses now secs secret proposal_hash m cbor back sg made in
      rw (parses, verifies, ee, back.time_back expires, lt→ltb 0 _ left) refl
