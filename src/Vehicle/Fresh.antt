-- ===== src/Vehicle/Fresh.antt =====
-- crates/a2g-core/src/vehicle.rs: the freshness of signed vehicle states.
use std.Logic.{↔_trans}
use a2g_cli.Base.{
  ℕ, ◌+◌, ◌*◌, ◌<◌, suc, Bool, true, false, Option, none, some, ◌≡◌, refl, ◌↔◌, arith,
}
use a2g_cli.Base.Text.{Text, text_eq, text_eq_iff, text_eq_refl}
use a2g_cli.Platform.{Platform, Time}
use a2g_cli.Mandate.Types.{Bytes}
use a2g_cli.Hitl.RoundTrip.{Signs}
use a2g_cli.Vehicle.Types.{VehicleState, VerifiedVehicleState, attested}
use a2g_cli.Vehicle.Attest.{
  Attested, good, AttestationError, stale_nonce, stale, ensure, ◌>>◌, millisecond, is_fresh,
  payload_hash, check_age, sign_attested, verify_attested,
}

module _ (p : Platform) (state_json : VehicleState → Text) (key : Bytes) (sg : Signs p key)
    (s : VehicleState) (nonce : Text) (signed now : Time) (freshness_ms : ℕ) where
  abbrev pub checked : Option Text → Attested VerifiedVehicleState
  checked expected =
      verify_attested p state_json (sign_attested p state_json s key nonce signed)
        (p.hex_encode (p.public_key key)) now freshness_ms expected

  abbrev pub passed : Attested VerifiedVehicleState
  passed = good (record { state = s; trust_basis = attested })

  abbrev message : Bytes
  message =
      payload_hash p state_json s (p.hex_encode (p.public_key key)) nonce (p.to_rfc3339 signed)

  -- Only the freshness is left to check.
  checked-check_age :
      (expected : Option Text)
      → checked expected ≡ (
          check_age p state_json freshness_ms now expected
            (sign_attested p state_json s key nonce signed)
          >> passed)
  unfolding verify_attested sign_attested
  checked-check_age expected =
      rw
        (
          text_eq_refl (p.hex_encode (p.public_key key)),
          sg.decodes (p.public_key key),
          sg.key_length,
          sg.key_valid,
          sg.decodes (p.sign key message),
          sg.sign_length message,
          sg.verifies message,
        )
        refl

  ensure_iff : (b : Bool) (e : AttestationError) → ((ensure b e >> passed) ≡ passed) ↔ (b ≡ true)
  ensure_iff true e = (λ h. refl, λ h. refl)
  ensure_iff false e = (λ h. cc, λ h. cc)

  is_fresh_iff :
      (is_fresh freshness_ms signed now ≡ true)
      ↔ ((signed < now + millisecond) × (now < signed + millisecond * suc freshness_ms))
  unfolding is_fresh
  is_fresh_iff = (λ h. ground arith, λ h. ground arith)

  -- A state that was signed with a nonce is accepted under the signer's key against an expected
  -- nonce exactly if that is the nonce, and without one exactly if it was signed less than a
  -- millisecond after the moment of the check and less than a millisecond more than the limit
  -- before it. The time stamp is assumed to read back, and the key to sign.
  pub verify_attested-sign_attested :
      (expected : Text)
      → p.parse_time (p.to_rfc3339 signed) ≡ some signed
      → ((checked (some expected) ≡ passed) ↔ (nonce ≡ expected))
        × ((checked none ≡ passed)
            ↔ ((signed < now + millisecond) × (now < signed + millisecond * suc freshness_ms)))
  unfolding sign_attested
  verify_attested-sign_attested expected back = (
    rw (checked-check_age (some expected))
        (↔_trans (ensure_iff (text_eq nonce expected) stale_nonce) (text_eq_iff nonce expected)),
    rw (checked-check_age none, back)
        (↔_trans (ensure_iff (is_fresh freshness_ms signed now) stale) is_fresh_iff),
  )
