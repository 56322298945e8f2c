-- ===== src/Vehicle/Attest.antt =====
-- crates/a2g-core/src/vehicle.rs: the attested vehicle state and its verification.
use a2g_cli.Base.{ℕ, ◌-◌, ◌/◌, Bool, Option, none, some, ◌++◌, ◌==◌, length, leb, if◌then◌else◌}
use a2g_cli.Base.Text.{Text, codes, text_eq}
use a2g_cli.Platform.{Platform, Time}
use a2g_cli.Mandate.Types.{Bytes}
use a2g_cli.Vehicle.Types.{VehicleState, VerifiedVehicleState, attested}

abbrev pub attestation_freshness_ms : ℕ
attestation_freshness_ms = 500

pub data AttestationError : Type 0 where
  bad_signature invalid_pubkey stale_nonce stale : AttestationError

pub record AttestedVehicleState : Type 0 where
  pub state : VehicleState
  pub attester_pubkey : Text
  pub nonce : Text
  pub attested_at : Text
  pub signature : Text

pub data Attested {ℓ} (A : Type ℓ) : Type ℓ where
  good : A → Attested A
  bad : AttestationError → Attested A

infixl 5 ◌>>=◌ ◌>>◌
abbrev pub ◌>>=◌ {ℓ κ} : {A : Type ℓ} {B : Type κ} → Attested A → (A → Attested B) → Attested B
good a >>= f = f a
bad e >>= f = bad e

abbrev pub ◌>>◌ {ℓ} : {B : Type ℓ} → Attested (Unit {0}) → Attested B → Attested B
m >> k = m >>= λ _. k

abbrev pub ensure : Bool → AttestationError → Attested (Unit {0})
ensure b e = if b then good tt else bad e

abbrev pub ok_or : {A : Type 0} → Option A → AttestationError → Attested A
ok_or none e = bad e
ok_or (some a) e = good a

abbrev pub millisecond : ℕ
millisecond = 1000000

-- `(0..=freshness_ms).contains(&age_ms)`, where the age is `num_milliseconds` of a signed
-- difference and so is 0 for less than a millisecond into the future.
unfoldable pub is_fresh : ℕ → Time → Time → Bool
is_fresh freshness_ms attested_at now =
    if leb attested_at now
    then leb ((now - attested_at) / millisecond) freshness_ms
    else (attested_at - now) / millisecond == 0

-- The JSON of a state is serde's.
module _ (p : Platform) (state_json : VehicleState → Text) where
  unfoldable pub payload_hash : VehicleState → Text → Text → Text → Bytes
  payload_hash s pubkey nonce attested_at = p.sha256 (
      p.utf8 (
        codes "VEHICLE_STATE:"
        ++ (state_json s
            ++ (codes ":" ++ (pubkey ++ (codes ":" ++ (nonce ++ (codes ":" ++ attested_at))))))))

  -- `AttestedVehicleState::sign`
  unfoldable pub sign_attested : VehicleState → Bytes → Text → Time → AttestedVehicleState
  sign_attested s key nonce now = record {
    state = s;
    attester_pubkey = p.hex_encode (p.public_key key);
    nonce = nonce;
    attested_at = p.to_rfc3339 now;
    signature =
        p.hex_encode
          (p.sign key (payload_hash s (p.hex_encode (p.public_key key)) nonce (p.to_rfc3339 now)));
  }

  abbrev pub check_age : ℕ → Time → Option Text → AttestedVehicleState → Attested (Unit {0})
  check_age freshness_ms now (some nonce) a = ensure (text_eq a.nonce nonce) stale_nonce
  check_age freshness_ms now none a = do
    at ← ok_or (p.parse_time a.attested_at) stale
    ensure (is_fresh freshness_ms at now) stale

  -- `AttestedVehicleState::verify`
  unfoldable pub verify_attested :
      AttestedVehicleState → Text → Time → ℕ → Option Text → Attested VerifiedVehicleState
  verify_attested a expected_pubkey now freshness_ms expected_nonce = do
    ensure (text_eq a.attester_pubkey expected_pubkey) bad_signature
    key ← ok_or (p.hex_decode a.attester_pubkey) invalid_pubkey
    ensure (length key == 32) invalid_pubkey
    ensure (p.is_verifying_key key) invalid_pubkey
    sig ← ok_or (p.hex_decode a.signature) bad_signature
    ensure (length sig == 64) bad_signature
    ensure (p.verify key (payload_hash a.state a.attester_pubkey a.nonce a.attested_at) sig)
        bad_signature
    check_age freshness_ms now expected_nonce a
    good (record { state = a.state; trust_basis = attested })
