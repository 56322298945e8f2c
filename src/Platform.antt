-- ===== src/Platform.antt =====
-- What the program takes from other packages: sha2, hex, bs58, ed25519-dalek, chrono and minicbor.
-- An instant counts nanoseconds from the first that `chrono` represents.
use a2g_cli.Base.{ℕ, Bool, Option}
use a2g_cli.Base.Text.{Text}
use a2g_cli.Mandate.Types.{Bytes, CborMandate, MandateTbs}

abbrev pub Time : Type 0
Time = ℕ

-- cbor.rs: `BindingPayload`
pub record BindingPayload : Type 0 where
  pub tag : Text
  pub binding_id : Text
  pub request_hash : Bytes
  pub escalate_to : Text
  pub ttl_unix_secs : ℕ

-- cbor.rs: `GrantPayload`
pub record GrantPayload : Type 0 where
  pub tag : Text
  pub binding_id : Text
  pub request_hash : Bytes
  pub expires_at : Text

pub record Platform : Type 0 where
  pub utf8 : Text → Bytes
  pub sha256 : Bytes → Bytes
  pub hex_encode : Bytes → Text
  pub hex_decode : Text → Option Bytes
  pub bs58_encode : Bytes → Text
  -- `VerifyingKey::from_bytes` accepts the 32 bytes.
  pub is_verifying_key : Bytes → Bool
  -- key, message, signature
  pub verify : Bytes → Bytes → Bytes → Bool
  -- signing key, message
  pub sign : Bytes → Bytes → Bytes
  pub public_key : Bytes → Bytes
  pub parse_time : Text → Option Time
  pub to_rfc3339 : Time → Text
  pub format_hm : Time → Text
  pub hour : Time → ℕ
  pub minute : Time → ℕ
  -- `timestamp()`: whole seconds, counted here from the origin of `Time`.
  pub unix_secs : Time → ℕ
  pub checked_add_secs : Time → ℕ → Option Time
  pub decode_envelope : Bytes → Option CborMandate
  pub decode_tbs : Bytes → Option MandateTbs
  pub encode_binding : BindingPayload → Option Bytes
  pub encode_grant : GrantPayload → Option Bytes
