-- ===== src/Cli/Compile.antt =====
-- crates/a2g-cli/src/mandate_compile.rs: compiling a mandate to its signed envelope.
use Prim.Native.Nat.{min}
use a2g_cli.Base.{ℕ, ◌^◌, ◌-◌, ◌==◌, length, Option, some, unwrap_or}
use a2g_cli.Base.Text.{Text, codes, trim}
use a2g_cli.Error.{
  or_panic, and_then, hex_decode_error, cbor_encode, internal, format, number, end, Result, ok,
  ◌>>=◌, ◌>>◌, ensure, ok_or,
}
use a2g_cli.Platform.{Platform, Time}
use a2g_cli.Mandate.Types.{Bytes, MandateTbs, CborMandate, Mandate}
use a2g_cli.Mandate.Verify.{did_of_key, digest_hex, capabilities_hash}

module _ (p : Platform) where
  unfoldable pub signing_secret : Text → Result Bytes
  signing_secret key_hex = do
    key ← ok_or (p.hex_decode (trim key_hex)) hex_decode_error
    ensure (length key == 32)
        (internal (format "signing key must be 32 bytes, got {}" (number (length key) end)))
    ok key

  unfoldable pub mandate_tbs :
      (now : Time) (secs : ℕ) (secret caps : Bytes) (proposal_hash : Text) → Mandate → MandateTbs
  mandate_tbs now secs secret caps proposal_hash m = record {
    tag = codes "MANDATE";
    agent_did = m.mandate.agent_did;
    issuer_did = did_of_key p (p.public_key secret);
    agent_name = m.mandate.agent_name;
    issued_at = p.to_rfc3339 now;
    expires_at = p.to_rfc3339 (unwrap_or (p.checked_add_secs now secs) now);
    proposal_hash = proposal_hash;
    workspace_root = m.mandate.workspace_root;
    capabilities_hash = caps;
    tools = m.capabilities.tools;
    fs_read = m.boundaries.fs_read;
    fs_write = m.boundaries.fs_write;
    fs_deny = m.boundaries.fs_deny;
    net_allow = m.boundaries.net_allow;
    net_deny = m.boundaries.net_deny;
    cmd_allow = m.boundaries.cmd_allow;
    cmd_deny = m.boundaries.cmd_deny;
    max_calls_per_minute = m.limits.max_calls_per_minute;
    max_file_size_bytes = m.limits.max_file_size_bytes;
    max_output_tokens = m.limits.max_output_tokens;
    max_session_duration_sec = m.limits.max_session_duration_sec;
    deny_patterns = m.output_governance.deny_patterns;
    redact_patterns = m.output_governance.redact_patterns;
    max_output_length = m.output_governance.max_output_length;
    region = m.jurisdiction.region;
    regulatory_framework = m.jurisdiction.regulatory_framework;
    environment = m.jurisdiction.environment;
    classification = m.jurisdiction.classification;
    operating_hours = m.jurisdiction.operating_hours;
    escalate_tools = m.escalation.escalate_tools;
    escalate_paths = m.escalation.escalate_paths;
    escalate_hosts = m.escalation.escalate_hosts;
    escalate_to = m.escalation.escalate_to;
  }

  abbrev pub signed_envelope : (secret tbs_bytes : Bytes) → CborMandate
  signed_envelope secret tbs_bytes = record {
    tag = codes "MANDATE-V1";
    tbs = tbs_bytes;
    signature = p.sign secret tbs_bytes;
    issuer_pubkey = p.public_key secret;
  }

-- The two encoders are `encode_canonical`, which minicbor does.
module _ (p : Platform) (encode_tbs : MandateTbs → Option Bytes)
    (encode_envelope : CborMandate → Option Bytes) where
  -- `compile_mandate` from the time stamps on.
  unfoldable pub compile_for :
      (now : Time) (secs : ℕ) (secret : Bytes) (proposal_hash : Text) → Mandate → Result Bytes
  unfolding mandate_tbs capabilities_hash
  compile_for now secs secret proposal_hash m = do
    caps ← ok_or (p.hex_decode (capabilities_hash p m.capabilities.tools)) hex_decode_error
    bytes ← ok_or (encode_tbs (mandate_tbs p now secs secret caps proposal_hash m)) cbor_encode
    ok_or (encode_envelope (signed_envelope p secret bytes)) cbor_encode

  -- `compile_mandate`. `hours` is `chrono::Duration::hours` in seconds, and `none` its panic.
  unfoldable pub compile_mandate :
      (hours : ℕ → Option ℕ) (now : Time)
      → Mandate
      → (key_hex : Text) (ttl_hours : ℕ) (proposal_hash : Text) → Option (Result Bytes)
  unfolding signing_secret compile_for
  compile_mandate hours now m key_hex ttl_hours proposal_hash =
      and_then (some (signing_secret p key_hex)) (λ secret.
        or_panic (hours (min ttl_hours (2 ^ 63 - 1)))
          (λ secs. some (compile_for now secs secret proposal_hash m)))

-- `mandate_body_hash`
abbrev pub mandate_body_hash : Platform → Text → Text
mandate_body_hash p toml = digest_hex p (p.utf8 toml)
