-- ===== src/Hitl/Grant.antt =====
-- crates/a2g-core/src/hitl.rs: making an approval grant, and checking it against its binding.
use a2g_cli.Base.{ℕ, ◌==◌, length, ltb, unwrap_or}
use a2g_cli.Base.Text.{Text, codes, text_eq}
use a2g_cli.Error.{
  hex_decode_error, invalid_key, signature_invalid, cbor_encode, grant_expired, binding_mismatch,
  Result, ok, ◌>>=◌, ◌>>◌, ensure, ok_or,
}
use a2g_cli.Platform.{Platform, Time}
use a2g_cli.Mandate.Types.{Bytes}
use a2g_cli.Hitl.Types.{PendingApprovalBinding, ApprovalGrant}

module _ (p : Platform) where
  -- `ApprovalGrant::payload_bytes`
  unfoldable pub grant_payload_bytes : Text → Text → Text → Result Bytes
  grant_payload_bytes binding_id request_hash expires_at = do
    hash ← ok_or (p.hex_decode request_hash) hex_decode_error
    ok_or
        (p.encode_grant (record {
          tag = codes "APPROVAL";
          binding_id = binding_id;
          request_hash = hash;
          expires_at = expires_at;
        }))
        cbor_encode

  -- `ApprovalGrant::new_signed`, for a lifetime that `Duration::seconds` accepts.
  unfoldable pub new_signed : Text → Text → Text → Bytes → ℕ → Time → Text → Result ApprovalGrant
  unfolding grant_payload_bytes
  new_signed binding_id request_hash approver_did key ttl_seconds now parent = do
    let expires_at = p.to_rfc3339 (unwrap_or (p.checked_add_secs now ttl_seconds) now)
    payload ← grant_payload_bytes binding_id request_hash expires_at
    ok (record {
      binding_id = binding_id;
      request_hash = request_hash;
      approver_did = approver_did;
      approver_pubkey = p.hex_encode (p.public_key key);
      signature = p.hex_encode (p.sign key payload);
      expires_at = expires_at;
      parent_receipt_hash = parent;
    })

  -- `ApprovalGrant::verify_against_binding`
  unfoldable pub verify_against_binding :
      ApprovalGrant → PendingApprovalBinding → Time → Result (Unit {0})
  unfolding grant_payload_bytes
  verify_against_binding g pending now = do
    ensure (text_eq g.binding_id pending.binding_id) (binding_mismatch "binding_id")
    ensure (text_eq g.request_hash pending.request_hash) (binding_mismatch "request_hash")
    expires ← ok_or (p.parse_time g.expires_at) grant_expired
    ensure (ltb now expires) grant_expired
    key ← ok_or (p.hex_decode g.approver_pubkey) hex_decode_error
    ensure (length key == 32) invalid_key
    ensure (p.is_verifying_key key) invalid_key
    sig ← ok_or (p.hex_decode g.signature) hex_decode_error
    ensure (length sig == 64) signature_invalid
    payload ← grant_payload_bytes g.binding_id g.request_hash g.expires_at
    ensure (p.verify key payload sig) signature_invalid
