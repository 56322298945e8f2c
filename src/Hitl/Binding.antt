-- ===== src/Hitl/Binding.antt =====
-- crates/a2g-core/src/hitl.rs: the gateway's signature on a pending binding.
use a2g_cli.Base.{◌==◌, length}
use a2g_cli.Base.Text.{codes}
use a2g_cli.Error.{
  hex_decode_error, signature_invalid, cbor_encode, Result, ok, ◌>>=◌, ◌>>◌, ensure, ok_or,
}
use a2g_cli.Platform.{Platform}
use a2g_cli.Mandate.Types.{Bytes}
use a2g_cli.Hitl.Types.{PendingApprovalBinding, SignedBinding}

module _ (p : Platform) where
  -- `SignedBinding::payload_bytes`
  unfoldable pub binding_payload_bytes : PendingApprovalBinding → Result Bytes
  binding_payload_bytes b = do
    hash ← ok_or (p.hex_decode b.request_hash) hex_decode_error
    ok_or
        (p.encode_binding (record {
          tag = codes "BINDING";
          binding_id = b.binding_id;
          request_hash = hash;
          escalate_to = b.escalate_to;
          ttl_unix_secs = p.unix_secs b.ttl_expires_at;
        }))
        cbor_encode

  -- `SignedBinding::sign`
  unfoldable pub sign_binding : PendingApprovalBinding → Bytes → Result SignedBinding
  unfolding binding_payload_bytes
  sign_binding b key = do
    payload ← binding_payload_bytes b
    ok (record { binding = b; a2g_mac = p.hex_encode (p.sign key payload) })

  -- `SignedBinding::verify`
  unfoldable pub verify_binding : SignedBinding → Bytes → Result PendingApprovalBinding
  unfolding binding_payload_bytes
  verify_binding s key = do
    payload ← binding_payload_bytes s.binding
    sig ← ok_or (p.hex_decode s.a2g_mac) hex_decode_error
    ensure (length sig == 64) signature_invalid
    ensure (p.verify key payload sig) signature_invalid
    ok s.binding
