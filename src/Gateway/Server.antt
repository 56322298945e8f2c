-- ===== src/Gateway/Server.antt =====
-- crates/a2g-gateway/src/server.rs: the handlers of the gateway's requests.
use a2g_cli.Base.{none, some, List, [], ◌∷◌, if◌then◌else◌}
use a2g_cli.Base.Text.{Text, text_eq, slice_to}
use a2g_cli.Error.{format, say, text, failure, end, ok, err}
use a2g_cli.Platform.{Platform}
use a2g_cli.Hitl.Types.{ApprovalGrant}
use a2g_cli.Hitl.Grant.{verify_against_binding}
use a2g_cli.Hitl.Binding.{sign_binding}
use a2g_cli.Gateway.Pending.{insert_binding, expire, get_entry, approve}
use a2g_cli.Gateway.Types.{
  GatewayReceipt, GatewayRequest, sign_binding_request, submit_grant, enforce_request,
  get_public_keys, GatewayResponse, signed_binding, grant_accepted, enforced, public_keys, error,
  Codec, Moment, GatewayState, pass, refuse, panic, Action, ◌>>=◌, ◌>>◌, pure,
}
use a2g_cli.Gateway.Bus.{write_enforcement_frame}
use a2g_cli.Gateway.Check.{
  refuse_forbidden, check_signature, check_decision, check_freshness, check_nonce, check_action,
  check_binding, check_attestation, check_bus_state,
}

module _ (p : Platform) (c : Codec) (t : Moment) where
  -- All the checks of `handle_enforce`, in order.
  unfoldable pub check_receipt : GatewayReceipt → Action Unit
  check_receipt r = do
    refuse_forbidden r
    check_signature p c r
    check_decision r
    check_freshness t r
    check_nonce r
    check_action p c r
    check_binding r
    check_attestation p c t r
    check_bus_state t r

  unfoldable pub handle_enforce : GatewayReceipt → Action GatewayResponse
  unfolding check_receipt
  handle_enforce r = do
    check_receipt r
    (frame_hex, real_write) ← write_enforcement_frame p t r.verdict_id r.tool
    pure (enforced r.verdict_id frame_hex real_write)

  unfoldable pub handle_sign_binding : Text → Action GatewayResponse
  handle_sign_binding binding_json s = elim (c.parse_binding binding_json) [
    | none ↦ (pass (error (say "invalid binding JSON: {e}")), s)
    | some b ↦ elim (sign_binding p b s.keys.binding_signing_key) [
      | err e ↦ (pass (error (format "binding encoding error: {}" (failure e end))), s)
      | ok signed ↦ elim (c.print_signed signed) [
        | none ↦ (pass (error (say "serialization error: {e}")), s)
        | some json ↦ (
          pass (signed_binding json),
          record s { pending = insert_binding json b (expire t.now s.pending) },
        )
      ]
    ]
  ]

  -- The part of `handle_submit_grant` behind the check of the approver's key.
  unfoldable pub accept_grant : ApprovalGrant → Action GatewayResponse
  accept_grant g s =
      let q = expire t.now s.pending in
      elim (get_entry g.binding_id q) [
        | none ↦ (
          refuse (format "no pending binding for id {}" (text g.binding_id end)),
          record s { pending = q },
        )
        | some e ↦ elim (verify_against_binding p g e.binding t.now) [
          | err x ↦ (
            refuse (format "grant verification failed: {}" (failure x end)),
            record s { pending = q },
          )
          | ok u ↦ (
            pass (grant_accepted g.binding_id),
            record s { pending = (approve g.binding_id g q).0 },
          )
        ]
      ]

  -- The log line of a foreign key slices the first eight bytes of the key's text.
  unfoldable pub handle_submit_grant : Text → Action GatewayResponse
  unfolding accept_grant
  handle_submit_grant grant_json s = elim (c.parse_grant grant_json) [
    | none ↦ (pass (error (say "invalid grant JSON: {e}")), s)
    | some g ↦
        if text_eq g.approver_pubkey (p.hex_encode s.keys.operator_verifying_key)
        then accept_grant g s
        else elim (slice_to 8 g.approver_pubkey) [
          | none ↦ (panic, s)
          | some log ↦ (refuse (say "grant rejected: approver is not the authorized operator"), s)
        ]
  ]

  unfoldable pub handle_request : GatewayRequest → Action GatewayResponse
  unfolding handle_enforce handle_sign_binding handle_submit_grant
  handle_request (sign_binding_request json) = handle_sign_binding json
  handle_request (submit_grant json) = handle_submit_grant json
  handle_request (enforce_request r) = handle_enforce r
  handle_request get_public_keys = λ s. (
    pass (
        public_keys s.keys.receipt_verifying_key_hex s.keys.attester_verifying_key_hex
          s.keys.operator_verifying_key_hex
          (p.hex_encode (p.public_key s.keys.binding_signing_key))),
    s,
  )

-- A sequence of requests, each at its moment; the server serves them one at a time, and a panic
-- ends it.
unfoldable pub serve :
    Platform → Codec → List (Moment × GatewayRequest) → GatewayState → GatewayState
unfolding handle_request
serve p c [] s = s
serve p c ((t, req) ∷ rest) s =
    let (r, s') = handle_request p c t req s in
    let later = serve p c rest s' in elim r [ pass x ↦ later | refuse e ↦ later | panic ↦ s' ]
