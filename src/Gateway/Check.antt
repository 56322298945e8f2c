-- ===== src/Gateway/Check.antt =====
-- crates/a2g-gateway/src/forbidden.rs and the steps of `handle_enforce` in server.rs.
use a2g_cli.Base.{
  Bool, true, false, not, ◌&&◌, Option, none, some, ◌==◌, length, is_empty, if◌then◌else◌,
}
use a2g_cli.Base.Int.{ℤ, pos, negsuc, ◌-ℤ◌, leb_ℤ, ltb_ℤ}
use a2g_cli.Base.Text.{Text, codes, text_eq, slice_to}
use a2g_cli.Error.{format, say, text, number, signed, end, ok, err, failure}
use a2g_cli.Platform.{Platform}
use a2g_cli.Vehicle.Types.{is_forbidden_domain, is_sensitive_domain, is_parked_and_stopped}
use a2g_cli.Vehicle.Classify.{classify_vehicle_tool}
use a2g_cli.Vehicle.Attest.{good, bad, verify_attested, attestation_freshness_ms}
use a2g_cli.Cockpit.{classify_cockpit_tool, is_cockpit_forbidden_domain, always_hitl}
use a2g_cli.Gateway.Ingest.{current_state}
use a2g_cli.Gateway.Pending.{
  PendingEntry, get_entry, remove, nonce_seen, record_nonce_with_ts, hwm_gate_ms,
}
use a2g_cli.Gateway.Types.{
  GatewayReceipt, Codec, Moment, canonical_bytes, expected_request_hash, pass, refuse, Action,
  ◌>>=◌, ◌>>◌, pure, refuse_if, pass_or_panic,
}

-- forbidden.rs
unfoldable pub is_forbidden : Text → Bool
is_forbidden tool = is_forbidden_domain (classify_vehicle_tool tool)

unfoldable pub is_cockpit_forbidden : Text → Bool
is_cockpit_forbidden tool = is_cockpit_forbidden_domain (classify_cockpit_tool tool)

unfoldable pub requires_hitl_binding : Text → Bool
requires_hitl_binding tool = always_hitl (classify_cockpit_tool tool)

-- Steps 1 and 1.5.
unfoldable pub refuse_forbidden : GatewayReceipt → Action Unit
refuse_forbidden r = do
  refuse_if (is_forbidden r.tool) (
      format
        "gateway_forbidden_domain: '{}' is in the safety-critical domain and is unconditionally refused regardless of receipt validity"
        (text r.tool end))
  refuse_if (is_cockpit_forbidden r.tool) (
      format
        "gateway_cockpit_forbidden: '{}' is structurally forbidden (ADR-0018) and is unconditionally refused regardless of receipt validity"
        (text r.tool end))

-- Step 2.
unfoldable pub check_signature : Platform → Codec → GatewayReceipt → Action Unit
check_signature p c r s = elim (canonical_bytes p c r) [
  | err e ↦ (refuse (format "receipt encoding error: {}" (failure e end)), s)
  | ok payload ↦ elim (p.hex_decode r.signature_hex) [
    | none ↦ (refuse (say "receipt signature is not valid 64-byte hex"), s)
    | some sig ↦
        if not (length sig == 64)
        then (refuse (say "receipt signature is not valid 64-byte hex"), s)
        else refuse_if (not (p.verify s.keys.receipt_verifying_key payload sig))
            (say "receipt signature verification failed") s
  ]
]

-- Steps 3 and 3.5.
unfoldable pub check_decision : GatewayReceipt → Action Unit
check_decision r = do
  refuse_if (not (text_eq r.decision (codes "ALLOW")))
      (format "receipt decision is '{}'; only ALLOW is enforced" (text r.decision end))
  refuse_if (requires_hitl_binding r.tool && is_empty r.binding_id) (
      format
        "cockpit_hitl_binding_required: '{}' is an always-HITL cockpit tool; ALLOW receipts require a Phase 2 binding (non-empty binding_id)"
        (text r.tool end))

-- Step 4: within 2000 ms of the clock on either side. The difference of the two `i64` is taken
-- exact; where it does not fit, the source panics or wraps far out of the window.
unfoldable pub in_window : ℤ → ℤ → Bool
in_window now_ms issued_at_ms =
    leb_ℤ (negsuc 1999) (now_ms -ℤ issued_at_ms) && leb_ℤ (now_ms -ℤ issued_at_ms) (pos 2000)

unfoldable pub check_freshness : Moment → GatewayReceipt → Action Unit
check_freshness t r = refuse_if (not (in_window t.now_ms r.issued_at_ms)) (
    format "receipt is stale or future-dated: age {}ms, window ±{}ms"
      (signed (t.now_ms -ℤ r.issued_at_ms) (number 2000 end)))

abbrev pub below_gate : Option ℤ → ℤ → Bool
below_gate none issued_at_ms = false
below_gate (some hwm) issued_at_ms = ltb_ℤ issued_at_ms hwm

-- Step 5.
unfoldable pub check_nonce : GatewayReceipt → Action Unit
check_nonce r s =
    if below_gate (hwm_gate_ms s.pending) r.issued_at_ms
    then (
      refuse (
          format
            "receipt timestamp ({}) is below the persisted nonce high-water mark ({}); post-restart replay attempt rejected"
            (signed r.issued_at_ms (signed s.pending.nonce_hwm_ms end))),
      s,
    )
    else if nonce_seen r.nonce_hex s.pending
    then (refuse (say "receipt nonce has been seen before (replay attempt)"), s)
    else (pass tt, record s { pending = record_nonce_with_ts r.nonce_hex r.issued_at_ms s.pending })

-- Step 6: the message takes the first eight bytes of both hashes.
unfoldable pub check_action : Platform → Codec → GatewayReceipt → Action Unit
check_action p c r = if text_eq r.request_hash (expected_request_hash p c r) then pure tt else do
  got ← pass_or_panic (slice_to 8 r.request_hash)
  expected ← pass_or_panic (slice_to 8 (expected_request_hash p c r))
  refuse_if true (format "request_hash mismatch: got {} expected {}" (text got (text expected end)))

abbrev pub approved_or_refuse : Text → Option PendingEntry → Action Unit
approved_or_refuse id none s =
    (refuse (format "no pending binding for id {} (expired or unknown)" (text id end)), s)
approved_or_refuse id (some e) s =
    refuse_if (not e.approved)
      (format "binding {} has not been approved by the operator" (text id end)) s

-- Step 7: an approved binding is consumed.
unfoldable pub check_binding : GatewayReceipt → Action Unit
check_binding r s =
    if is_empty r.binding_id
    then (pass tt, s)
    else (do
      approved_or_refuse r.binding_id (get_entry r.binding_id s.pending)
      λ s'. (pass tt, record s' { pending = remove r.binding_id s'.pending }))
        s

-- The check of a receipt that claims attested state.
unfoldable pub check_attestation : Platform → Codec → Moment → GatewayReceipt → Action Unit
check_attestation p c t r s =
    if not (text_eq r.state_trust (codes "attested"))
    then (pass tt, s)
    else elim r.attested_state_json [
      | none ↦ (
        refuse
            (say "receipt claims state_trust='attested' but no attested_state_json was provided"),
        s,
      )
      | some blob ↦ elim (c.parse_attested blob) [
        | none ↦ (refuse (say "attested_state_json parse error: {e}"), s)
        | some a ↦
            elim (verify_attested p c.state_json a (p.hex_encode s.keys.attester_verifying_key)
              t.now attestation_freshness_ms none) [
                | good v ↦ (pass tt, s)
                | bad e ↦ (
                  refuse (
                      say
                        "vehicle state attestation failed: {e}; receipt claims 'attested' state_trust but gateway could not verify"),
                  s,
                )
              ]
      ]
    ]

-- The gate of Sensitive tools on the state that the gateway ingested itself.
unfoldable pub check_bus_state : Moment → GatewayReceipt → Action Unit
check_bus_state t r s =
    if not (is_sensitive_domain (classify_vehicle_tool r.tool))
    then (pass tt, s)
    else let (state, fresh) = current_state s.state_ingest t.instant in
      if fresh
      then refuse_if (not (is_parked_and_stopped state))
          (say
            "state_authority_mismatch: gateway CAN state shows vehicle is not parked and stopped; Sensitive tool refused")
          s
      else refuse_if s.state_ingest.reader_active
          (say
            "state_authority_mismatch: --state-ingest reader is active but CAN frames are stale (no valid frame within the freshness window); Sensitive enforcement refused fail-closed (SPEC §6.6)")
          s
