-- ===== src/Gateway/Served.antt =====
-- crates/a2g-gateway/src/server.rs, `handle_enforce`: what every enforced receipt has passed.
use a2g_cli.Gateway.Invert.{
  >>=-eq-pass, refuse_if-eq-pass, if-eq-pass, skip-eq-pass, choice-eq-pass, branch-eq-pass,
  option-eq-pass, result-eq-pass, attest-eq-pass,
}
use a2g_cli.Vehicle.Attest.{good, attestation_freshness_ms, verify_attested, AttestedVehicleState}
use a2g_cli.Gateway.Ingest.{current_state}
use a2g_cli.Vehicle.Classify.{classify_vehicle_tool}
use a2g_cli.Base.Text.{slice_to, Text, codes, text_eq}
use a2g_cli.Vehicle.Types.{VerifiedVehicleState, is_parked_and_stopped, is_sensitive_domain}
use a2g_cli.Mandate.Types.{Bytes}
use a2g_cli.Gateway.Pending.{
  record_nonce_with_ts, nonce_seen, remove, hwm_gate_ms, get_entry, PendingEntry,
}
use a2g_cli.Gateway.Check.{
  approved_or_refuse, requires_hitl_binding, is_cockpit_forbidden, is_forbidden, in_window,
  below_gate, refuse_forbidden, check_signature, check_nonce, check_freshness, check_decision,
  check_bus_state, check_binding, check_attestation, check_action,
}
use a2g_cli.Error.{ok}
use a2g_cli.Base.{
  ◌==◌, sym, ◌∙◌, length, ap, ◌≡◌, refl, arith, true, false, not, ◌&&◌, Option, none, some,
  is_empty, inl, inr, ◌⊎◌,
}
use a2g_cli.Gateway.Types.{
  pass_or_panic, expected_request_hash, canonical_bytes, GatewayReceipt, GatewayState, pass, Codec,
  Moment, refuse_if,
}
use a2g_cli.Platform.{Platform}

-- The receipt's signature verifies under the gateway's receipt key.
pub record IsSigned (p : Platform) (c : Codec) (s : GatewayState) (r : GatewayReceipt)
    : Type 0 where
  pub payload : Bytes
  pub sig : Bytes
  pub encodes : canonical_bytes p c r ≡ ok payload
  pub has_sig : p.hex_decode r.signature_hex ≡ some sig
  pub sig_length : length sig ≡ 64
  pub verifies : p.verify s.keys.receipt_verifying_key payload sig ≡ true

-- A receipt with a binding names an approved one, which is removed.
abbrev pub BindingSpent : GatewayReceipt → GatewayState → GatewayState → Type 0
BindingSpent r s s' =
    ((is_empty r.binding_id ≡ true) × (s ≡ s'))
    ⊎ ((is_empty r.binding_id ≡ false)
        × (e : PendingEntry) × (get_entry r.binding_id s.pending ≡ some e)
        × (e.approved ≡ true)
        × (s' ≡ record s { pending = remove r.binding_id s.pending }))

-- For a sensitive tool the bus says that the vehicle is parked and stopped or, where the bus is
-- silent, no reader is active.
abbrev pub StateFits : Moment → GatewayReceipt → GatewayState → Type 0
StateFits t r s =
    is_sensitive_domain (classify_vehicle_tool r.tool) ≡ true
    → ((current_state s.state_ingest t.instant).1 ≡ true
        → is_parked_and_stopped (current_state s.state_ingest t.instant).0 ≡ true)
      × ((current_state s.state_ingest t.instant).1 ≡ false → s.state_ingest.reader_active ≡ false)

-- A receipt that claims attested state carries one that the attester's key verifies.
abbrev pub IsAttested : Platform → Codec → Moment → GatewayReceipt → GatewayState → Type 0
IsAttested p c t r s =
    text_eq r.state_trust (codes "attested") ≡ true
    → (blob : Text) × (a : AttestedVehicleState) × (v : VerifiedVehicleState)
      × (r.attested_state_json ≡ some blob)
      × (c.parse_attested blob ≡ some a)
      × (verify_attested p c.state_json a (p.hex_encode s.keys.attester_verifying_key) t.now
            attestation_freshness_ms none
          ≡ good v)

approved_or_refuse-pass :
    (id : Text) (o : Option PendingEntry) (s : GatewayState) {u : Unit} {s' : GatewayState}
    → approved_or_refuse id o s ≡ (pass u, s')
    → (e : PendingEntry) × (o ≡ some e) × (e.approved ≡ true) × (s ≡ s')
approved_or_refuse-pass id none s h = cc
approved_or_refuse-pass id (some e) s h =
    let (a, same) = refuse_if-eq-pass (not e.approved) _ s h in (e, refl, ground arith, same)

module _ (r : GatewayReceipt) (s : GatewayState) {s' : GatewayState} where
  pub refuse_forbidden-pass :
      refuse_forbidden r s ≡ (pass tt, s')
      → (is_forbidden r.tool ≡ false) × (is_cockpit_forbidden r.tool ≡ false) × (s ≡ s')
  unfolding refuse_forbidden
  refuse_forbidden-pass h =
      let (u, s1, h1, h2) = >>=-eq-pass (refuse_if (is_forbidden r.tool) _) _ s h in
      let (a, e1) = refuse_if-eq-pass (is_forbidden r.tool) _ s h1 in
      let (b, e2) = refuse_if-eq-pass (is_cockpit_forbidden r.tool) _ s1 h2 in (a, b, e1 ∙ e2)

  pub check_decision-pass :
      check_decision r s ≡ (pass tt, s')
      → (text_eq r.decision (codes "ALLOW") ≡ true)
        × ((requires_hitl_binding r.tool && is_empty r.binding_id) ≡ false)
        × (s ≡ s')
  unfolding check_decision
  check_decision-pass h =
      let (u, s1, h1, h2) =
        >>=-eq-pass (refuse_if (not (text_eq r.decision (codes "ALLOW"))) _) _ s h in
      let (a, e1) = refuse_if-eq-pass (not (text_eq r.decision (codes "ALLOW"))) _ s h1 in
      let (b, e2) =
        refuse_if-eq-pass (requires_hitl_binding r.tool && is_empty r.binding_id) _ s1 h2 in
      (ground arith, b, e1 ∙ e2)

  pub check_freshness-pass :
      (t : Moment)
      → check_freshness t r s ≡ (pass tt, s')
      → (in_window t.now_ms r.issued_at_ms ≡ true) × (s ≡ s')
  unfolding check_freshness
  check_freshness-pass t h =
      let (a, e1) = refuse_if-eq-pass (not (in_window t.now_ms r.issued_at_ms)) _ s h in
      (ground arith, e1)

  pub check_nonce-pass :
      check_nonce r s ≡ (pass tt, s')
      → (below_gate (hwm_gate_ms s.pending) r.issued_at_ms ≡ false)
        × (nonce_seen r.nonce_hex s.pending ≡ false)
        × (s' ≡ record s { pending = record_nonce_with_ts r.nonce_hex r.issued_at_ms s.pending })
  unfolding check_nonce
  check_nonce-pass h =
      let (a, h1) = if-eq-pass (below_gate (hwm_gate_ms s.pending) r.issued_at_ms) _ s _ h in
      let (b, h2) = if-eq-pass (nonce_seen r.nonce_hex s.pending) _ s _ h1 in
      (a, b, ap (λ q. q.1) (sym h2))

  pub check_action-pass :
      (p : Platform) (c : Codec)
      → check_action p c r s ≡ (pass tt, s')
      → (text_eq r.request_hash (expected_request_hash p c r) ≡ true) × (s ≡ s')
  unfolding check_action
  check_action-pass p c h =
      elim (choice-eq-pass (text_eq r.request_hash (expected_request_hash p c r)) _ _ s h) [
        | inl (e, h1) ↦ (e, ap (λ q. q.1) h1)
        | inr (e, h1) ↦
            let (got, s1, _, h2) = >>=-eq-pass (pass_or_panic (slice_to 8 r.request_hash)) _ s h1 in
            let (expected, s2, _, h3) =
              >>=-eq-pass (pass_or_panic (slice_to 8 (expected_request_hash p c r))) _ s1 h2 in
            let (absurd, _) = refuse_if-eq-pass true _ s2 h3 in cc
      ]

  pub check_signature-pass :
      (p : Platform) (c : Codec)
      → check_signature p c r s ≡ (pass tt, s')
      → IsSigned p c s r × (s ≡ s')
  unfolding check_signature
  check_signature-pass p c h =
      let (payload, e, h1) = result-eq-pass (canonical_bytes p c r) _ s _ h in
      let (sig, e2, h2) = option-eq-pass (p.hex_decode r.signature_hex) _ s _ h1 in
      let (l, h3) = if-eq-pass (not (length sig == 64)) _ s _ h2 in
      let (v, same) =
        refuse_if-eq-pass (not (p.verify s.keys.receipt_verifying_key payload sig)) _ s h3 in
      (
        record {
          payload = payload;
          sig = sig;
          encodes = e;
          has_sig = e2;
          sig_length = ground arith;
          verifies = ground arith;
        },
        same,
      )

  pub check_binding-pass : check_binding r s ≡ (pass tt, s') → BindingSpent r s s'
  unfolding check_binding
  check_binding-pass h = elim (skip-eq-pass (is_empty r.binding_id) s _ h) [
    | inl x ↦ inl x
    | inr (ne, h1) ↦
        let (u, s1, h2, h3) =
          >>=-eq-pass (approved_or_refuse r.binding_id (get_entry r.binding_id s.pending)) _ s h1 in
        let (e, found, granted, same) =
          approved_or_refuse-pass r.binding_id (get_entry r.binding_id s.pending) s h2 in
        inr (ne, e, found, granted, rw same (ap (λ q. q.1) (sym h3)))
  ]

  pub check_bus_state-pass :
      (t : Moment) → check_bus_state t r s ≡ (pass tt, s') → StateFits t r s × (s ≡ s')
  unfolding check_bus_state
  check_bus_state-pass t h =
      elim (skip-eq-pass (not (is_sensitive_domain (classify_vehicle_tool r.tool))) s _ h) [
        | inl (e, same) ↦ ((λ k. cc), same)
        | inr (e, h1) ↦ elim (branch-eq-pass (current_state s.state_ingest t.instant).1 _ _ h1) [
          | inl (f, h2) ↦
              let (a, same) =
                refuse_if-eq-pass
                  (not (is_parked_and_stopped (current_state s.state_ingest t.instant).0)) _ s h2 in
              ((λ k. ((λ _. ground arith), (λ n. cc))), same)
          | inr (f, h2) ↦
              let (a, same) = refuse_if-eq-pass s.state_ingest.reader_active _ s h2 in
              ((λ k. ((λ n. cc), (λ _. a))), same)
        ]
      ]

  pub check_attestation-pass :
      (p : Platform) (c : Codec) (t : Moment)
      → check_attestation p c t r s ≡ (pass tt, s')
      → IsAttested p c t r s × (s ≡ s')
  unfolding check_attestation
  check_attestation-pass p c t h =
      elim (skip-eq-pass (not (text_eq r.state_trust (codes "attested"))) s _ h) [
        | inl (e, same) ↦ ((λ k. cc), same)
        | inr (e, h1) ↦
            let (blob, e1, h2) = option-eq-pass r.attested_state_json _ s _ h1 in
            let (a, e2, h3) = option-eq-pass (c.parse_attested blob) _ s _ h2 in
            let (v, e3, same) =
              attest-eq-pass
                (verify_attested p c.state_json a (p.hex_encode s.keys.attester_verifying_key) t.now
                  attestation_freshness_ms none)
                _ s h3 in
            ((λ k. (blob, a, v, e1, e2, e3)), same)
      ]
