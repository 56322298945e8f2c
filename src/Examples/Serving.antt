-- ===== src/Examples/Serving.antt =====
-- The theorems on the gateway, applied to a concrete receipt, queue and frames.
use a2g_cli.Gateway.Window.{nonce_seen-record_nonces, last_n, record_nonces}
use a2g_cli.Vehicle.Table.{
  telemetry_properties, sensitive_properties, forbidden_properties, comfort_properties,
  vhal_properties,
}
use a2g_cli.Vehicle.Classify.{classify_from, classify_vhal_property, classify_vehicle_tool}
use a2g_cli.Cockpit.{non_cockpit, classify_cockpit_tool}
use a2g_cli.Base.{Adds, List, ◌≡◌, refl, arith, false, none, some, [], ◌∷◌, ◌++◌, replicate}
use a2g_cli.Base.Int.{◌-ℤ◌, pos}
use a2g_cli.Base.Text.{list_contains, codes, text_eq, starts_with}
use a2g_cli.Vehicle.Types.{non_vehicle, park}
use a2g_cli.Gateway.Types.{
  GatewayRequest, enforce_request, get_public_keys, expected_request_hash, canonical_bytes, Codec,
  GatewayReceipt, GatewayState, GatewayResponse, Moment, pass, enforced, ◌>>=◌,
}
use a2g_cli.Gateway.Frames.{verify_speed_frame, encode_speed_frame, accepted}
use a2g_cli.Gateway.RoundTrip.{verify_speed_frame-encode_speed_frame}
use a2g_cli.Gateway.Pending.{
  nonce_ring_capacity, save_if_persistent, record_nonce, record_nonce_with_ts, nonce_seen,
  QueueSnapshot, hwm_gate_ms, push_nonce, new_queue,
}
use a2g_cli.Gateway.Ingest.{StateIngest, with_freshness_ms}
use a2g_cli.Gateway.Replay.{handle_enforce-once}
use a2g_cli.Gateway.Enforced.{handle_enforce-IsEnforceable, IsEnforceable, queue_after}
use a2g_cli.Gateway.Silent.{serve-IsJustified, IsJustified}
use a2g_cli.Gateway.Bus.{write_enforcement_frame, build_frame}
use a2g_cli.Gateway.Server.{serve, handle_enforce, check_receipt}
use a2g_cli.Gateway.Check.{
  refuse_forbidden, is_forbidden, is_cockpit_forbidden, requires_hitl_binding, check_signature,
  check_decision, check_freshness, in_window, check_nonce, check_action, check_binding,
  check_attestation, check_bus_state,
}
use a2g_cli.Examples.{platform, key}

abbrev pub codec : Codec
codec = record {
  parse_binding = λ t. none;
  parse_grant = λ t. none;
  parse_attested = λ t. none;
  print_signed = λ s. none;
  encode_receipt = λ r. some (r.verdict_id ++ r.tool);
  state_json = λ s. codes "{}";
  print_i64 = λ n. codes "1";
}

abbrev receipt : GatewayReceipt
receipt = record {
  verdict_id = codes "v1";
  decision = codes "ALLOW";
  tool = codes "play";
  params_json = codes "{}";
  policy_rule = codes "all_checks_passed";
  state_trust = codes "none";
  binding_id = [];
  request_hash = codes "play{}1";
  issued_at_ms = pos 100;
  nonce_hex = codes "n1";
  signature_hex = codes "v1play" ++ replicate 58 0;
  attested_state_json = none;
}

abbrev pub gateway : GatewayState
gateway = record {
  keys = record {
    receipt_verifying_key = key;
    attester_verifying_key = key;
    operator_verifying_key = key;
    binding_signing_key = key;
    receipt_verifying_key_hex = key;
    attester_verifying_key_hex = key;
    operator_verifying_key_hex = key;
  };
  pending = new_queue;
  state_ingest = with_freshness_ms 500;
  bus = [];
}

abbrev pub moment : Moment
moment = record { now = 5; now_ms = pos 150; instant = 5; bus_writable = false }

abbrev response : GatewayResponse
response = enforced (codes "v1") (build_frame platform (codes "v1") (codes "play")) false

-- The state that the receipt leaves.
abbrev served : GatewayState
served = record gateway {
  pending = record new_queue { nonce_ring = codes "n1" ∷ []; nonce_hwm_ms = pos 100 };
  bus = build_frame platform (codes "v1") (codes "play") ∷ [];
}

play-vehicle : classify_vehicle_tool (codes "play") ≡ non_vehicle
unfolding classify_vehicle_tool classify_vhal_property classify_from starts_with text_eq
    vhal_properties comfort_properties forbidden_properties sensitive_properties
    telemetry_properties
play-vehicle = refl

play-cockpit : classify_cockpit_tool (codes "play") ≡ non_cockpit
unfolding classify_cockpit_tool starts_with
play-cockpit = refl

forbidden_passed : refuse_forbidden receipt gateway ≡ (pass tt, gateway)
unfolding refuse_forbidden ◌>>=◌ is_forbidden is_cockpit_forbidden
forbidden_passed = rw (play-vehicle, play-cockpit) refl

signature_passed : check_signature platform codec receipt gateway ≡ (pass tt, gateway)
unfolding check_signature canonical_bytes text_eq
signature_passed = refl

decision_passed : check_decision receipt gateway ≡ (pass tt, gateway)
unfolding check_decision ◌>>=◌ requires_hitl_binding text_eq
decision_passed = rw play-cockpit refl

abbrev recorded : GatewayState
recorded = record gateway {
  pending = record new_queue { nonce_ring = codes "n1" ∷ []; nonce_hwm_ms = pos 100 };
}

nonce_passed : check_nonce receipt gateway ≡ (pass tt, recorded)
unfolding check_nonce hwm_gate_ms nonce_seen record_nonce_with_ts record_nonce push_nonce
    save_if_persistent new_queue
nonce_passed = refl

later_passed : check_freshness moment receipt gateway ≡ (pass tt, gateway)
unfolding check_freshness in_window ◌-ℤ◌
later_passed = refl

action_passed : check_action platform codec receipt recorded ≡ (pass tt, recorded)
unfolding check_action expected_request_hash text_eq
action_passed = refl

state_passed : check_bus_state moment receipt recorded ≡ (pass tt, recorded)
unfolding check_bus_state
state_passed = rw play-vehicle refl

receipt_passed : check_receipt platform codec moment receipt gateway ≡ (pass tt, recorded)
unfolding check_receipt ◌>>=◌ check_binding check_attestation text_eq
receipt_passed = rw forbidden_passed (
    rw signature_passed (
      rw decision_passed
        (rw later_passed (rw nonce_passed (rw action_passed (rw state_passed refl))))))

receipt_enforced : handle_enforce platform codec moment receipt gateway ≡ (pass response, served)
unfolding handle_enforce ◌>>=◌ write_enforcement_frame
receipt_enforced = rw receipt_passed refl

handle_enforce-IsEnforceable_example :
    IsEnforceable platform codec moment receipt gateway
    × (served ≡ record gateway {
      pending = queue_after receipt new_queue;
      bus = build_frame platform (codes "v1") (codes "play") ∷ [];
    })
handle_enforce-IsEnforceable_example =
    handle_enforce-IsEnforceable platform codec moment receipt gateway receipt_enforced

handle_enforce-once_example :
    ¬ (handle_enforce platform codec moment receipt served ≡ (pass response, served))
handle_enforce-once_example =
    handle_enforce-once platform codec moment moment receipt gateway receipt_enforced

verify_speed_frame-encode_speed_frame_example :
    verify_speed_frame (encode_speed_frame 1389 18) (some 2) ≡ accepted (1389, 3)
verify_speed_frame-encode_speed_frame_example =
    verify_speed_frame-encode_speed_frame 1389 18 (some 2) (omega arith) refl

abbrev snapshot : QueueSnapshot
snapshot = record { entries = []; nonce_hwm_ms = pos 100 }

abbrev parked : StateIngest
parked = record (with_freshness_ms 500) {
  speed_mmps = 0;
  gear = park;
  last_speed_at = some 3;
  last_gear_at = some 4;
}

abbrev requests : List (Moment × GatewayRequest)
requests = (moment, enforce_request receipt) ∷ (moment, get_public_keys) ∷ []

serve-IsJustified_example :
    Adds
      (IsJustified platform codec requests gateway)
      gateway.bus
      (serve platform codec requests gateway).bus
serve-IsJustified_example = serve-IsJustified platform codec requests gateway

new_ring : new_queue.nonce_ring ≡ []
unfolding new_queue
new_ring = refl

nonce_seen-record_nonces_example :
    nonce_seen
      (codes "n2")
      (record_nonces ((codes "n1", pos 100) ∷ (codes "n2", pos 90) ∷ []) new_queue)
    ≡ list_contains (last_n nonce_ring_capacity (codes "n1" ∷ codes "n2" ∷ [])) (codes "n2")
nonce_seen-record_nonces_example =
    nonce_seen-record_nonces ((codes "n1", pos 100) ∷ (codes "n2", pos 90) ∷ []) (codes "n2")
      new_queue new_ring
