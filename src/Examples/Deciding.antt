-- ===== src/Examples/Deciding.antt =====
-- The theorems on decisions, applied to concrete calls.
use a2g_cli.Base.{[], ◌≡◌, refl, false, true, inl}
use a2g_cli.Base.Text.{starts_with, Text, codes, text_eq}
use a2g_cli.Error.{ok}
use a2g_cli.Mandate.Types.{tbs_to_mandate}
use a2g_cli.Mandate.Verify.{parse_cbor_mandate_raw}
use a2g_cli.Hitl.Types.{ApprovalGrant}
use a2g_cli.Vehicle.Types.{fail_safe, is_parked_and_stopped, sensitive, forbidden}
use a2g_cli.Vehicle.Classify.{classify_vehicle_tool}
use a2g_cli.Cockpit.{always_hitl, classify_cockpit_tool}
use a2g_cli.Enforce.Types.{Request, Verdict, deny}
use a2g_cli.Enforce.Decide.{request_of, prepare, decide}
use a2g_cli.Enforce.Approval.{decide_with_approval}
use a2g_cli.Enforce.Decision.{Allows, forbidden-denied, hitl-needs_approval, sensitive-needs_parked}
use a2g_cli.Examples.{platform, call, tbs, envelope, binding, key}

abbrev request : Text → Request
request tool =
    request_of platform (call tool) (codes "{}") (tbs_to_mandate tbs, envelope (codes "cbor"))

prepared : (tool : Text) → prepare platform (call tool) ≡ ok (request tool)
unfolding prepare parse_cbor_mandate_raw text_eq
prepared tool = refl

abbrev grant : ApprovalGrant
grant = record {
  binding_id = codes "b1";
  request_hash = codes "hash";
  approver_did = codes "did";
  approver_pubkey = key;
  signature = [];
  expires_at = [];
  parent_receipt_hash = [];
}

braking : classify_vehicle_tool (codes "vehicle.braking.apply") ≡ forbidden
unfolding classify_vehicle_tool starts_with
braking = refl

forbidden-denied_example :
    ((v : Verdict) × (decide platform (call (codes "vehicle.braking.apply")) ≡ ok v)
      × (v.decision ≡ deny))
    × ((v : Verdict) × (decide_with_approval platform binding grant
            (call (codes "vehicle.braking.apply"))
          ≡ ok v)
        × (v.decision ≡ deny))
forbidden-denied_example =
    forbidden-denied platform (call (codes "vehicle.braking.apply"))
      (prepared (codes "vehicle.braking.apply")) (inl braking) binding grant

paying : always_hitl (classify_cockpit_tool (codes "pay.charge")) ≡ true
unfolding classify_cockpit_tool starts_with
paying = refl

hitl-needs_approval_example : ¬ (Allows (decide platform (call (codes "pay.charge"))))
hitl-needs_approval_example =
    hitl-needs_approval platform (call (codes "pay.charge")) (prepared (codes "pay.charge")) paying

door : classify_vehicle_tool (codes "vehicle.door.open") ≡ sensitive
unfolding classify_vehicle_tool starts_with
door = refl

moving : is_parked_and_stopped fail_safe ≡ false
unfolding is_parked_and_stopped
moving = refl

sensitive-needs_parked_example :
    (¬ (Allows (decide platform (call (codes "vehicle.door.open")))))
    × (¬ (Allows (decide_with_approval platform binding grant (call (codes "vehicle.door.open")))))
sensitive-needs_parked_example =
    sensitive-needs_parked platform (call (codes "vehicle.door.open"))
      (prepared (codes "vehicle.door.open")) door moving binding grant
