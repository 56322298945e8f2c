-- ===== src/Cockpit.antt =====
-- crates/a2g-core/src/cockpit.rs: the domains of communication, payment and personal-data tools.
pub mod Laws
use a2g_cli.Base.{Bool, true, false, ◌||◌, if◌then◌else◌}
use a2g_cli.Base.Text.{Text, codes, text_eq, starts_with, ends_with}

pub data CockpitDomain : Type 0 where
  comms_sensitive_hitl comms_read_pii_gated pay_always_hitl pii_read_gated : CockpitDomain
  cockpit_forbidden sensitive_hitl_unknown non_cockpit : CockpitDomain

-- `CockpitDomain::always_hitl`
abbrev pub always_hitl : CockpitDomain → Bool
always_hitl comms_sensitive_hitl = true
always_hitl pay_always_hitl = true
always_hitl sensitive_hitl_unknown = true
always_hitl _ = false

-- `CockpitDomain::requires_pii_grant`
abbrev pub requires_pii_grant : CockpitDomain → Bool
requires_pii_grant pii_read_gated = true
requires_pii_grant comms_read_pii_gated = true
requires_pii_grant _ = false

abbrev pub is_cockpit_forbidden_domain : CockpitDomain → Bool
is_cockpit_forbidden_domain cockpit_forbidden = true
is_cockpit_forbidden_domain _ = false

unfoldable pub classify_comms : Text → CockpitDomain
classify_comms tool =
    if text_eq tool (codes "comms.call.place") || text_eq tool (codes "comms.sms.send")
    then comms_sensitive_hitl
    else if text_eq tool (codes "comms.contacts.read") || text_eq tool (codes "comms.history.read")
    then comms_read_pii_gated
    else sensitive_hitl_unknown

unfoldable pub classify_pii : Text → CockpitDomain
classify_pii tool =
    if text_eq tool (codes "pii.profile.export")
    then cockpit_forbidden
    else if ends_with tool (codes ".read")
    then pii_read_gated
    else sensitive_hitl_unknown

unfoldable pub classify_cockpit_tool : Text → CockpitDomain
unfolding classify_comms classify_pii
classify_cockpit_tool tool =
    if starts_with tool (codes "comms.")
    then classify_comms tool
    else if starts_with tool (codes "pay.")
    then pay_always_hitl
    else if starts_with tool (codes "pii.")
    then classify_pii tool
    else non_cockpit
