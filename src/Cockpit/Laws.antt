-- ===== src/Cockpit/Laws.antt =====
-- crates/a2g-core/src/cockpit.rs: no tool of the three domains escapes every safeguard.
use a2g_cli.Base.{◌≡◌, arith, true, ◌||◌}
use a2g_cli.Base.Text.{Text, codes, starts_with}
use a2g_cli.Cockpit.{
  classify_cockpit_tool, classify_comms, classify_pii, always_hitl, requires_pii_grant,
  is_cockpit_forbidden_domain,
}

-- A tool named `comms.`, `pay.` or `pii.` and anything always needs a human, needs a grant for
-- personal data, or is forbidden.
pub classify_cockpit_tool-guarded :
    (tool : Text)
    → (starts_with tool (codes "comms.")
        || starts_with tool (codes "pay.")
        || starts_with tool (codes "pii."))
      ≡ true
    → (always_hitl (classify_cockpit_tool tool)
        || requires_pii_grant (classify_cockpit_tool tool)
        || is_cockpit_forbidden_domain (classify_cockpit_tool tool))
      ≡ true
unfolding classify_cockpit_tool classify_comms classify_pii
classify_cockpit_tool-guarded tool h = ground arith
