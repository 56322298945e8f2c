-- ===== src/Enforce/Allow/Conditions.antt =====
-- The conditions under which a request is allowed, step by step, and the record of them all.
use a2g_cli.Base.{
  ℕ, ◌<◌, ◌≤◌, ◌≡◌, ◌≢◌, ◌⊎◌, Bool, true, false, ◌||◌, List, [], some, any, unwrap_or,
}
use a2g_cli.Base.Text.{Text, codes, text_eq, list_contains, contains, first_word}
use a2g_cli.Error.{ok}
use a2g_cli.Platform.{Platform, Time}
use a2g_cli.Mandate.Verify.{verify_cbor_signature}
use a2g_cli.Vehicle.Types.{
  forbidden, sensitive, comfort, is_parked_and_stopped, speed_gate_mmps, driver,
  VerifiedVehicleState,
}
use a2g_cli.Vehicle.Classify.{classify_vehicle_tool}
use a2g_cli.Vehicle.Gate.{is_comfort_seat_tool}
use a2g_cli.Cockpit.{classify_cockpit_tool, cockpit_forbidden, requires_pii_grant, always_hitl}
use a2g_cli.Enforce.Paths.{bounded_path}
use a2g_cli.Enforce.Glob.{glob_matches, extract_host}
use a2g_cli.Enforce.Hours.{OperatingHours, start_total, end_total, validate_operating_hours}
use a2g_cli.Enforce.Types.{EnforceLedger, Request}
use a2g_cli.Enforce.Trust.{TrustAnchor, check_issuer_trust}
use a2g_cli.Enforce.Steps.{pii_grant, state_or_fail_safe, minutes_of, is_tool}

module _ (r : Request) where
  pub record IsNamed : Type 0 where
    pub named : r.tool ≢ []
    pub vehicle_open : classify_vehicle_tool r.tool ≢ forbidden
    pub cockpit_open : classify_cockpit_tool r.tool ≢ cockpit_forbidden

  pub record IsGranted : Type 0 where
    pub listed : list_contains r.m.capabilities.tools r.tool ≡ true
    pub pii_listed :
        requires_pii_grant (classify_cockpit_tool r.tool) ≡ true
        → list_contains r.m.capabilities.tools pii_grant ≡ true

  -- Some pattern of the list, if it has any, matches.
  abbrev pub Within : List Text → Text → Type 0
  Within patterns path = (patterns ≡ []) ⊎ (any (λ q. glob_matches q path) patterns ≡ true)

  abbrev pub PathWithin : Text → Type 0
  PathWithin path =
      (any (λ q. glob_matches q path) r.m.boundaries.fs_deny ≡ false)
      × (is_tool r "read_file" "read" ≡ true → Within r.m.boundaries.fs_read path)
      × (is_tool r "write_file" "write" ≡ true → Within r.m.boundaries.fs_write path)

  abbrev pub HostWithin : Text → Type 0
  HostWithin host =
      (any (λ q. text_eq q (codes "*") || glob_matches q host) r.m.boundaries.net_deny ≡ false)
      ⊎ (any (λ q. glob_matches q host) r.m.boundaries.net_allow ≡ true)

  abbrev pub CommandWithin : Text → Type 0
  CommandWithin cmd =
      (any (λ q. contains cmd q || glob_matches q cmd) r.m.boundaries.cmd_deny ≡ false)
      × ((r.m.boundaries.cmd_allow ≡ [])
          ⊎ (list_contains r.m.boundaries.cmd_allow (unwrap_or (first_word cmd) cmd) ≡ true))

  abbrev pub StateFits : Type 0
  StateFits =
      (classify_vehicle_tool r.tool ≡ sensitive
        → is_parked_and_stopped (state_or_fail_safe r.verified_state) ≡ true)
      × (classify_vehicle_tool r.tool ≡ comfort
          → is_comfort_seat_tool r.tool ≡ true
          → (vs : VerifiedVehicleState) → r.verified_state ≡ some vs
          → vs.state.actor ≡ driver
          → vs.state.speed_mmps < speed_gate_mmps)

  abbrev pub Unexpired : Platform → Type 0
  Unexpired p =
      r.m.mandate.expires_at ≢ []
      → (t : Time) → p.parse_time r.m.mandate.expires_at ≡ some t
      → r.now < t

  abbrev pub InHours : Platform → Type 0
  InHours p =
      r.m.jurisdiction.operating_hours ≢ []
      → (h : OperatingHours) × (validate_operating_hours r.m.jurisdiction.operating_hours ≡ ok h)
        × (start_total h ≤ minutes_of p r.now)
        × (minutes_of p r.now ≤ end_total h)

  -- Nothing in the mandate or the tool's domain asks for a human.
  pub record NeedsNoHuman : Type 0 where
    pub not_hitl : always_hitl (classify_cockpit_tool r.tool) ≡ false
    pub tool_free : list_contains r.m.escalation.escalate_tools r.tool ≡ false
    pub path_free :
        (raw : Text)
        → r.params.path ≡ some raw
        → any
            (λ q. glob_matches q (bounded_path r.m.mandate.workspace_root raw))
            r.m.escalation.escalate_paths
          ≡ false
    pub host_free :
        (url : Text)
        → r.params.url ≡ some url
        → any (λ q. glob_matches q (extract_host url)) r.m.escalation.escalate_hosts ≡ false

  -- All that an `ALLOW` rests on; in phase 2 (`skip` is true) a human has approved.
  pub record IsPermitted (p : Platform) (wall : Time) (trust : TrustAnchor) (ledger : EnforceLedger)
      (skip : Bool) : Type 0 where
    pub is_named : IsNamed
    pub not_revoked : ledger.is_revoked r.m.mandate.agent_did r.mandate_hash ≡ ok false
    pub signed : verify_cbor_signature p r.envelope ≡ ok tt
    pub trusted : check_issuer_trust p wall trust r.envelope r.m ≡ ok tt
    pub unexpired : Unexpired p
    pub granted : IsGranted
    pub path_within :
        (raw : Text)
        → r.params.path ≡ some raw
        → PathWithin (bounded_path r.m.mandate.workspace_root raw)
    pub host_within : (url : Text) → r.params.url ≡ some url → HostWithin (extract_host url)
    pub command_within : (cmd : Text) → r.params.command ≡ some cmd → CommandWithin cmd
    pub state_fits : StateFits
    pub in_hours : InHours p
    pub no_human : skip ≡ false → NeedsNoHuman
    pub under_limit :
        (n : ℕ) × (ledger.count_recent r.m.mandate.agent_did 60 ≡ ok n)
        × (n < r.m.limits.max_calls_per_minute)
