-- ===== src/Enforce/Allow/NoHuman.antt =====
-- The escalation step goes on exactly if nothing asks for a human, and stops without allowing.
use a2g_cli.Enforce.Allow.Passes.{find_first-none, with_some_iff}
use a2g_cli.Cockpit.{always_hitl, classify_cockpit_tool}
use a2g_cli.Base.{String, ◌≡◌, refl, ◌↔◌, Bool, true, false, List, some, any, arith}
use a2g_cli.Enforce.Paths.{bounded_path}
use a2g_cli.Enforce.Glob.{glob_matches, extract_host}
use a2g_cli.Base.Text.{Text, list_contains}
use a2g_cli.Platform.{Platform}
use a2g_cli.Enforce.Types.{Request, next}
use a2g_cli.Enforce.Escalate.{check_escalation}
use a2g_cli.Enforce.Allow.Conditions.{NeedsNoHuman}
use a2g_cli.Enforce.Escalate.{
  escalate_cockpit, escalate_tool, escalate_path, escalate_host, escalate_on,
}
use a2g_cli.Enforce.Allow.Flow.{>>-next, StopsSafely}

escalate_on_iff :
    (p : Platform) (r : Request) (rule : String) (patterns : List Text) (t : Text)
    → (escalate_on p r rule patterns t ≡ next tt) ↔ (any (λ q. glob_matches q t) patterns ≡ false)
escalate_on_iff p r rule patterns t =
    ground (arith, find_first-none (λ q. glob_matches q t) patterns)

escalate_cockpit_iff :
    (p : Platform) (r : Request)
    → (escalate_cockpit p r ≡ next tt) ↔ (always_hitl (classify_cockpit_tool r.tool) ≡ false)
unfolding escalate_cockpit
escalate_cockpit_iff p r = ground arith

escalate_tool_iff :
    (p : Platform) (r : Request)
    → (escalate_tool p r ≡ next tt) ↔ (list_contains r.m.escalation.escalate_tools r.tool ≡ false)
unfolding escalate_tool
escalate_tool_iff p r = ground arith

escalate_path_iff :
    (p : Platform) (r : Request)
    → (escalate_path p r ≡ next tt) ↔ (
        (raw : Text)
        → r.params.path ≡ some raw
        → any
            (λ q. glob_matches q (bounded_path r.m.mandate.workspace_root raw))
            r.m.escalation.escalate_paths
          ≡ false)
unfolding escalate_path
escalate_path_iff p r = with_some_iff r.params.path _ (λ raw. escalate_on_iff p r _ _ _)

escalate_host_iff :
    (p : Platform) (r : Request)
    → (escalate_host p r ≡ next tt) ↔ (
        (url : Text)
        → r.params.url ≡ some url
        → any (λ q. glob_matches q (extract_host url)) r.m.escalation.escalate_hosts ≡ false)
unfolding escalate_host
escalate_host_iff p r = with_some_iff r.params.url _ (λ url. escalate_on_iff p r _ _ _)

pub check_escalation-stops :
    (p : Platform) (skip : Bool) (r : Request) → StopsSafely (check_escalation p skip r)
unfolding check_escalation escalate_cockpit escalate_tool escalate_path escalate_host
check_escalation-stops p true r = tt
check_escalation-stops p false r = ground arith

pub check_escalation_iff :
    (p : Platform) (skip : Bool) (r : Request)
    → (check_escalation p skip r ≡ next tt) ↔ (skip ≡ false → NeedsNoHuman r)
unfolding check_escalation
check_escalation_iff p true r = (λ e s. cc, λ h. refl)
check_escalation_iff p false r = (
  λ e s.
      let (e1, f1) = >>-next (escalate_cockpit p r) _ e in
      let (e2, f2) = >>-next (escalate_tool p r) _ f1 in
      let (e3, e4) = >>-next (escalate_path p r) _ f2 in
      record {
        not_hitl = (escalate_cockpit_iff p r).0 e1;
        tool_free = (escalate_tool_iff p r).0 e2;
        path_free = (escalate_path_iff p r).0 e3;
        host_free = (escalate_host_iff p r).0 e4;
      },
  λ h. rw (
    (escalate_cockpit_iff p r).1 (h refl).not_hitl,
    (escalate_tool_iff p r).1 (h refl).tool_free,
    (escalate_path_iff p r).1 (h refl).path_free,
    (escalate_host_iff p r).1 (h refl).host_free,
  ),
)
