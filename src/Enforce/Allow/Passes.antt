-- ===== src/Enforce/Allow/Passes.antt =====
-- Each step of the pipeline goes on exactly under its condition, and stops without allowing.
use a2g_cli.Base.{
  if◌then◌else◌, ℕ, ◌<◌, ◌≡◌, refl, ◌≢◌, ◌↔◌, inl, inr, Bool, true, false, ◌||◌, List, [], ◌∷◌,
  Option, none, some, any, is_empty, find_first, arith, Option-cases,
}
use a2g_cli.Enforce.Paths.{bounded_path}
use a2g_cli.Enforce.Glob.{glob_matches, extract_host}
use mathlib.Core.Option.{some-injective}
use mathlib.Core.Path.{subst}
use a2g_cli.Base.Text.{Text, contains}
use a2g_cli.Error.{ok}
use a2g_cli.Platform.{Platform, Time}
use a2g_cli.Vehicle.Gate.{evaluate_vehicle_state, evaluate_comfort_state}
use a2g_cli.Enforce.Types.{EnforceLedger, Request, Flow, next, with_some}
use a2g_cli.Enforce.Trust.{TrustAnchor}
use a2g_cli.Enforce.Steps.{
  check_forbidden, check_revoked, check_issuer, check_ttl, check_tool, check_path, check_path_at,
  check_url, check_command, check_command_at, check_state, check_hours, check_rate,
}
use a2g_cli.Enforce.Allow.Conditions.{
  IsNamed, IsGranted, PathWithin, HostWithin, CommandWithin, StateFits, Unexpired, InHours,
}
use a2g_cli.Enforce.Allow.Flow.{StopsSafely}
use a2g_cli.Mandate.Verify.{verify_cbor_signature}
use a2g_cli.Enforce.Trust.{check_issuer_trust}
use a2g_cli.Vehicle.Classify.{classify_vehicle_tool}
use a2g_cli.Vehicle.Gate.{is_comfort_seat_tool}
use a2g_cli.Vehicle.Types.{comfort}

with_some-stops :
    {A : Type 0} (o : Option A) (k : A → Flow (Unit {0}))
    → ((a : A) → StopsSafely (k a))
    → StopsSafely (with_some o k)
with_some-stops none k h = tt
with_some-stops (some a) k h = h a

pub with_some_iff :
    {A : Type 0} {P : A → Type 0} (o : Option A) (k : A → Flow (Unit {0}))
    → ((a : A) → (k a ≡ next tt) ↔ P a)
    → (with_some o k ≡ next tt) ↔ ((a : A) → o ≡ some a → P a)
with_some_iff none k h = (λ e a q. cc, λ f. refl)
with_some_iff {P = P} (some a) k h =
    (λ e b q. subst P (some-injective a b q) ((h a).0 e), λ f. (h a).1 (f a refl))

unless_empty_iff :
    {P : Type 0} (t : Text) (m : Flow (Unit {0}))
    → (m ≡ next tt) ↔ P
    → ((if is_empty t then next tt else m) ≡ next tt) ↔ (t ≢ [] → P)
unless_empty_iff [] m h = (λ e ne. absurd (ne refl), λ f. refl)
unless_empty_iff (x ∷ t) m h = (λ e ne. h.0 e, λ f. h.1 (f (λ e. cc)))

pub check_forbidden-stops : (r : Request) → StopsSafely (check_forbidden r)
unfolding check_forbidden
check_forbidden-stops r = ground arith

pub check_forbidden_iff : (r : Request) → (check_forbidden r ≡ next tt) ↔ IsNamed r
unfolding check_forbidden
check_forbidden_iff r = ground arith

pub check_revoked-stops : (l : EnforceLedger) (r : Request) → StopsSafely (check_revoked l r)
unfolding check_revoked
check_revoked-stops l r = ground arith

pub check_revoked_iff :
    (l : EnforceLedger) (r : Request)
    → (check_revoked l r ≡ next tt) ↔ (l.is_revoked r.m.mandate.agent_did r.mandate_hash ≡ ok false)
unfolding check_revoked
check_revoked_iff l r = ground arith

pub check_issuer-stops :
    (p : Platform) (wall : Time) (trust : TrustAnchor) (r : Request)
    → StopsSafely (check_issuer p wall trust r)
unfolding check_issuer
check_issuer-stops p wall trust r = ground arith

pub check_issuer_iff :
    (p : Platform) (wall : Time) (trust : TrustAnchor) (r : Request)
    → (check_issuer p wall trust r ≡ next tt) ↔ (
        (verify_cbor_signature p r.envelope ≡ ok tt)
        × (check_issuer_trust p wall trust r.envelope r.m ≡ ok tt))
unfolding check_issuer
check_issuer_iff p wall trust r = ground arith

pub check_ttl-stops : (p : Platform) (r : Request) → StopsSafely (check_ttl p r)
unfolding check_ttl
check_ttl-stops p r = ground arith

pub check_ttl_iff : (p : Platform) (r : Request) → (check_ttl p r ≡ next tt) ↔ Unexpired r p
unfolding check_ttl
check_ttl_iff p r =
    unless_empty_iff r.m.mandate.expires_at _
      (with_some_iff (p.parse_time r.m.mandate.expires_at) _ (λ t. ground arith))

pub check_tool-stops : (r : Request) → StopsSafely (check_tool r)
unfolding check_tool
check_tool-stops r = ground arith

pub check_tool_iff : (r : Request) → (check_tool r ≡ next tt) ↔ IsGranted r
unfolding check_tool
check_tool_iff r = ground arith

pub check_rate-stops : (l : EnforceLedger) (r : Request) → StopsSafely (check_rate l r)
unfolding check_rate
check_rate-stops l r = ground arith

pub check_rate_iff :
    (l : EnforceLedger) (r : Request)
    → (check_rate l r ≡ next tt) ↔ (
        (n : ℕ) × (l.count_recent r.m.mandate.agent_did 60 ≡ ok n)
        × (n < r.m.limits.max_calls_per_minute))
unfolding check_rate
check_rate_iff l r = ground arith

pub find_first-none :
    {A : Type 0} (q : A → Bool) (xs : List A) → (find_first q xs ≡ none) ↔ (any q xs ≡ false)
find_first-none q [] = ground arith
find_first-none q (x ∷ xs) = ground (arith, find_first-none q xs)

pub check_path_at-stops : (r : Request) (path : Text) → StopsSafely (check_path_at r path)
unfolding check_path_at
check_path_at-stops r path = ground arith

check_path_at_iff :
    (r : Request) (path : Text) → (check_path_at r path ≡ next tt) ↔ PathWithin r path
unfolding check_path_at
check_path_at_iff r path =
    ground (arith, find_first-none (λ q. glob_matches q path) r.m.boundaries.fs_deny)

pub check_path-stops : (r : Request) → StopsSafely (check_path r)
unfolding check_path
check_path-stops r = with_some-stops r.params.path _ (λ raw. check_path_at-stops r _)

pub check_path_iff :
    (r : Request)
    → (check_path r ≡ next tt) ↔ (
        (raw : Text)
        → r.params.path ≡ some raw
        → PathWithin r (bounded_path r.m.mandate.workspace_root raw))
unfolding check_path
check_path_iff r = with_some_iff r.params.path _ (λ raw. check_path_at_iff r _)

pub check_url-stops : (r : Request) → StopsSafely (check_url r)
unfolding check_url
check_url-stops r = ground arith

pub check_url_iff :
    (r : Request)
    → (check_url r ≡ next tt)
      ↔ ((url : Text) → r.params.url ≡ some url → HostWithin r (extract_host url))
unfolding check_url
check_url_iff r = with_some_iff r.params.url _ (λ url. ground arith)

check_command_at-stops : (r : Request) (cmd : Text) → StopsSafely (check_command_at r cmd)
unfolding check_command_at
check_command_at-stops r cmd = ground arith

check_command_at_iff :
    (r : Request) (cmd : Text) → (check_command_at r cmd ≡ next tt) ↔ CommandWithin r cmd
unfolding check_command_at
check_command_at_iff r cmd =
    ground
      (arith, find_first-none (λ q. contains cmd q || glob_matches q cmd) r.m.boundaries.cmd_deny)

pub check_command-stops : (r : Request) → StopsSafely (check_command r)
unfolding check_command
check_command-stops r = with_some-stops r.params.command _ (check_command_at-stops r)

pub check_command_iff :
    (r : Request)
    → (check_command r ≡ next tt)
      ↔ ((cmd : Text) → r.params.command ≡ some cmd → CommandWithin r cmd)
unfolding check_command
check_command_iff r = with_some_iff r.params.command _ (check_command_at_iff r)

pub check_state-stops : (r : Request) → StopsSafely (check_state r)
unfolding check_state
check_state-stops r = ground arith

pub check_state_iff : (r : Request) → (check_state r ≡ next tt) ↔ StateFits r
unfolding check_state evaluate_vehicle_state evaluate_comfort_state
check_state_iff r = elim (Option-cases r.verified_state) [
  | inl e ↦ (λ g. (ground arith, λ c s vs e'. cc), λ h. ground arith)
  | inr (vs, e) ↦ (
    λ g. (ground arith, λ c s vs' e' d. ground arith),
    λ h. ground (
      arith,
      λ (c : classify_vehicle_tool r.tool ≡ comfort) (s : is_comfort_seat_tool r.tool ≡ true).
          h.1 c s vs e,
    ),
  )
]

pub check_hours-stops : (p : Platform) (r : Request) → StopsSafely (check_hours p r)
unfolding check_hours
check_hours-stops p r = ground arith

pub check_hours_iff : (p : Platform) (r : Request) → (check_hours p r ≡ next tt) ↔ InHours r p
unfolding check_hours
check_hours_iff p r = ground arith
