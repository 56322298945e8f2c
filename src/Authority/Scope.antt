-- ===== src/Authority/Scope.antt =====
-- crates/a2g-core/src/authority.rs: what a scope allows, the effective scope of a chain, and the
-- check of a mandate against a scope.
use Prim.Native.Nat.{min}
use a2g_cli.Base.{ℕ, Bool, not, ◌&&◌, ◌||◌, List, [], ◌∷◌, none, some, if◌then◌else◌, is_empty, ltb}
use a2g_cli.Base.Text.{Text, codes, list_contains, split_once, trim, text_lt}
use a2g_cli.Error.{
  A2gError, authority_chain, mandate_invalid, format, text, number, end, Result, ok, err, ◌>>◌,
  ensure,
}
use a2g_cli.Platform.{Platform, Time}
use a2g_cli.Mandate.Types.{Mandate}
use a2g_cli.Authority.Types.{AuthorityScope, Jurisdiction, Delegation, default_scope}

-- The loop over a list of tools: the first one outside `allowed` is the error.
unfoldable pub check_tools : (Text → A2gError) → List Text → List Text → Result (Unit {0})
check_tools fault allowed [] = ok tt
check_tools fault allowed (t ∷ ts) =
    let rest = check_tools fault allowed ts in
    if not (is_empty allowed) && not (list_contains allowed t) then err (fault t) else rest

abbrev pub tool_not_in_parent : Text → A2gError
tool_not_in_parent t =
    authority_chain (format "scope violation: tool '{}' not in parent's allowed_tools" (text t end))

abbrev pub tool_not_in_scope : Text → A2gError
tool_not_in_scope t =
    authority_chain
      (format "authority scope violation: tool '{}' not in authority's allowed_tools" (text t end))

-- `limit > 0 && value > limit`
abbrev pub exceeds : ℕ → ℕ → Bool
exceeds limit value = ltb 0 limit && ltb limit value

unfoldable pub validate_scope_subset : AuthorityScope → AuthorityScope → Result (Unit {0})
unfolding check_tools
validate_scope_subset child parent = do
  check_tools tool_not_in_parent parent.allowed_tools child.allowed_tools
  ensure (not (exceeds parent.max_ttl_hours child.max_ttl_hours)) (
      authority_chain (
        format "scope violation: max_ttl_hours {} exceeds parent's {}"
          (number child.max_ttl_hours (number parent.max_ttl_hours end))))
  ensure (not (exceeds parent.max_rate_limit child.max_rate_limit)) (
      authority_chain (
        format "scope violation: max_rate_limit {} exceeds parent's {}"
          (number child.max_rate_limit (number parent.max_rate_limit end))))
  ok tt

-- The retained tools: those of `kept` that stand in `allowed` too.
unfoldable pub retain : List Text → List Text → List Text
retain allowed [] = []
retain allowed (t ∷ ts) =
    let rest = retain allowed ts in if list_contains allowed t then t ∷ rest else rest

abbrev pub meet_tools : List Text → List Text → List Text
meet_tools tools [] = tools
meet_tools [] (d ∷ ds) = d ∷ ds
meet_tools (t ∷ ts) (d ∷ ds) = retain (d ∷ ds) (t ∷ ts)

abbrev pub meet_limit : ℕ → ℕ → ℕ
meet_limit limit other = if ltb 0 other then min limit other else limit

-- One round of the loop in `compute_effective_scope`.
unfoldable pub meet_scope : AuthorityScope → AuthorityScope → AuthorityScope
unfolding retain
meet_scope s d = record s {
  allowed_tools = meet_tools s.allowed_tools d.allowed_tools;
  max_ttl_hours = meet_limit s.max_ttl_hours d.max_ttl_hours;
  max_rate_limit = meet_limit s.max_rate_limit d.max_rate_limit;
  max_active_mandates = meet_limit s.max_active_mandates d.max_active_mandates;
}

unfoldable pub meet_scopes : AuthorityScope → List Delegation → AuthorityScope
unfolding meet_scope
meet_scopes s [] = s
meet_scopes s (d ∷ ds) = meet_scopes (meet_scope s d.scope) ds

unfoldable pub compute_effective_scope : List Delegation → AuthorityScope
unfolding meet_scopes
compute_effective_scope [] = default_scope
compute_effective_scope (d ∷ ds) = meet_scopes d.scope ds

module _ (p : Platform) where
  -- The time compared is that of the wall clock, `Utc::now()`, here the argument `wall`.
  unfoldable pub check_jurisdiction : Time → Jurisdiction → Result (Unit {0})
  check_jurisdiction wall j =
      if is_empty j.operating_hours
      then ok tt
      else elim (split_once j.operating_hours (codes "-")) [
        | none ↦ ok tt
        | some (start, stop) ↦
            if text_lt (p.format_hm wall) (trim start) || text_lt (trim stop) (p.format_hm wall)
            then err (
                mandate_invalid (
                  format "jurisdiction violation: current time {} is outside operating hours {}"
                    (text (p.format_hm wall) (text j.operating_hours end))))
            else ok tt
      ]

  unfoldable pub validate_mandate_against_authority :
      Time → Mandate → Delegation → Result (Unit {0})
  unfolding check_tools
  validate_mandate_against_authority wall m d = do
    check_tools tool_not_in_scope d.scope.allowed_tools m.capabilities.tools
    ensure (not (exceeds d.scope.max_rate_limit m.limits.max_calls_per_minute)) (
        authority_chain (
          format "authority scope violation: rate limit {} exceeds authority max {}"
            (number m.limits.max_calls_per_minute (number d.scope.max_rate_limit end))))
    check_jurisdiction wall d.jurisdiction
