-- ===== src/Proposal/Risk.antt =====
-- crates/a2g-core/src/proposal.rs: the score of a mandate and the creation of its proposal.
use Prim.Native.Nat.{min}
use a2g_cli.Base.{
  ℕ, ◌+◌, ◌^◌, ◌-◌, ◌&&◌, ◌||◌, Bool, not, Option, none, some, List, [], ◌∷◌, any, is_empty, ltb,
  leb, if◌then◌else◌, unwrap_or,
}
use a2g_cli.Base.Text.{Text, codes, contains, decimal, join}
use a2g_cli.Error.{Result, ok, ◌>>=◌}
use a2g_cli.Platform.{Platform, Time}
use a2g_cli.Mandate.Types.{Mandate}
use a2g_cli.Mandate.Verify.{digest_hex}
use a2g_cli.Proposal.Types.{
  Proposal, RiskLevel, low, medium, high, critical, pending, approvals_for, risk_name,
}

-- `score.saturating_add(n)` on `u32`
abbrev pub saturating_add : ℕ → ℕ → ℕ
saturating_add a b = min (a + b) (2 ^ 32 - 1)

abbrev exec_tools : List Text
exec_tools = codes "execute" ∷ codes "exec" ∷ codes "shell" ∷ codes "command" ∷ codes "run" ∷ []

abbrev write_tools : List Text
write_tools =
    codes "write_file"
    ∷ codes "write"
    ∷ codes "delete"
    ∷ codes "delete_file"
    ∷ codes "move"
    ∷ codes "rename"
    ∷ []

abbrev net_tools : List Text
net_tools =
    codes "http_get"
    ∷ codes "http_post"
    ∷ codes "http_put"
    ∷ codes "http_delete"
    ∷ codes "fetch"
    ∷ codes "curl"
    ∷ []

-- What a tool adds to the score, by its name in lower case.
unfoldable pub tool_risk : Text → ℕ
tool_risk t =
    if any (contains t) exec_tools
    then 3
    else if any (contains t) write_tools || any (contains t) net_tools
    then 2
    else 1

abbrev pub add_if : Bool → ℕ → ℕ → ℕ
add_if test n score = if test then saturating_add score n else score

unfoldable pub classify_risk : ℕ → RiskLevel
classify_risk score =
    if leb score 3
    then low
    else if leb score 7
    then medium
    else if leb score 12
    then high
    else critical

-- The Unicode table of `str::to_lowercase` is a parameter.
module _ (to_lowercase : Text → Text) where
  unfoldable pub tools_risk : ℕ → List Text → ℕ
  tools_risk score [] = score
  tools_risk score (tool ∷ tools) =
      tools_risk (saturating_add score (tool_risk (to_lowercase tool))) tools

  unfoldable pub risk_score : Mandate → ℕ
  unfolding tools_risk
  risk_score m = add_if (ltb 120 m.limits.max_calls_per_minute) 2 (
      add_if (not (is_empty m.boundaries.cmd_allow)) 2 (
        add_if (is_empty m.boundaries.net_deny && not (is_empty m.boundaries.net_allow)) 2
          (add_if (is_empty m.boundaries.fs_deny) 3 (tools_risk 0 m.capabilities.tools))))

  unfoldable pub assess_risk : Mandate → Result RiskLevel
  unfolding risk_score classify_risk
  assess_risk m = ok (classify_risk (risk_score m))

  -- `chrono::Duration::hours` in seconds: `none` is its panic out of range.
  module _ (p : Platform) (hours : ℕ → Option ℕ) where
    -- The proposal before its hash is computed, with the text that the hash covers.
    unfoldable pub hash_input : Text → Text → Text → RiskLevel → ℕ → Time → Time → Text
    hash_input id proposer body_hash level required now expires = join (codes ":") (
        id
        ∷ proposer
        ∷ body_hash
        ∷ risk_name level
        ∷ decimal required
        ∷ p.to_rfc3339 now
        ∷ p.to_rfc3339 expires
        ∷ [])

    -- `none` is the panic of `Duration::hours`.
    unfoldable pub create_proposal :
        (now : Time) (proposal_id proposer_did proposal_name : Text) (mandate : Mandate)
        (mandate_body justification : Text) (ttl_hours : ℕ)
        → Option (Result Proposal)
    unfolding assess_risk hash_input
    create_proposal now proposal_id proposer_did proposal_name mandate mandate_body justification
          ttl_hours =
        elim (hours (min ttl_hours (2 ^ 63 - 1))) [
          | none ↦ none
          | some secs ↦ some (do
            level ← assess_risk mandate
            let expires = unwrap_or (p.checked_add_secs now secs) now
            let body_hash = digest_hex p (p.utf8 mandate_body)
            ok (record {
              proposal_id = proposal_id;
              proposer_did = proposer_did;
              proposal_name = proposal_name;
              mandate_body = mandate_body;
              mandate_hash = body_hash;
              justification = justification;
              risk_level = level;
              required_approvals = approvals_for level;
              status = pending;
              reviews = [];
              created_at = p.to_rfc3339 now;
              expires_at = p.to_rfc3339 expires;
              proposal_hash = digest_hex p (
                  p.utf8 (
                    hash_input proposal_id proposer_did body_hash level (approvals_for level) now
                      expires));
            }))
        ]
