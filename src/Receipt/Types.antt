-- ===== src/Receipt/Types.antt =====
-- crates/a2g-core/src/receipt.rs: receipts, and the text that a receipt's hash covers.
use a2g_cli.Base.{List, [], ◌∷◌, ◌++◌, is_empty, if◌then◌else◌}
use a2g_cli.Base.Text.{Text, codes, join}
use a2g_cli.Vehicle.Types.{StateTrust, attested, operator_trusted, untrusted}
use a2g_cli.Enforce.Types.{Decision, allow, deny, expired, pending_approval, Verdict}

-- vehicle.rs: `StateTrust::as_str`
abbrev pub trust_name : StateTrust → Text
trust_name attested = codes "attested"
trust_name operator_trusted = codes "operator_trusted"
trust_name untrusted = codes "none"

-- enforce.rs: `Display` of `Decision`
abbrev pub decision_text : Decision → Text
decision_text allow = codes "ALLOW"
decision_text deny = codes "DENY"
decision_text expired = codes "EXPIRED"
decision_text pending_approval = codes "PENDING_APPROVAL"

pub record Receipt : Type 0 where
  pub receipt_id : Text
  pub verdict_id : Text
  pub agent_did : Text
  pub tool : Text
  pub params_hash : Text
  pub decision : Decision
  pub policy_rule : Text
  pub policy_hash : Text
  pub timestamp : Text
  pub prev_hash : Text
  pub receipt_hash : Text
  pub mandate_hash : Text
  pub proposal_hash : Text
  pub delegation_chain_hash : Text
  pub issuer_did : Text
  pub authority_level : Text
  pub scope_hash : Text
  pub correlation_id : Text
  pub parent_receipt_hash : Text
  pub state_trust : Text

-- `if !test.is_empty() { hash_input.push_str(":{}:{}…") }`
abbrev pub extension : Text → List Text → Text
extension test parts = if is_empty test then [] else codes ":" ++ join (codes ":") parts

-- The text that `generate_receipt` hashes.
unfoldable pub verdict_input : Verdict → Text → Text → Text → Text → Text
verdict_input v receipt_id policy_hash timestamp prev_hash =
    join (codes ":") (
      receipt_id
      ∷ v.verdict_id
      ∷ v.agent_did
      ∷ v.tool
      ∷ v.params_hash
      ∷ decision_text v.decision
      ∷ policy_hash
      ∷ timestamp
      ∷ prev_hash
      ∷ [])
    ++ (extension v.mandate_hash (v.mandate_hash ∷ v.proposal_hash ∷ [])
        ++ (extension v.delegation_chain_hash
              (v.delegation_chain_hash ∷ v.issuer_did ∷ v.authority_level ∷ v.scope_hash ∷ [])
            ++ (extension v.correlation_id (v.correlation_id ∷ v.parent_receipt_hash ∷ [])
                ++ extension (trust_name v.state_trust)
                    (codes "state_trust" ∷ trust_name v.state_trust ∷ []))))

-- The text that `verify_receipt` hashes.
unfoldable pub receipt_input : Receipt → Text
receipt_input r =
    join (codes ":") (
      r.receipt_id
      ∷ r.verdict_id
      ∷ r.agent_did
      ∷ r.tool
      ∷ r.params_hash
      ∷ decision_text r.decision
      ∷ r.policy_hash
      ∷ r.timestamp
      ∷ r.prev_hash
      ∷ [])
    ++ (extension r.mandate_hash (r.mandate_hash ∷ r.proposal_hash ∷ [])
        ++ (extension r.delegation_chain_hash
              (r.delegation_chain_hash ∷ r.issuer_did ∷ r.authority_level ∷ r.scope_hash ∷ [])
            ++ (extension r.correlation_id (r.correlation_id ∷ r.parent_receipt_hash ∷ [])
                ++ extension r.state_trust (codes "state_trust" ∷ r.state_trust ∷ []))))
