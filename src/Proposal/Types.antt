-- ===== src/Proposal/Types.antt =====
-- crates/a2g-core/src/proposal.rs: proposals, reviews, and the tests on their statuses.
use a2g_cli.Base.{ℕ, Bool, true, false, List}
use a2g_cli.Base.Text.{Text, codes}
use a2g_cli.Platform.{Time}

pub data ProposalStatus : Type 0 where
  pending : ProposalStatus
  approved : ProposalStatus
  rejected : ProposalStatus
  expired : ProposalStatus
  withdrawn : ProposalStatus

pub data RiskLevel : Type 0 where
  low : RiskLevel
  medium : RiskLevel
  high : RiskLevel
  critical : RiskLevel

pub data ReviewDecision : Type 0 where
  approve : ReviewDecision
  reject : ReviewDecision
  request_changes : ReviewDecision

-- `Display`
abbrev pub status_name : ProposalStatus → Text
status_name pending = codes "PENDING"
status_name approved = codes "APPROVED"
status_name rejected = codes "REJECTED"
status_name expired = codes "EXPIRED"
status_name withdrawn = codes "WITHDRAWN"

abbrev pub risk_name : RiskLevel → Text
risk_name low = codes "LOW"
risk_name medium = codes "MEDIUM"
risk_name high = codes "HIGH"
risk_name critical = codes "CRITICAL"

abbrev pub decision_name : ReviewDecision → Text
decision_name approve = codes "APPROVE"
decision_name reject = codes "REJECT"
decision_name request_changes = codes "REQUEST_CHANGES"

-- `RiskLevel::required_approvals`
abbrev pub approvals_for : RiskLevel → ℕ
approvals_for low = 1
approvals_for medium = 2
approvals_for high = 3
approvals_for critical = 4

-- `==` with one of the constructors.
abbrev pub is_pending : ProposalStatus → Bool
is_pending pending = true
is_pending approved = false
is_pending rejected = false
is_pending expired = false
is_pending withdrawn = false

abbrev pub is_approve : ReviewDecision → Bool
is_approve approve = true
is_approve reject = false
is_approve request_changes = false

abbrev pub is_reject : ReviewDecision → Bool
is_reject reject = true
is_reject approve = false
is_reject request_changes = false

pub record Review : Type 0 where
  pub review_id : Text
  pub reviewer_did : Text
  pub reviewer_name : Text
  pub decision : ReviewDecision
  pub reason : Text
  pub reviewed_at : Text
  pub signature : Text
  pub reviewer_pubkey : Text
  pub mandate_view_hash : Text
  pub approval_context_hash : Text

pub record Proposal : Type 0 where
  pub proposal_id : Text
  pub proposer_did : Text
  pub proposal_name : Text
  pub mandate_body : Text
  pub mandate_hash : Text
  pub justification : Text
  pub risk_level : RiskLevel
  pub required_approvals : ℕ
  pub status : ProposalStatus
  pub reviews : List Review
  pub created_at : Text
  pub expires_at : Text
  pub proposal_hash : Text

-- What `review_proposal` is called with, the two readings of the clock and the random id.
pub record ReviewCall : Type 0 where
  pub now : Time
  pub reviewed : Time
  pub review_id : Text
  pub secret_hex : Text
  pub reviewer_name : Text
  pub decision : ReviewDecision
  pub reason : Text
