-- ===== src/Enforce/Types.antt =====
-- crates/a2g-core/src/enforce.rs and ledger.rs: decisions, verdicts, the ledger that the pipeline
-- reads, and the request that its steps share.
use a2g_cli.Base.{ℕ, Bool, true, false, Option, none, some, [], if◌then◌else◌}
use a2g_cli.Base.Text.{Text}
use a2g_cli.Error.{A2gError, Message, Result, ok, err}
use a2g_cli.Platform.{Time}
use a2g_cli.Mandate.Types.{Mandate, CborMandate}
use a2g_cli.Hitl.Types.{PendingApprovalBinding}
use a2g_cli.Vehicle.Types.{VehicleState, VerifiedVehicleState, StateTrust, untrusted}

pub data Decision : Type 0 where
  allow deny expired pending_approval : Decision

abbrev pub is_allow : Decision → Bool
is_allow allow = true
is_allow _ = false

pub record Verdict : Type 0 where
  pub verdict_id : Text
  pub agent_did : Text
  pub agent_name : Text
  pub tool : Text
  pub params_hash : Text
  pub decision : Decision
  pub policy_rule : Message
  pub evaluated_at : Time
  pub mandate_hash : Text
  pub proposal_hash : Text
  pub delegation_chain_hash : Text
  pub issuer_did : Text
  pub authority_level : Text
  pub scope_hash : Text
  pub correlation_id : Text
  pub parent_receipt_hash : Text
  pub pending_approval : Option PendingApprovalBinding
  pub state_trust : StateTrust

-- What the pipeline reads of the JSON parameters: the texts under three keys, the state under
-- `vehicle_state` if it deserializes, and the serialized form if it serializes.
pub record Params : Type 0 where
  pub path : Option Text
  pub url : Option Text
  pub command : Option Text
  pub vehicle_state : Option VehicleState
  pub serialized : Option Text
  -- The serialized form once the path is replaced.
  pub serialized_with : Text → Option Text

-- ledger.rs: `EnforceLedger`
pub record EnforceLedger : Type 0 where
  pub is_revoked : Text → Text → Result Bool
  pub count_recent : Text → ℕ → Result ℕ

-- ledger.rs: `NoopLedger`
abbrev pub noop_ledger : EnforceLedger
noop_ledger = record { is_revoked = λ a m. ok false; count_recent = λ a s. ok 0 }

-- The two UUIDs that one decision may draw.
pub record FreshIds : Type 0 where
  pub verdict_id : Text
  pub binding_id : Text

-- The values that `decide_core` computes before its first check.
pub record Request : Type 0 where
  pub m : Mandate
  pub envelope : CborMandate
  pub tool : Text
  pub params : Params
  pub params_hash : Text
  pub mandate_hash : Text
  pub now : Time
  pub verified_state : Option VerifiedVehicleState
  pub ids : FreshIds

abbrev pub trust_of : Option VerifiedVehicleState → StateTrust
trust_of none = untrusted
trust_of (some vs) = vs.trust_basis

-- The closure `make_verdict`.
abbrev pub make_verdict : Request → Decision → Message → Verdict
make_verdict r decision rule = record {
  verdict_id = r.ids.verdict_id;
  agent_did = r.m.mandate.agent_did;
  agent_name = r.m.mandate.agent_name;
  tool = r.tool;
  params_hash = r.params_hash;
  decision = decision;
  policy_rule = rule;
  evaluated_at = r.now;
  mandate_hash = r.mandate_hash;
  proposal_hash = r.m.mandate.proposal_hash;
  delegation_chain_hash = [];
  issuer_did = [];
  authority_level = [];
  scope_hash = [];
  correlation_id = [];
  parent_receipt_hash = [];
  pending_approval = none;
  state_trust = trust_of r.verified_state;
}

-- The control flow of the pipeline: go on, `return Ok(verdict)`, or `return Err(e)`.
pub data Flow {ℓ} (A : Type ℓ) : Type ℓ where
  next : A → Flow A
  halt : Verdict → Flow A
  fail : A2gError → Flow A

infixl 5 ◌>>=◌ ◌>>◌
abbrev pub ◌>>=◌ {ℓ κ} : {A : Type ℓ} {B : Type κ} → Flow A → (A → Flow B) → Flow B
next a >>= f = f a
halt v >>= f = halt v
fail e >>= f = fail e

abbrev pub ◌>>◌ {ℓ} : {B : Type ℓ} → Flow (Unit {0}) → Flow B → Flow B
m >> k = m >>= λ _. k

-- `?` inside the pipeline.
abbrev pub lift {ℓ} : {A : Type ℓ} → Result A → Flow A
lift (ok a) = next a
lift (err e) = fail e

-- `if test { return Ok(make_verdict(Deny, rule)) }`
abbrev pub deny_if : Request → Bool → Message → Flow (Unit {0})
deny_if r test rule = if test then halt (make_verdict r deny rule) else next tt

-- `if let Some(a) = o { … }`
abbrev pub with_some : {A : Type 0} → Option A → (A → Flow (Unit {0})) → Flow (Unit {0})
with_some none k = next tt
with_some (some a) k = k a

abbrev pub halt_if : Bool → Verdict → Flow (Unit {0})
halt_if test v = if test then halt v else next tt

abbrev pub when : Bool → Flow (Unit {0}) → Flow (Unit {0})
when test m = if test then m else next tt

abbrev pub finish : Flow Verdict → Result Verdict
finish (next v) = ok v
finish (halt v) = ok v
finish (fail e) = err e
