-- ===== src/Ffi/Decide.antt =====
-- crates/a2g-ffi/src/lib.rs: `a2g_decide` and `a2g_decide_with_approval`.
use a2g_cli.Base.{Bool, Option, none, some, unwrap_or, if◌then◌else◌}
use a2g_cli.Base.Text.{Text, codes}
use a2g_cli.Error.{Message, Result, ok, err}
use a2g_cli.Platform.{Platform, Time}
use a2g_cli.Mandate.Types.{Bytes}
use a2g_cli.Vehicle.Types.{VerifiedVehicleState}
use a2g_cli.Hitl.Types.{PendingApprovalBinding, ApprovalGrant, SignedBinding}
use a2g_cli.Hitl.Binding.{verify_binding}
use a2g_cli.Enforce.Types.{Params, Verdict, FreshIds, noop_ledger}
use a2g_cli.Enforce.Decide.{Call, decide}
use a2g_cli.Enforce.Approval.{decide_with_approval}
use a2g_cli.Ffi.Types.{
  A2gDecision, code_of, code_error, cstr_to_str, TrustAnchorOwned, as_trust_anchor,
}
use a2g_cli.Ffi.Handle.{A2gVerdictHandle, new_handle, make_error_verdict}

-- serde_json and `CStr::to_str`.
pub record Serde : Type 0 where
  pub to_str : Bytes → Option Text
  pub params_of_json : Text → Option Params
  pub signed_binding_of_json : Text → Option SignedBinding
  pub grant_of_json : Text → Option ApprovalGrant
  pub binding_to_json : PendingApprovalBinding → Option Text

-- The arguments that both functions take, with the clock and the random ids that the call draws,
-- and whether one of the packages panics inside it.
pub record Arguments : Type 0 where
  pub mandate_cbor : Option Bytes
  pub tool : Option Bytes
  pub params_json : Option Bytes
  pub state : Option VerifiedVehicleState
  pub trust : Option TrustAnchorOwned
  pub has_out_verdict : Bool
  pub now : Time
  pub wall : Time
  pub ids : FreshIds
  pub panics : Bool

-- The returned code, and what is written to `*out_verdict`.
abbrev pub Answer : Type 0
Answer = A2gDecision × Option A2gVerdictHandle

abbrev pub write_out : Bool → A2gVerdictHandle → Option A2gVerdictHandle
write_out has_out h = if has_out then some h else none

abbrev pub error_answer : Arguments → Answer
error_answer a = (code_error, write_out a.has_out_verdict make_error_verdict)

-- `.ok()?` and `?` in the closure.
infixl 5 ◌>>=◌
abbrev pub ◌>>=◌ {ℓ κ} : {A : Type ℓ} {B : Type κ} → Option A → (A → Option B) → Option B
none >>= f = none
some a >>= f = f a

abbrev pub to_option {ℓ} : {A : Type ℓ} → Result A → Option A
to_option (ok a) = some a
to_option (err e) = none

-- `catch_unwind`: `none` is a caught panic.
abbrev pub catch_unwind {ℓ} : {A : Type ℓ} → Bool → A → Option A
catch_unwind panics a = if panics then none else some a

module _ (s : Serde) where
  unfoldable pub call_of : Arguments → TrustAnchorOwned → Option Call
  call_of a trust = do
    mandate ← a.mandate_cbor
    tool_s ← cstr_to_str (s.to_str) a.tool
    params ← s.params_of_json (unwrap_or (cstr_to_str (s.to_str) a.params_json) (codes "{}"))
    some (record {
      mandate_cbor = mandate;
      tool = tool_s;
      params = params;
      ledger = noop_ledger;
      now = a.now;
      verified_state = a.state;
      trust = as_trust_anchor trust;
      ids = a.ids;
      wall = a.wall;
    })

module _ (p : Platform) (s : Serde) where
  unfoldable pub decide_trusting : Arguments → TrustAnchorOwned → Option Verdict
  unfolding call_of
  decide_trusting a trust = call_of s a trust >>= λ c. to_option (decide p c)

  -- `SignedBinding::verify_json`
  unfoldable pub verify_json : Text → Bytes → Option PendingApprovalBinding
  verify_json json key = do
    signed ← s.signed_binding_of_json json
    to_option (verify_binding p signed key)

  unfoldable pub approve_trusting :
      Arguments → Option Bytes → Bytes → Option Bytes → TrustAnchorOwned → Option Verdict
  unfolding call_of verify_json
  approve_trusting a signed_binding_json key_bytes grant_json trust = do
    c ← call_of s a trust
    binding_s ← cstr_to_str (s.to_str) signed_binding_json
    grant_s ← cstr_to_str (s.to_str) grant_json
    gateway_binding_key ← if p.is_verifying_key key_bytes then some key_bytes else none
    pending ← verify_json binding_s gateway_binding_key
    grant ← s.grant_of_json grant_s
    to_option (decide_with_approval p pending grant c)

module _ (p : Platform) (s : Serde) (render : Message → Text) where
  abbrev pub answer_of : Arguments → Option (Option Verdict) → Answer
  answer_of a (some (some v)) =
      (code_of v.decision, write_out a.has_out_verdict (new_handle render (s.binding_to_json) v))
  answer_of a (some none) = error_answer a
  answer_of a none = error_answer a

  unfoldable pub decide_under : Arguments → Option TrustAnchorOwned → Answer
  unfolding decide_trusting
  decide_under a none = error_answer a
  decide_under a (some trust) = answer_of a (catch_unwind a.panics (decide_trusting p s a trust))

  unfoldable pub a2g_decide : Arguments → Answer
  unfolding decide_under
  a2g_decide a = decide_under a a.trust

  unfoldable pub approve_under :
      Arguments
      → (signed_binding_json grant_json : Option Bytes) → Option TrustAnchorOwned
      → Option Bytes
      → Answer
  unfolding approve_trusting
  approve_under a binding_json grant_json none key = error_answer a
  approve_under a binding_json grant_json (some trust) none = error_answer a
  approve_under a binding_json grant_json (some trust) (some key) =
      answer_of a (catch_unwind a.panics (approve_trusting p s a binding_json key grant_json trust))

  unfoldable pub a2g_decide_with_approval :
      Arguments → (signed_binding_json binding_pubkey grant_json : Option Bytes) → Answer
  unfolding approve_under
  a2g_decide_with_approval a signed_binding_json binding_pubkey grant_json =
      approve_under a signed_binding_json grant_json a.trust binding_pubkey
