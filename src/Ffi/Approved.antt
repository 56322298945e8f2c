-- ===== src/Ffi/Approved.antt =====
-- crates/a2g-ffi/src/lib.rs: when `a2g_decide_with_approval` returns Allow.
use a2g_cli.Base.{false, true, Option, some, ◌≡◌}
use a2g_cli.Base.Text.{Text}
use a2g_cli.Platform.{Platform}
use a2g_cli.Mandate.Types.{Bytes}
use a2g_cli.Hitl.Types.{ApprovalGrant, SignedBinding}
use a2g_cli.Hitl.Granted.{IsBound}
use a2g_cli.Enforce.Decide.{Call}
use a2g_cli.Ffi.Types.{cstr_to_str, TrustAnchorOwned}
use a2g_cli.Ffi.Decide.{Serde, Arguments}
use a2g_cli.Ffi.Sound.{Describes, IsApprovedCall}

-- What `a2g_decide_with_approval` needs to allow: arguments that read, a binding that verifies
-- under the gateway's key, and a call that phase 2 approves.
pub record MayApprove (p : Platform) (s : Serde) (a : Arguments)
    (signed_binding_json binding_pubkey grant_json : Option Bytes) : Type 0 where
  pub trust : TrustAnchorOwned
  pub call : Call
  pub key : Bytes
  pub binding_text : Text
  pub grant_text : Text
  pub signed : SignedBinding
  pub grant : ApprovalGrant
  pub trusting : a.trust ≡ some trust
  pub quiet : a.panics ≡ false
  pub key_given : binding_pubkey ≡ some key
  pub key_valid : p.is_verifying_key key ≡ true
  pub call_reads : Describes s a trust call
  pub binding_given : cstr_to_str s.to_str signed_binding_json ≡ some binding_text
  pub binding_reads : s.signed_binding_of_json binding_text ≡ some signed
  pub grant_given : cstr_to_str s.to_str grant_json ≡ some grant_text
  pub grant_reads : s.grant_of_json grant_text ≡ some grant
  pub binding_bound : IsBound p signed key
  pub approved : IsApprovedCall p signed.binding grant call
