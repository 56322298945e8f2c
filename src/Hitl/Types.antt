-- ===== src/Hitl/Types.antt =====
-- crates/a2g-core/src/hitl.rs: the records of the approval protocol.
use a2g_cli.Base.{ℕ, ◌++◌}
use a2g_cli.Base.Text.{Text, codes}
use a2g_cli.Platform.{Platform, Time}
use a2g_cli.Mandate.Verify.{digest_hex}

abbrev pub pending_approval_ttl_minutes : ℕ
pending_approval_ttl_minutes = 5

pub record PendingApprovalBinding : Type 0 where
  pub binding_id : Text
  pub request_hash : Text
  pub escalate_to : Text
  pub ttl_expires_at : Time

pub record ApprovalGrant : Type 0 where
  pub binding_id : Text
  pub request_hash : Text
  pub approver_did : Text
  pub approver_pubkey : Text
  pub signature : Text
  pub expires_at : Text
  pub parent_receipt_hash : Text

pub record SignedBinding : Type 0 where
  pub binding : PendingApprovalBinding
  pub a2g_mac : Text

-- `compute_request_hash`
unfoldable pub compute_request_hash : Platform → Text → Text → Text → Text → Text
compute_request_hash p mandate_hash tool params_hash timestamp = digest_hex p (
    p.utf8 (
      codes "REQUEST:"
      ++ (mandate_hash
          ++ (codes ":" ++ (tool ++ (codes ":" ++ (params_hash ++ (codes ":" ++ timestamp))))))))
