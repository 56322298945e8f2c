-- ===== src/Receipt/Chain.antt =====
-- crates/a2g-core/src/receipt.rs: making a receipt, and verifying receipts and chains of them.
use a2g_cli.Base.{ℕ, suc, Bool, Option, List, [], ◌∷◌, unwrap_or}
use a2g_cli.Base.Text.{Text, text_eq}
use a2g_cli.Error.{Message, format, say, number, end, internal, Result, ok, ◌>>◌, ensure}
use a2g_cli.Platform.{Platform, Time}
use a2g_cli.Mandate.Verify.{digest_hex}
use a2g_cli.Authority.Chain.{genesis_hash}
use a2g_cli.Enforce.Types.{Verdict}
use a2g_cli.Receipt.Types.{Receipt, trust_name, verdict_input, receipt_input}

module _ (p : Platform) (render : Message → Text) where
  -- `generate_receipt`, where `last` is the hash in `PREV_HASH`; the new receipt's hash takes its
  -- place. A rule is stored as the text that its message renders to.
  unfoldable pub generate_receipt :
      (last : Option Text) (receipt_id : Text) (now : Time) → Verdict → Receipt
  unfolding verdict_input
  generate_receipt last receipt_id now v =
      let prev = unwrap_or last genesis_hash in
      let policy_hash = digest_hex p (p.utf8 (render v.policy_rule)) in
      record {
        receipt_id = receipt_id;
        verdict_id = v.verdict_id;
        agent_did = v.agent_did;
        tool = v.tool;
        params_hash = v.params_hash;
        decision = v.decision;
        policy_rule = render v.policy_rule;
        policy_hash = policy_hash;
        timestamp = p.to_rfc3339 now;
        prev_hash = prev;
        receipt_hash =
            digest_hex p (p.utf8 (verdict_input v receipt_id policy_hash (p.to_rfc3339 now) prev));
        mandate_hash = v.mandate_hash;
        proposal_hash = v.proposal_hash;
        delegation_chain_hash = v.delegation_chain_hash;
        issuer_did = v.issuer_did;
        authority_level = v.authority_level;
        scope_hash = v.scope_hash;
        correlation_id = v.correlation_id;
        parent_receipt_hash = v.parent_receipt_hash;
        state_trust = trust_name v.state_trust;
      }

module _ (p : Platform) where
  unfoldable pub verify_receipt : Receipt → Bool
  unfolding receipt_input
  verify_receipt r = text_eq (digest_hex p (p.utf8 (receipt_input r))) r.receipt_hash

  -- The loop over `receipts.iter().enumerate()`.
  unfoldable pub check_hashes : ℕ → List Receipt → Result (Unit {0})
  unfolding verify_receipt
  check_hashes i [] = ok tt
  check_hashes i (r ∷ rs) =
      ensure (verify_receipt r) (internal (format "receipt {} has invalid hash" (number i end)))
      >> check_hashes (suc i) rs

  -- The loop over `receipts.windows(2).enumerate()`.
  unfoldable pub check_links : ℕ → List Receipt → Result (Unit {0})
  check_links i [] = ok tt
  check_links i (r ∷ []) = ok tt
  check_links i (r ∷ s ∷ rs) =
      ensure (text_eq s.prev_hash r.receipt_hash) (
        internal (
          format "chain broken at receipt {}: prev_hash does not match previous receipt_hash"
            (number (suc i) end)))
      >> check_links (suc i) (s ∷ rs)

  unfoldable pub verify_receipts : List Receipt → Result (Unit {0})
  unfolding check_hashes check_links
  verify_receipts [] = ok tt
  verify_receipts (r ∷ rs) =
      ensure (text_eq r.prev_hash genesis_hash)
        (internal (say "first receipt does not point to genesis hash"))
      >> (check_hashes 0 (r ∷ rs) >> check_links 0 (r ∷ rs))
