-- ===== src/Cli/Commands/Govern.antt =====
-- crates/a2g-cli/src/main.rs: `cmd_revoke`, `cmd_propose`, `cmd_review`, `cmd_verify` and `cmd_receipt`.
use a2g_cli.Base.{ℕ, Bool, Option, some, ◌++◌, if◌then◌else◌}
use a2g_cli.Base.Text.{Text, codes, decimal}
use a2g_cli.Error.{
  and_then, internal, format, failure, say, end, Result, ok, err, ◌>>=◌ as bind, ok_or,
}
use a2g_cli.Platform.{Platform, Time}
use a2g_cli.Mandate.Types.{Bytes, Mandate, CborMandate}
use a2g_cli.Mandate.Verify.{digest_hex, parse_cbor_mandate_raw, verify_cbor_mandate}
use a2g_cli.Proposal.Types.{Proposal, status_name, risk_name, Review, ReviewCall, decision_name}
use a2g_cli.Proposal.Risk.{create_proposal}
use a2g_cli.Receipt.Types.{Receipt}
use a2g_cli.Receipt.Chain.{verify_receipt}
use a2g_cli.Identity.{validate_did}
use a2g_cli.Cli.Sign.{validate_ttl, review_file}
use a2g_cli.Cli.Ledger.Tables.{
  Ledger, ProposalEntry, revoke_mandate, log_authority_event, log_proposal,
}
use a2g_cli.Cli.Commands.Types.{Run, after, prints}

abbrev pub decoding : Result (Mandate × CborMandate) → Result (Mandate × CborMandate)
decoding (ok parsed) = ok parsed
decoding (err e) = err (internal (format "failed to decode mandate: {}" (failure e end)))

module _ (p : Platform) where
  -- The answer is the hash that is revoked.
  unfoldable pub cmd_revoke :
      (now : Text) (json_output : Bool) (mandate_cbor : Bytes) (reason : Text) → Ledger → Run Text
  unfolding parse_cbor_mandate_raw revoke_mandate prints
  cmd_revoke now json_output mandate_cbor reason db =
      after (some (decoding (parse_cbor_mandate_raw p mandate_cbor))) db (λ parsed.
        let hash = digest_hex p mandate_cbor in
        let revoked =
          revoke_mandate now parsed.0.mandate.agent_did hash parsed.0.mandate.issuer reason db in
        after (some revoked.0) revoked.1 (λ u. (prints json_output hash hash, revoked.1)))

  -- The exit code.
  unfoldable pub cmd_verify : (now : Time) (mandate_cbor : Bytes) → ℕ
  unfolding verify_cbor_mandate
  cmd_verify now mandate_cbor = elim (verify_cbor_mandate p mandate_cbor now) [
    | ok info ↦ 0
    | err e ↦ 1
  ]

  -- The exit code, for a receipt that has been read.
  unfoldable pub cmd_receipt : Receipt → ℕ
  unfolding verify_receipt
  cmd_receipt r = if verify_receipt p r then 0 else 1

  abbrev pub proposal_entry : (proposer_did : Text) → Proposal → ProposalEntry
  proposal_entry proposer_did prop = record {
    proposal_id = prop.proposal_id;
    proposer_did = proposer_did;
    mandate_hash = prop.mandate_hash;
    proposal_hash = prop.proposal_hash;
    status = status_name prop.status;
    risk_level = risk_name prop.risk_level;
    required_approvals = prop.required_approvals;
    created_at = prop.created_at;
  }

  abbrev pub propose_arguments :
      (bs58_decode : Text → Option Bytes) (parse_toml : Text → Option Mandate)
      (proposer_did mandate_body : Text) (ttl_hours : ℕ)
      → Result Mandate
  propose_arguments bs58_decode parse_toml proposer_did mandate_body ttl_hours =
      bind (validate_did p bs58_decode proposer_did) (λ a.
        bind (validate_ttl ttl_hours)
          (λ b. ok_or (parse_toml mandate_body) (internal (say "TOML parse error"))))

  -- `logged` is the clock's reading for the event; both entries follow the file's writing.
  unfoldable pub cmd_propose :
      (bs58_decode : Text → Option Bytes) (parse_toml : Text → Option Mandate)
      (to_lowercase : Text → Text) (hours : ℕ → Option ℕ) (now : Time) (proposal_id logged : Text)
      (json_output : Bool) (proposer_did name mandate_body justification : Text) (ttl_hours : ℕ)
      → Ledger
      → Run Proposal
  unfolding validate_ttl create_proposal log_proposal prints
  cmd_propose bs58_decode parse_toml to_lowercase hours now id logged json_output proposer_did name
        mandate_body justification ttl_hours db =
      after
        (and_then
          (some (propose_arguments bs58_decode parse_toml proposer_did mandate_body ttl_hours))
          (λ m.
            create_proposal to_lowercase p hours now id proposer_did name m mandate_body
              justification ttl_hours))
        db
        (λ prop.
          let told =
            log_authority_event p logged (codes "proposal_created") proposer_did proposer_did
              (codes "propose(risk="
                ++ (risk_name prop.risk_level
                    ++ (codes ", approvals_needed="
                        ++ (decimal prop.required_approvals ++ codes ")"))))
              prop.proposal_hash (codes "")
              (codes "name=" ++ (name ++ (codes ", justification=" ++ justification))) db in
          let entered = log_proposal (proposal_entry proposer_did prop) told in
          after (some entered.0) entered.1
            (λ u. (prints json_output prop.proposal_hash prop, entered.1)))

  -- With the review and the proposal that is written back. `logged` is the clock's reading for the
  -- event, which follows the file's writing.
  unfoldable pub cmd_review :
      (decision_lower logged : Text)
      → ReviewCall
      → (file : Proposal) → Ledger
      → Run (Review × Proposal)
  unfolding review_file
  cmd_review decision_lower logged c file db =
      after (some (review_file p decision_lower c file).0) db (λ review.
        let prop = (review_file p decision_lower c file).1 in
        (
          some (ok (review, prop)),
          log_authority_event p logged (codes "proposal_reviewed") review.reviewer_did
              prop.proposer_did
              (codes "review(decision="
                ++ (decision_name review.decision
                    ++ (codes ", status=" ++ (status_name prop.status ++ codes ")"))))
              prop.proposal_hash (codes "")
              (codes "reviewer=" ++ (c.reviewer_name ++ (codes ", reason=" ++ c.reason))) db,
        ))
