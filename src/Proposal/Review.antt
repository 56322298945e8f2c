-- ===== src/Proposal/Review.antt =====
-- crates/a2g-core/src/proposal.rs: submitting a review of a proposal, and verifying one.
use a2g_cli.Base.{
  ℕ, suc, Bool, not, none, some, List, [], ◌∷◌, ◌++◌, any, length, leb, ◌==◌, if◌then◌else◌,
}
use a2g_cli.Base.Text.{Text, codes, text_eq, join}
use a2g_cli.Error.{
  mandate_invalid, mandate_expired, hex_decode_error, invalid_key, signature_invalid, format, say,
  text, end, Result, ok, err, ◌>>=◌, ◌>>◌, ensure, ok_or,
}
use a2g_cli.Platform.{Platform}
use a2g_cli.Mandate.Types.{Bytes}
use a2g_cli.Mandate.Verify.{digest_hex, did_of_key}
use a2g_cli.Proposal.Types.{
  Proposal, Review, ReviewCall, ReviewDecision, approve, reject, request_changes, ProposalStatus,
  approved, rejected, expired, is_pending, is_approve, status_name, risk_name, decision_name,
}

-- The approvals among the reviews.
unfoldable pub approvals : List Review → ℕ
approvals [] = 0
approvals (r ∷ rs) = let rest = approvals rs in if is_approve r.decision then suc rest else rest

-- The status after a review with this decision has been pushed.
unfoldable pub settle : Proposal → ReviewDecision → ProposalStatus
unfolding approvals
settle pr reject = rejected
settle pr approve = if leb pr.required_approvals (approvals pr.reviews) then approved else pr.status
settle pr request_changes = pr.status

unfoldable pub push_review : Proposal → Review → Proposal
unfolding settle
push_review pr r =
    let pushed : Proposal = record pr { reviews = pr.reviews ++ (r ∷ []) } in
    record pushed { status = settle pushed r.decision }

unfoldable pub has_reviewed : Proposal → Text → Bool
has_reviewed pr did = any (λ r. text_eq r.reviewer_did did) pr.reviews

module _ (p : Platform) where
  -- The text that is signed, for a review and the hash of its proposal.
  unfoldable pub review_payload : Review → Text → Text
  review_payload r proposal_hash =
      codes "REVIEW:"
      ++ join (codes ":") (
          r.review_id
          ∷ r.reviewer_did
          ∷ proposal_hash
          ∷ decision_name r.decision
          ∷ r.reason
          ∷ r.reviewed_at
          ∷ r.mandate_view_hash
          ∷ [])

  unfoldable pub reviewer_secret : Text → Result Bytes
  reviewer_secret secret_hex = do
    secret ← ok_or (p.hex_decode secret_hex) hex_decode_error
    ensure (length secret == 32) invalid_key
    ok secret

  unfoldable pub make_review : ReviewCall → Bytes → Proposal → Review
  unfolding review_payload
  make_review c secret pr =
      let view = digest_hex p (p.utf8 pr.mandate_body) in
      let unsigned : Review = record {
        review_id = c.review_id;
        reviewer_did = did_of_key p (p.public_key secret);
        reviewer_name = c.reviewer_name;
        decision = c.decision;
        reason = c.reason;
        reviewed_at = p.to_rfc3339 c.reviewed;
        signature = [];
        reviewer_pubkey = p.hex_encode (p.public_key secret);
        mandate_view_hash = view;
        approval_context_hash =
            digest_hex p
              (p.utf8 (join (codes ":") (view ∷ risk_name pr.risk_level ∷ pr.proposal_hash ∷ [])));
      } in
      record unsigned {
        signature =
            p.hex_encode (p.sign secret (p.utf8 (review_payload unsigned pr.proposal_hash)));
      }

  -- `review_proposal`, with the proposal that it leaves behind.
  unfoldable pub review_proposal : ReviewCall → Proposal → Result Review × Proposal
  unfolding reviewer_secret make_review push_review has_reviewed
  review_proposal c pr =
      if not (is_pending pr.status)
      then (
        err (
            mandate_invalid
              (format "proposal is not pending (status: {})" (text (status_name pr.status) end))),
        pr,
      )
      else elim (p.parse_time pr.expires_at) [
        | none ↦ (err (mandate_invalid (say "invalid proposal expires_at")), pr)
        | some expires ↦
            if leb expires c.now
            then (err mandate_expired, record pr { status = expired })
            else elim (reviewer_secret c.secret_hex) [
              | err fault ↦ (err fault, pr)
              | ok secret ↦
                  if has_reviewed pr (did_of_key p (p.public_key secret))
                  then (err (mandate_invalid (say "reviewer has already submitted a review")), pr)
                  else (ok (make_review c secret pr), push_review pr (make_review c secret pr))
            ]
      ]

  unfoldable pub verify_review : Review → Text → Result (Unit {0})
  unfolding review_payload
  verify_review r proposal_hash = do
    key ← ok_or (p.hex_decode r.reviewer_pubkey) hex_decode_error
    ensure (length key == 32) invalid_key
    ensure (p.is_verifying_key key) invalid_key
    sig ← ok_or (p.hex_decode r.signature) hex_decode_error
    ensure (length sig == 64) signature_invalid
    ensure (p.verify key (p.utf8 (review_payload r proposal_hash)) sig) signature_invalid
