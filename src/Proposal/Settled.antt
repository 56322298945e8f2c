-- ===== src/Proposal/Settled.antt =====
-- crates/a2g-core/src/proposal.rs: what holds of every proposal, whatever reviews are submitted.
use a2g_cli.Proposal.Cases.{added, lapsed, refused, review_proposal-Outcome, Outcome}
use mathlib.Core.Path.{subst}
use a2g_cli.Hitl.RoundTrip.{Signs}
use a2g_cli.Mandate.Types.{Bytes}
use a2g_cli.Base.{
  ℕ, suc, ◌<◌, ◌≡◌, refl, Bool, true, false, ◌||◌, List, [], ◌∷◌, ◌++◌, any, All, All-append, arith,
}
use a2g_cli.Base.Text.{text_eq_comm, Text, text_eq}
use a2g_cli.Error.{Result, ok}
use a2g_cli.Platform.{Platform}
use a2g_cli.Mandate.Verify.{digest_hex, did_of_key}
use a2g_cli.Proposal.Types.{
  Proposal, Review, ReviewCall, ProposalStatus, pending, approved, rejected, expired, withdrawn,
  is_approve, is_reject,
}
use a2g_cli.Proposal.Review.{
  approvals, settle, push_review, has_reviewed, make_review, review_proposal, verify_review,
}
use a2g_cli.Proposal.Signed.{AllSign, verify_review-make_review}

-- No two reviews are by the same reviewer.
abbrev pub Distinct : List Review → Type 0
Distinct [] = Unit
Distinct (r ∷ rs) = (any (λ s. text_eq s.reviewer_did r.reviewer_did) rs ≡ false) × Distinct rs

abbrev pub any_reject : List Review → Bool
any_reject rs = any (λ r. is_reject r.decision) rs

-- What a status says of the reviews and of the number of approvals that is required.
abbrev pub Settled : ProposalStatus → List Review → ℕ → Type 0
Settled pending rs required = (approvals rs < required) × (any_reject rs ≡ false)
Settled approved rs required = (approvals rs ≡ required) × (any_reject rs ≡ false)
Settled rejected rs required = (approvals rs < required) × (any_reject rs ≡ true)
Settled expired rs required = (approvals rs < required) × (any_reject rs ≡ false)
Settled withdrawn rs required = false ≡ true

-- Every review is signed for this proposal, and over the mandate text that the proposal holds.
abbrev pub IsReviewOf : Platform → Text → Text → Review → Type 0
IsReviewOf p body proposal_hash r =
    (verify_review p r proposal_hash ≡ ok tt) × (r.mandate_view_hash ≡ digest_hex p (p.utf8 body))

pub record IsSettled (p : Platform) (pr : Proposal) : Type 0 where
  pub distinct : Distinct pr.reviews
  pub settled : Settled pr.status pr.reviews pr.required_approvals
  pub signed : All (IsReviewOf p pr.mandate_body pr.proposal_hash) pr.reviews

pub approvals-push :
    (rs : List Review) (r : Review)
    → approvals (rs ++ (r ∷ []))
      ≡ (elim (is_approve r.decision) [ true ↦ suc (approvals rs) | false ↦ approvals rs ])
unfolding approvals
approvals-push [] r = ground arith
approvals-push (x ∷ rs) r = ground (arith, approvals-push rs r)

any-push :
    (f : Review → Bool) (rs : List Review) (r : Review) → any f (rs ++ (r ∷ [])) ≡ (any f rs || f r)
any-push f [] r = ground arith
any-push f (x ∷ rs) r = ground (arith, any-push f rs r)

Distinct-push :
    (rs : List Review) (r : Review)
    → Distinct rs
    → any (λ s. text_eq s.reviewer_did r.reviewer_did) rs ≡ false
    → Distinct (rs ++ (r ∷ []))
Distinct-push [] r d fresh = (refl, tt)
Distinct-push (x ∷ rs) r (d, ds) fresh =
    let e = any-push (λ s. text_eq s.reviewer_did x.reviewer_did) rs r in
    let c = text_eq_comm x.reviewer_did r.reviewer_did in
    (ground arith, Distinct-push rs r ds (ground arith))

push_review-Settled :
    (pr : Proposal) (r : Review)
    → Settled pending pr.reviews pr.required_approvals
    → pr.status ≡ pending
    → Settled (push_review pr r).status (push_review pr r).reviews pr.required_approvals
unfolding push_review settle
push_review-Settled pr r h e =
    ground (arith, approvals-push pr.reviews r, any-push (λ s. is_reject s.decision) pr.reviews r)

module _ (p : Platform) where
  -- The proposals that reviews lead to.
  pub data Reached (start : Proposal) : Proposal → Type 0 where
    created : Reached start start
    reviewed :
        (pr : Proposal) (c : ReviewCall)
        → Reached start pr
        → Reached start ((review_proposal p c pr).1)

  push_review-IsSettled :
      (pr : Proposal) (c : ReviewCall) (secret : Bytes)
      → Signs p secret
      → pr.status ≡ pending
      → has_reviewed pr (did_of_key p (p.public_key secret)) ≡ false
      → IsSettled p pr
      → IsSettled p (push_review pr (make_review p c secret pr))
  unfolding push_review has_reviewed make_review
  push_review-IsSettled pr c secret sg e fresh h = record {
    distinct = Distinct-push pr.reviews (make_review p c secret pr) h.distinct fresh;
    settled =
        push_review-Settled pr (make_review p c secret pr)
          (subst (λ s. Settled s pr.reviews pr.required_approvals) e h.settled) e;
    signed =
        All-append _ pr.reviews (make_review p c secret pr ∷ []) h.signed
          ((verify_review-make_review p c secret pr sg, refl), tt);
  }

  expire-IsSettled :
      (pr : Proposal)
      → pr.status ≡ pending
      → IsSettled p pr
      → IsSettled p (record pr { status = expired })
  expire-IsSettled pr e h = record {
    distinct = h.distinct;
    settled = subst (λ s. Settled s pr.reviews pr.required_approvals) e h.settled;
    signed = h.signed;
  }

  pub Outcome-IsSettled :
      (c : ReviewCall) (pr : Proposal) (out : Result Review × Proposal)
      → AllSign p
      → IsSettled p pr
      → Outcome p c pr out
      → IsSettled p out.1
  Outcome-IsSettled c pr out sg h (refused fault) = h
  Outcome-IsSettled c pr out sg h (lapsed x live t l) = expire-IsSettled pr live h
  Outcome-IsSettled c pr out sg h (added secret live len fresh) =
      push_review-IsSettled pr c secret (sg secret len) live fresh h

  pub Reached-IsSettled :
      (start pr : Proposal) → AllSign p → IsSettled p start → Reached start pr → IsSettled p pr
  Reached-IsSettled start pr sg h created = h
  Reached-IsSettled start out sg h (reviewed pr c r) =
      Outcome-IsSettled c pr _ sg (Reached-IsSettled start pr sg h r)
        (review_proposal-Outcome p c pr)
