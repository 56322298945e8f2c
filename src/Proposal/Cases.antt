-- ===== src/Proposal/Cases.antt =====
-- crates/a2g-core/src/proposal.rs: the ways a review can end.
use a2g_cli.Base.{
  inl, inr, ◌≡◌, refl, true, false, not, some, length, leb, Bool-cases, Option-cases,
}
use a2g_cli.Error.{Result-cases, A2gError, mandate_expired, Result, ok, err}
use a2g_cli.Platform.{Platform, Time}
use a2g_cli.Mandate.Types.{Bytes}
use a2g_cli.Mandate.Verify.{did_of_key}
use a2g_cli.Proposal.Types.{
  Proposal, Review, ReviewCall, ProposalStatus, pending, approved, rejected, expired, withdrawn,
  is_pending,
}
use a2g_cli.Proposal.Review.{
  push_review, has_reviewed, reviewer_secret, make_review, review_proposal,
}
use a2g_cli.Proposal.Signed.{reviewer_secret-length}

module _ (p : Platform) where
  -- A review is refused and leaves the proposal alone, finds it past its expiry, or is added.
  pub data Outcome (c : ReviewCall) (pr : Proposal) : Result Review × Proposal → Type 0 where
    refused : (fault : A2gError) → Outcome c pr (err fault, pr)
    lapsed :
        (expires : Time)
        → pr.status ≡ pending
        → p.parse_time pr.expires_at ≡ some expires
        → leb expires c.now ≡ true
        → Outcome c pr (err mandate_expired, record pr { status = expired })
    added :
        (secret : Bytes)
        → pr.status ≡ pending
        → length secret ≡ 32
        → has_reviewed pr (did_of_key p (p.public_key secret)) ≡ false
        → Outcome c pr (ok (make_review p c secret pr), push_review pr (make_review p c secret pr))

  is_pending-eq : (s : ProposalStatus) → not (is_pending s) ≡ false → s ≡ pending
  is_pending-eq pending h = refl
  is_pending-eq approved h = cc
  is_pending-eq rejected h = cc
  is_pending-eq expired h = cc
  is_pending-eq withdrawn h = cc

  pub review_proposal-Outcome :
      (c : ReviewCall) (pr : Proposal) → Outcome c pr (review_proposal p c pr)
  unfolding review_proposal
  review_proposal-Outcome c pr = elim (Bool-cases (not (is_pending pr.status))) [
    | inl e ↦ rw e (refused _)
    | inr e ↦ elim (Option-cases (p.parse_time pr.expires_at)) [
      | inl t ↦ rw (e, t) (refused _)
      | inr (x, t) ↦ elim (Bool-cases (leb x c.now)) [
        | inl l ↦ rw (e, t, l) (lapsed x (is_pending-eq pr.status e) t l)
        | inr l ↦ elim (Result-cases (reviewer_secret p c.secret_hex)) [
          | inl (f, s) ↦ rw (e, t, l, s) (refused f)
          | inr (secret, s) ↦
              elim (Bool-cases (has_reviewed pr (did_of_key p (p.public_key secret)))) [
                | inl r ↦ rw (e, t, l, s, r) (refused _)
                | inr r ↦
                    rw (e, t, l, s, r)
                      (added secret (is_pending-eq pr.status e)
                        (reviewer_secret-length p c.secret_hex secret s) r)
              ]
        ]
      ]
    ]
  ]
