-- ===== src/Proposal/Life.antt =====
-- crates/a2g-core/src/proposal.rs: a proposal from its creation to its approval.
use a2g_cli.Base.{
  ap, ◌∙◌, ◌++◌, if◌then◌else◌, ℕ, suc, ◌+◌, ◌<◌, ◌⊎◌, inl, inr, ◌≡◌, refl, true, false, Option,
  some, List, [], ◌∷◌, length, leb, arith,
}
use a2g_cli.Base.Text.{Text}
use a2g_cli.Error.{A2gError, mandate_expired, Result, ok, err}
use a2g_cli.Platform.{Platform, Time}
use a2g_cli.Mandate.Types.{Bytes, Mandate}
use a2g_cli.Mandate.Verify.{did_of_key}
use a2g_cli.Proposal.Types.{
  is_pending, ReviewDecision, Proposal, Review, ReviewCall, approve, reject, request_changes,
  pending, approved, expired, RiskLevel, low, medium, high, critical, approvals_for,
}
use a2g_cli.Proposal.Risk.{create_proposal, assess_risk, classify_risk, risk_score}
use a2g_cli.Proposal.Review.{
  approvals, settle, push_review, has_reviewed, reviewer_secret, make_review, review_proposal,
}
use a2g_cli.Proposal.Signed.{AllSign}
use a2g_cli.Proposal.Cases.{Outcome, refused, lapsed, added, review_proposal-Outcome}
use a2g_cli.Proposal.Settled.{IsSettled, Reached, Reached-IsSettled, approvals-push}

approvals_for-positive : (l : RiskLevel) → 0 < approvals_for l
approvals_for-positive low = omega arith
approvals_for-positive medium = omega arith
approvals_for-positive high = omega arith
approvals_for-positive critical = omega arith

-- What a created proposal starts with.
create_proposal-fields :
    (lower : Text → Text) (p : Platform) (hours : ℕ → Option ℕ) (now : Time)
    (id proposer name : Text) (m : Mandate) (body why : Text) (ttl : ℕ) (pr : Proposal)
    → create_proposal lower p hours now id proposer name m body why ttl ≡ some (ok pr)
    → (level : RiskLevel) × (pr.reviews ≡ [])
      × (pr.status ≡ pending)
      × (pr.required_approvals ≡ approvals_for level)
unfolding create_proposal assess_risk
create_proposal-fields lower p hours now id proposer name m body why ttl pr h =
    (classify_risk (risk_score lower m), ground arith, ground arith, ground arith)

-- Whatever reviews are submitted to a proposal after its creation, and whenever: no reviewer is
-- counted twice; an approved proposal has exactly the approvals that it requires and no rejection,
-- a pending or expired one fewer and no rejection, a rejected one a rejection; it is never
-- withdrawn; and every review in it verifies for this proposal and was made over the mandate text
-- that the proposal holds. Keys of 32 bytes are assumed to sign.
pub create_proposal-IsSettled :
    (lower : Text → Text) (p : Platform) (hours : ℕ → Option ℕ) (now : Time)
    (id proposer name : Text) (m : Mandate) (body why : Text) (ttl : ℕ) (start pr : Proposal)
    → AllSign p
    → create_proposal lower p hours now id proposer name m body why ttl ≡ some (ok start)
    → Reached p start pr
    → IsSettled p pr
unfolding approvals
create_proposal-IsSettled lower p hours now id proposer name m body why ttl start pr sg h r =
    let (level, e1, e2, e3) =
      create_proposal-fields lower p hours now id proposer name m body why ttl start h in
    Reached-IsSettled p start pr sg
      (record {
        distinct = rw e1 tt;
        settled = rw (e1, e2, e3) (approvals_for-positive level, refl);
        signed = rw e1 tt;
      })
      r

-- A review that fails leaves the proposal as it is, but for a pending proposal that has reached its
-- expiry: it is marked expired, and the error says so.
pub review_proposal-failed :
    (p : Platform) (c : ReviewCall) (pr : Proposal) (e : A2gError)
    → (review_proposal p c pr).0 ≡ err e
    → ((review_proposal p c pr).1 ≡ pr)
      ⊎ (e ≡ mandate_expired)
        × (pr.status ≡ pending)
        × ((review_proposal p c pr).1 ≡ record pr { status = expired })
review_proposal-failed p c pr e h =
    failed (review_proposal p c pr) (review_proposal-Outcome p c pr) h
  where
    failed :
        (out : Result Review × Proposal)
        → Outcome p c pr out
        → out.0 ≡ err e
        → (out.1 ≡ pr)
          ⊎ (e ≡ mandate_expired) × (pr.status ≡ pending) × (out.1 ≡ record pr { status = expired })
    failed out (refused fault) h = inl refl
    failed out (lapsed x live t l) h = inr (cc, live, refl)
    failed out (added secret live len fresh) h = cc

module _ (p : Platform) where
  -- The proposal after a sequence of reviews.
  unfoldable pub review_each : List ReviewCall → Proposal → Proposal
  review_each [] pr = pr
  review_each (c ∷ cs) pr = review_each cs (review_proposal p c pr).1

  -- Each call in turn approves before the expiry, with a key that reads and has not reviewed yet.
  pub record CanApprove (c : ReviewCall) (pr : Proposal) : Type 0 where
    pub secret : Bytes
    pub reads : reviewer_secret p c.secret_hex ≡ ok secret
    pub fresh : has_reviewed pr (did_of_key p (p.public_key secret)) ≡ false
    pub expires : Time
    pub parses : p.parse_time pr.expires_at ≡ some expires
    pub in_time : c.now < expires
    pub approves : c.decision ≡ approve

  abbrev pub Approvers : List ReviewCall → Proposal → Type 0
  Approvers [] pr = Unit
  Approvers (c ∷ cs) pr = CanApprove c pr × Approvers cs (review_proposal p c pr).1

-- What an approval in time does to a pending proposal.
review_proposal-approves :
    (p : Platform) (c : ReviewCall) (pr : Proposal) (h : CanApprove p c pr)
    → pr.status ≡ pending
    → (review_proposal p c pr).1 ≡ push_review pr (make_review p c h.secret pr)
unfolding review_proposal
review_proposal-approves p c pr h live =
    let late : leb h.expires c.now ≡ false = ground (arith, h.in_time) in
    let alive : is_pending pr.status ≡ true = ap is_pending live in
    rw (alive, h.parses, late, h.reads, h.fresh) refl

decision-make_review :
    (p : Platform) (c : ReviewCall) (secret : Bytes) (pr : Proposal)
    → c.decision ≡ approve
    → (make_review p c secret pr).decision ≡ approve
unfolding make_review
decision-make_review p c secret pr e = e

settle-approve :
    (pr : Proposal) (d : ReviewDecision) (n : ℕ)
    → d ≡ approve
    → approvals pr.reviews ≡ n
    → settle pr d ≡ (if leb pr.required_approvals n then approved else pr.status)
unfolding settle
settle-approve pr approve n e k = rw k refl
settle-approve pr reject n e k = cc
settle-approve pr request_changes n e k = cc

push_review-approve :
    (pr : Proposal) (r : Review)
    → r.decision ≡ approve
    → pr.status ≡ pending
    → (approvals (push_review pr r).reviews ≡ suc (approvals pr.reviews))
      × ((push_review pr r).required_approvals ≡ pr.required_approvals)
      × ((push_review pr r).status
          ≡ (if leb pr.required_approvals (suc (approvals pr.reviews)) then approved else pending))
unfolding push_review settle
push_review-approve pr r e live =
    let n : approvals (pr.reviews ++ (r ∷ [])) ≡ suc (approvals pr.reviews) =
      rw (approvals-push pr.reviews r, e) refl in
    let pushed : Proposal = record pr { reviews = pr.reviews ++ (r ∷ []) } in
    (
      n,
      refl,
      settle-approve pushed r.decision _ e n
          ∙ ap (λ s. if leb pr.required_approvals (suc (approvals pr.reviews)) then approved else s)
              live,
    )

-- With as many approvers in turn as approvals are missing, at least one, a pending proposal becomes
-- approved.
pub review_each-approved :
    (p : Platform) (c : ReviewCall) (cs : List ReviewCall) (pr : Proposal)
    → pr.status ≡ pending
    → Approvers p (c ∷ cs) pr
    → approvals pr.reviews + length (c ∷ cs) ≡ pr.required_approvals
    → (review_each p (c ∷ cs) pr).status ≡ approved
unfolding review_each
review_each-approved p c [] pr live (h, hs) missing =
    let (n, k, st) =
      push_review-approve pr (make_review p c h.secret pr)
        (decision-make_review p c h.secret pr h.approves) live in
    rw (review_proposal-approves p c pr h live, st) (ground arith)
review_each-approved p c (c' ∷ cs) pr live (h, hs) missing =
    let (n, k, st) =
      push_review-approve pr (make_review p c h.secret pr)
        (decision-make_review p c h.secret pr h.approves) live in
    let e = review_proposal-approves p c pr h live in
    review_each-approved p c' cs (review_proposal p c pr).1 (rw (e, st) (ground (arith, missing)))
      hs (rw (e, n, k) (omega (arith, missing)))
