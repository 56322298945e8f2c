-- ===== src/Proposal/Signed.antt =====
-- crates/a2g-core/src/proposal.rs: a review that was made verifies.
use a2g_cli.Base.{arith, ◌≡◌, refl, length, ◌==◌}
use a2g_cli.Base.Text.{Text}
use a2g_cli.Error.{ok, ensure-eq-ok, ok_or-eq-ok}
use a2g_cli.Platform.{Platform}
use a2g_cli.Mandate.Types.{Bytes}
use a2g_cli.Hitl.RoundTrip.{Signs}
use a2g_cli.Proposal.Types.{Proposal, ReviewCall}
use a2g_cli.Proposal.Review.{reviewer_secret, make_review, verify_review, review_payload}

-- What the reviews of a proposal rely on: every key of 32 bytes signs.
abbrev pub AllSign : Platform → Type 0
AllSign p = (key : Bytes) → length key ≡ 32 → Signs p key

pub reviewer_secret-length :
    (p : Platform) (t : Text) (secret : Bytes)
    → reviewer_secret p t ≡ ok secret
    → length secret ≡ 32
unfolding reviewer_secret
reviewer_secret-length p t secret h =
    let (bs, e, h1) = ok_or-eq-ok (p.hex_decode t) _ _ h in
    let (l, h2) = ensure-eq-ok (length bs == 32) _ _ h1 in ground arith

pub verify_review-make_review :
    (p : Platform) (c : ReviewCall) (secret : Bytes) (pr : Proposal)
    → Signs p secret
    → verify_review p (make_review p c secret pr) pr.proposal_hash ≡ ok tt
unfolding verify_review make_review review_payload
verify_review-make_review p c secret pr sg =
    rw
      (
        sg.decodes (p.public_key secret),
        sg.key_length,
        sg.key_valid,
        sg.decodes (p.sign secret _),
        sg.sign_length _,
        sg.verifies _,
      )
      refl
