-- ===== src/Examples/Proposals.antt =====
-- The theorems on proposals, applied to a proposal that two keys review.
use a2g_cli.Base.{ℕ, ◌+◌, ◌++◌, ◌≡◌, refl, some, [], ◌∷◌, replicate, arith}
use a2g_cli.Base.Text.{
  digits_before, text_eq_refl, Text, codes, contains, starts_with, text_eq, decimal, join,
}
use a2g_cli.Error.{ok, err, mandate_expired}
use a2g_cli.Platform.{Platform}
use a2g_cli.Mandate.Types.{Mandate, tbs_to_mandate}
use a2g_cli.Proposal.Types.{medium, Proposal, ReviewCall, approve, pending, approved}
use a2g_cli.Proposal.Risk.{
  hash_input, create_proposal, assess_risk, risk_score, tools_risk, tool_risk, classify_risk,
}
use a2g_cli.Proposal.Review.{
  review_proposal, approvals, has_reviewed, push_review, make_review, reviewer_secret,
}
use a2g_cli.Proposal.Signed.{AllSign}
use a2g_cli.Proposal.Settled.{IsSettled, created, reviewed}
use a2g_cli.Proposal.Life.{create_proposal-IsSettled, CanApprove, review_each, review_each-approved}
use a2g_cli.Examples.{platform, tbs}
use a2g_cli.Examples.Texts.{length-toy}

-- Each key is its own public key.
abbrev keyring : Platform
keyring = record platform { public_key = λ k. k }

keyring-AllSign : AllSign keyring
keyring-AllSign key h = record {
  decodes = λ bs. refl;
  key_length = h;
  key_valid = refl;
  sign_length = length-toy;
  verifies = λ m. text_eq_refl (keyring.sign key m);
}

abbrev mandate_example : Mandate
mandate_example = tbs_to_mandate tbs

abbrev pub proposal : Proposal
proposal = record {
  proposal_id = codes "p";
  proposer_did = codes "did";
  proposal_name = codes "name";
  mandate_body = codes "body";
  mandate_hash = codes "body";
  justification = codes "why";
  risk_level = medium;
  required_approvals = 2;
  status = pending;
  reviews = [];
  created_at = replicate 7 b'x';
  expires_at = replicate 31 b'x';
  proposal_hash = codes "p:did:body:MEDIUM:2:xxxxxxx:" ++ replicate 31 b'x';
}

created_example :
    create_proposal
      (λ t. t)
      keyring
      (λ h. some h)
      7
      (codes "p")
      (codes "did")
      (codes "name")
      mandate_example
      (codes "body")
      (codes "why")
      24
    ≡ some (ok proposal)
unfolding create_proposal assess_risk risk_score tools_risk tool_risk classify_risk contains
    starts_with decimal digits_before hash_input join tbs_to_mandate
created_example = refl

abbrev pub review_by : ℕ → Text → ReviewCall
review_by k id = record {
  now = 8;
  reviewed = 9;
  review_id = id;
  secret_hex = replicate 32 k;
  reviewer_name = codes "reviewer";
  decision = approve;
  reason = codes "fine";
}

create_proposal-IsSettled_example :
    IsSettled keyring (review_proposal keyring (review_by 1 (codes "r")) proposal).1
create_proposal-IsSettled_example =
    create_proposal-IsSettled (λ t. t) keyring (λ h. some h) 7 (codes "p") (codes "did")
      (codes "name") mandate_example (codes "body") (codes "why") 24 proposal _ keyring-AllSign
      created_example (reviewed proposal (review_by 1 (codes "r")) created)

late :
    (review_proposal keyring (record (review_by 1 (codes "r")) { now = 31 }) proposal).0
    ≡ err mandate_expired
unfolding review_proposal
late = refl

CanApprove-first : CanApprove keyring (review_by 1 (codes "r")) proposal
unfolding reviewer_secret has_reviewed
CanApprove-first = record {
  secret = replicate 32 1;
  reads = refl;
  fresh = refl;
  expires = 31;
  parses = refl;
  in_time = omega arith;
  approves = refl;
}

CanApprove-second :
    CanApprove keyring
      (review_by 2 (codes "s"))
      (review_proposal keyring (review_by 1 (codes "r")) proposal).1
unfolding reviewer_secret has_reviewed review_proposal push_review make_review text_eq
CanApprove-second = record {
  secret = replicate 32 2;
  reads = refl;
  fresh = refl;
  expires = 31;
  parses = refl;
  in_time = omega arith;
  approves = refl;
}

none_yet : approvals [] + 2 ≡ 2
unfolding approvals
none_yet = refl

review_each-approved_example :
    (review_each keyring (review_by 1 (codes "r") ∷ review_by 2 (codes "s") ∷ []) proposal).status
    ≡ approved
review_each-approved_example =
    review_each-approved keyring (review_by 1 (codes "r")) (review_by 2 (codes "s") ∷ []) proposal
      refl (CanApprove-first, (CanApprove-second, tt)) none_yet
