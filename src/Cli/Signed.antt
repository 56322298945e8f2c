-- ===== src/Cli/Signed.antt =====
-- crates/a2g-cli/src/main.rs: what a signed mandate rests on, and what a proposal's file never says.
use Prim.Native.Nat.{min}
use a2g_cli.Base.{
  [], ◌∷◌, Bool-cases, ◌++◌, length, ℕ, ◌≤◌, ◌^◌, ◌-◌, ◌≡◌, refl, ◌≢◌, Bool, true, false, not,
  Option, some, leb, ◌==◌, Option-cases, inl, inr, arith,
}
use a2g_cli.Base.Text.{Text, text_eq, text_eq→eq, trim}
use a2g_cli.Error.{or_panic-eq-ok, and_then-eq-ok, Result, ok, ensure-eq-ok, >>-eq-ok, ok_or-eq-ok}
use a2g_cli.Platform.{Platform, Time}
use a2g_cli.Mandate.Types.{Bytes, MandateTbs, CborMandate, Mandate, tbs_to_mandate}
use a2g_cli.Mandate.Verify.{parse_cbor_mandate_raw, verify_cbor_signature}
use a2g_cli.Proposal.Types.{
  ReviewDecision, Proposal, ProposalStatus, pending, approved, rejected, expired, withdrawn, Review,
  ReviewCall, ReviewDecision, approve, reject, request_changes,
}
use a2g_cli.Proposal.Review.{approvals, push_review, settle, make_review}
use a2g_cli.Proposal.Signed.{AllSign}
use a2g_cli.Proposal.Cases.{Outcome, refused, lapsed, added, review_proposal-Outcome}
use a2g_cli.Cli.Compile.{
  signing_secret, compile_for, compile_mandate, mandate_body_hash, mandate_tbs,
}
use a2g_cli.Cli.Compiled.{ReadsBack, compile_for-parses}
use a2g_cli.Cli.Sign.{
  validate_ttl, is_approved, is_past, accept_proposal, with_proposal, checked_input,
  proposal_hash_for_tbs, cmd_sign, review_file, write_if_ok, parse_decision,
}

validate_ttl-eq-ok : (ttl : ℕ) → validate_ttl ttl ≡ ok tt → (1 ≤ ttl) × (ttl ≤ 8760)
unfolding validate_ttl
validate_ttl-eq-ok ttl h = let (a, k) = ensure-eq-ok (not (ttl == 0)) _ _ h in ground (arith, a, k)

is_approved-eq-true : (s : ProposalStatus) → is_approved s ≡ true → s ≡ approved
is_approved-eq-true approved h = refl
is_approved-eq-true pending h = cc
is_approved-eq-true rejected h = cc
is_approved-eq-true expired h = cc
is_approved-eq-true withdrawn h = cc

-- What `cmd_sign` has checked of a proposal.
pub record IsAcceptable (p : Platform) (parse_from_rfc3339 : Text → Option Time) (now : Time)
    (toml : Text) (prop : Proposal) : Type 0 where
  pub is_approved : prop.status ≡ approved
  pub in_time : is_past (parse_from_rfc3339 prop.expires_at) now ≡ false
  pub same_body : mandate_body_hash p toml ≡ prop.mandate_hash

accept_proposal-IsAcceptable :
    (p : Platform) (parse_from_rfc3339 : Text → Option Time) (json : Bool) (now : Time)
    (toml : Text) (prop : Proposal) (hash : Text)
    → accept_proposal p parse_from_rfc3339 json now toml prop ≡ some (ok hash)
    → IsAcceptable p parse_from_rfc3339 now toml prop × (hash ≡ prop.proposal_hash)
unfolding accept_proposal
accept_proposal-IsAcceptable p parse_from_rfc3339 json now toml prop hash h =
    let status : is_approved prop.status ≡ true = ground (arith, h) in
    let time : is_past (parse_from_rfc3339 prop.expires_at) now ≡ false = ground (arith, h) in
    let body : text_eq (mandate_body_hash p toml) prop.mandate_hash ≡ true = ground (arith, h) in
    let same : hash ≡ prop.proposal_hash = ground (arith, h) in
    (
      record {
        is_approved = is_approved-eq-true prop.status status;
        in_time = time;
        same_body = text_eq→eq (mandate_body_hash p toml) prop.mandate_hash body;
      },
      same,
    )

module _ (p : Platform) (encode_tbs : MandateTbs → Option Bytes)
    (encode_envelope : CborMandate → Option Bytes) where
  compile_mandate-eq-ok :
      (hours : ℕ → Option ℕ) (now : Time) (m : Mandate) (key_hex : Text) (ttl : ℕ)
      (proposal_hash : Text) {cbor : Bytes}
      → compile_mandate p encode_tbs encode_envelope hours now m key_hex ttl proposal_hash
        ≡ some (ok cbor)
      → (secret : Bytes) × (secs : ℕ) × (signing_secret p key_hex ≡ ok secret)
        × (compile_for p encode_tbs encode_envelope now secs secret proposal_hash m ≡ ok cbor)
  unfolding compile_mandate
  compile_mandate-eq-ok hours now m key_hex ttl proposal_hash h =
      let (secret, s, h1) = and_then-eq-ok (some (signing_secret p key_hex)) _ h in
      let (secs, n, h2) = or_panic-eq-ok (hours (min ttl (2 ^ 63 - 1))) _ h1 in
      (secret, secs, ground (arith, s), ground (arith, h2))

  signing_secret-length :
      (key_hex : Text) (secret : Bytes) → signing_secret p key_hex ≡ ok secret → length secret ≡ 32
  unfolding signing_secret
  signing_secret-length key_hex secret h =
      let (bs, e, h1) = ok_or-eq-ok (p.hex_decode (trim key_hex)) _ _ h in
      let (l, h2) = ensure-eq-ok (length bs == 32) _ _ h1 in ground arith

  -- A mandate that `cmd_sign` signs under a proposal rests on an approved proposal whose mandate text
  -- is, by its hash, the text that was signed, and that is not past an expiry that reads; its
  -- lifetime is 1 to 8760 hours, and it reads back with the proposal's hash in it and a signature
  -- that verifies. The encoders and time stamps are assumed to read back, and keys to sign.
  pub cmd_sign-IsAcceptable :
      (hours : ℕ → Option ℕ) (parse_toml : Text → Option Mandate)
      (parse_from_rfc3339 : Text → Option Time) (now compiled : Time) (json : Bool) (ttl : ℕ)
      (prop : Proposal) (toml key_text : Text) (cbor : Bytes)
      → ReadsBack p encode_tbs encode_envelope
      → AllSign p
      → cmd_sign p encode_tbs encode_envelope hours parse_toml parse_from_rfc3339 now compiled json
          ttl
          (with_proposal prop)
          toml
          key_text
        ≡ some (ok cbor)
      → IsAcceptable p parse_from_rfc3339 now toml prop
        × (1 ≤ ttl)
        × (ttl ≤ 8760)
        × (m : Mandate) × (envelope : CborMandate) × (parse_cbor_mandate_raw p cbor
            ≡ ok (m, envelope))
        × (m.mandate.proposal_hash ≡ prop.proposal_hash)
        × (verify_cbor_signature p envelope ≡ ok tt)
  unfolding cmd_sign proposal_hash_for_tbs tbs_to_mandate mandate_tbs
  cmd_sign-IsAcceptable hours parse_toml parse_from_rfc3339 now compiled json ttl prop toml key_text
        cbor back sg h =
      let (m, e, h1) =
        and_then-eq-ok
          (some (
            checked_input p encode_tbs encode_envelope hours parse_toml parse_from_rfc3339 ttl
              (with_proposal prop) toml))
          _ h in
      let (hash, e1, h2) =
        and_then-eq-ok
          (proposal_hash_for_tbs p encode_tbs encode_envelope hours parse_toml parse_from_rfc3339
            json now toml (with_proposal prop))
          _ h1 in
      let (good, same) =
        accept_proposal-IsAcceptable p parse_from_rfc3339 json now toml prop hash e1 in
      let checked : checked_input p encode_tbs encode_envelope hours parse_toml parse_from_rfc3339
            ttl (with_proposal prop) toml
          ≡ ok m =
        ground (arith, e) in
      let (t, _) = >>-eq-ok (validate_ttl ttl) _ checked in
      let (low, high) = validate_ttl-eq-ok ttl t in
      let (secret, secs, s, k) =
        compile_mandate-eq-ok hours compiled m (trim key_text) ttl hash h2 in
      let (caps, bytes, parses, verifies) =
        compile_for-parses p encode_tbs encode_envelope compiled secs secret hash m cbor back
          (sg secret (signing_secret-length (trim key_text) secret s)) k in
      (good, low, high, _, _, parses, same, verifies)

settle-not_expired :
    (pr : Proposal) (d : ReviewDecision) → pr.status ≢ expired → settle pr d ≢ expired
unfolding settle
settle-not_expired pr approve h =
    elim (Bool-cases (leb pr.required_approvals (approvals pr.reviews))) [
      | inl b ↦ rw b (λ e. cc)
      | inr b ↦ rw b h
    ]
settle-not_expired pr reject h = λ e. cc
settle-not_expired pr request_changes h = h

push_review-not_expired :
    (pr : Proposal) (r : Review) → pr.status ≢ expired → (push_review pr r).status ≢ expired
unfolding push_review
push_review-not_expired pr r h =
    settle-not_expired (record pr { reviews = pr.reviews ++ (r ∷ []) }) r.decision h

write_if_ok-not_expired :
    (p : Platform) (c : ReviewCall) (file : Proposal) (out : Result Review × Proposal)
    → Outcome p c file out
    → file.status ≢ expired
    → (write_if_ok file out).1.status ≢ expired
unfolding push_review settle
write_if_ok-not_expired p c file out (refused fault) h = h
write_if_ok-not_expired p c file out (lapsed x live t l) h = h
write_if_ok-not_expired p c file out (added secret live len fresh) h =
    push_review-not_expired file (make_review p c secret file) h

-- `a2g review` never writes a proposal as expired: the status that `review_proposal` sets on a lapsed
-- proposal is lost, since the error returns before the file is written.
pub review_file-not_expired :
    (p : Platform) (decision_lower : Text) (c : ReviewCall) (file : Proposal)
    → file.status ≢ expired
    → (review_file p decision_lower c file).1.status ≢ expired
unfolding review_file
review_file-not_expired p decision_lower c file h =
    elim (Option-cases (parse_decision decision_lower)) [
      | inl n ↦ rw (review_file, n) h
      | inr (d, n) ↦
          rw (review_file, n)
            (write_if_ok-not_expired p _ file _ (review_proposal-Outcome p _ file) h)
    ]
