-- ===== src/Cli/Sign.antt =====
-- crates/a2g-cli/src/main.rs: the commands that review a proposal and sign its mandate.
use a2g_cli.Base.{ℕ, Bool, true, false, not, ◌||◌, ◌==◌, Option, none, some, leb, if◌then◌else◌}
use a2g_cli.Base.Text.{Text, codes, text_eq, slice_to, trim}
use a2g_cli.Error.{
  and_then, mandate_invalid, internal, say, format, text, end, Result, ok, err, ensure, ok_or, ◌>>◌,
}
use a2g_cli.Platform.{Platform, Time}
use a2g_cli.Mandate.Types.{Bytes, MandateTbs, CborMandate, Mandate}
use a2g_cli.Proposal.Types.{
  Proposal, ProposalStatus, pending, approved, rejected, expired, withdrawn, status_name, Review,
  ReviewCall, ReviewDecision, approve, reject, request_changes,
}
use a2g_cli.Proposal.Review.{review_proposal}
use a2g_cli.Cli.Compile.{compile_mandate, mandate_body_hash}

unfoldable pub validate_ttl : ℕ → Result (Unit {0})
validate_ttl ttl = do
  ensure (not (ttl == 0)) (internal (say "TTL must be greater than 0"))
  ensure (leb ttl 8760) (internal (say "TTL exceeds maximum of 8760 hours (1 year)"))

abbrev pub is_approved : ProposalStatus → Bool
is_approved approved = true
is_approved pending = false
is_approved rejected = false
is_approved expired = false
is_approved withdrawn = false

-- `now >= expires`, if the text reads as a time stamp at all.
abbrev pub is_past : Option Time → Time → Bool
is_past none now = false
is_past (some expires) now = leb expires now

-- The part of `cmd_sign` on a proposal that has been read: the hash that goes into the mandate.
-- `parse_from_rfc3339` is chrono's. The answer `none` is the panic of the
-- slice for the printed line.
unfoldable pub accept_proposal :
    Platform
    → (parse_from_rfc3339 : Text → Option Time) (json_output : Bool) (now : Time) (toml : Text)
    → Proposal
    → Option (Result Text)
accept_proposal p parse_from_rfc3339 json_output now toml prop =
    if not (is_approved prop.status)
    then some (
        err (
          mandate_invalid
            (format "proposal is not approved (status: {})" (text (status_name prop.status) end))))
    else if is_past (parse_from_rfc3339 prop.expires_at) now
    then some (
        err (
          mandate_invalid
            (format "proposal has expired (expired at {})" (text prop.expires_at end))))
    else if not (text_eq (mandate_body_hash p toml) prop.mandate_hash)
    then some (
        err (
          mandate_invalid
            (say "mandate modified after proposal approval: hash mismatch (governance violation)")))
    else if json_output
    then some (ok prop.proposal_hash)
    else elim (slice_to 16 prop.proposal_hash) [
      | none ↦ none
      | some t ↦ some (ok prop.proposal_hash)
    ]

-- How `cmd_sign` is to be authorized: by a proposal file, by skipping the proposal, or not at all.
pub data SigningMode : Type 0 where
  with_proposal : Proposal → SigningMode
  skip_proposal : SigningMode
  unspecified : SigningMode

module _ (p : Platform) (encode_tbs : MandateTbs → Option Bytes)
    (encode_envelope : CborMandate → Option Bytes) (hours : ℕ → Option ℕ)
    (parse_toml : Text → Option Mandate) (parse_from_rfc3339 : Text → Option Time) where
  unfoldable pub proposal_hash_for_tbs :
      (json_output : Bool) (now : Time) (toml : Text) → SigningMode → Option (Result Text)
  unfolding accept_proposal
  proposal_hash_for_tbs json_output now toml (with_proposal prop) =
      accept_proposal p parse_from_rfc3339 json_output now toml prop
  proposal_hash_for_tbs json_output now toml skip_proposal = some (ok (codes ""))
  proposal_hash_for_tbs json_output now toml unspecified = some (
      err (
        internal (
          say
            "signing requires either --proposal <file> or --skip-proposal; the silent backwards-compatible mode has been removed")))

  abbrev pub checked_input : (ttl_hours : ℕ) → SigningMode → (toml : Text) → Result Mandate
  checked_input ttl_hours unspecified toml =
      validate_ttl ttl_hours
      >> err (
          internal (
            say
              "signing requires either --proposal <file> or --skip-proposal; the silent backwards-compatible mode has been removed"))
  checked_input ttl_hours (with_proposal prop) toml =
      validate_ttl ttl_hours >> ok_or (parse_toml toml) (internal (say "TOML parse error"))
  checked_input ttl_hours skip_proposal toml =
      validate_ttl ttl_hours >> ok_or (parse_toml toml) (internal (say "TOML parse error"))

  -- `cmd_sign` on files that can be read: the bytes that replace the mandate's text, at the two
  -- readings of the clock.
  unfoldable pub cmd_sign :
      (now compiled : Time) (json_output : Bool) (ttl_hours : ℕ)
      → SigningMode
      → (toml key_text : Text) → Option (Result Bytes)
  unfolding validate_ttl proposal_hash_for_tbs compile_mandate
  cmd_sign now compiled json_output ttl_hours mode toml key_text =
      and_then (some (checked_input ttl_hours mode toml)) (λ m.
        and_then (proposal_hash_for_tbs json_output now toml mode) (λ proposal_hash.
          compile_mandate p encode_tbs encode_envelope hours compiled m (trim key_text) ttl_hours
            proposal_hash))

-- The decision's text in lower case.
unfoldable pub parse_decision : Text → Option ReviewDecision
parse_decision t =
    if text_eq t (codes "approve")
    then some approve
    else if text_eq t (codes "reject")
    then some reject
    else if text_eq t (codes "request-changes") || text_eq t (codes "request_changes")
    then some request_changes
    else none

-- The file is written again only after a review that succeeded.
abbrev pub write_if_ok : Proposal → Result Review × Proposal → Result Review × Proposal
write_if_ok file (err e, prop) = (err e, file)
write_if_ok file (ok r, prop) = (ok r, prop)

-- `cmd_review` up to the ledger, on the proposal that its file holds, and with the proposal that it
-- holds afterwards.
unfoldable pub review_file :
    Platform → (decision_lower : Text) → ReviewCall → Proposal → Result Review × Proposal
unfolding parse_decision review_proposal
review_file p decision_lower c file = elim (parse_decision decision_lower) [
  | none ↦ (
    err (
        internal (
          format "invalid decision '{}': use approve, reject, or request-changes"
            (text decision_lower end))),
    file,
  )
  | some d ↦
      write_if_ok file
        (review_proposal p (record c { secret_hex = trim c.secret_hex; decision = d }) file)
]
