-- ===== src/Cli/Summary/Covered.antt =====
-- What `verify_summary` accepts, and what the signature of a summary does not cover.
use mathlib.Core.Path.{subst}
use a2g_cli.Base.{◌≡◌, refl, true, Option, List}
use a2g_cli.Base.Text.{codes, Text, text_eq_refl}
use a2g_cli.Error.{ok-injective, ok, >>=-eq-ok}
use a2g_cli.Platform.{Platform, Time}
use a2g_cli.Mandate.Types.{Bytes}
use a2g_cli.Mandate.Verify.{digest_hex}
use a2g_cli.Hitl.RoundTrip.{Signs}
use a2g_cli.Cli.Summary.Tally.{Counts}
use a2g_cli.Cli.Summary.Window.{TrustSummaryData}
use a2g_cli.Cli.Summary.Sign.{
  signed_summary, TrustSummary, summary_input, sign_payload, sign_summary, verify_signature,
  verify_summary,
}

module _ {F : Type 0} (p : Platform) (to_json : Counts → Option Text) (show : F → Text) where
  signature-valid :
      (s : TrustSummary F) (key : Bytes)
      → Signs p key
      → s.issuer_pubkey ≡ p.hex_encode (p.public_key key)
      → s.signature ≡ p.hex_encode (p.sign key (sign_payload p to_json show s.summary_hash))
      → verify_signature p to_json show s ≡ ok true
  unfolding verify_signature
  signature-valid s key sg e1 e2 =
      rw
        (
          e1,
          e2,
          sg.decodes (p.public_key key),
          sg.decodes (p.sign key (sign_payload p to_json show s.summary_hash)),
          sg.key_length,
          sg.key_valid,
          sg.sign_length (sign_payload p to_json show s.summary_hash),
          sg.verifies (sign_payload p to_json show s.summary_hash),
        )
        refl

  -- A summary that `sign_summary` makes is accepted by `verify_summary`. The key is assumed to
  -- sign.
  pub verify_summary-sign_summary :
      (summary_id : Text) (now : Time) (d : TrustSummaryData F) (key : Bytes)
      (issuer_did issuer_name : Text) (s : TrustSummary F)
      → Signs p key
      → sign_summary p to_json show summary_id now d key issuer_did issuer_name ≡ ok s
      → verify_summary p to_json show s ≡ ok true
  unfolding sign_summary verify_summary
  verify_summary-sign_summary summary_id now d key issuer_did issuer_name s sg h =
      let (covered, e, made) =
        >>=-eq-ok
          (summary_input p to_json show summary_id (codes "1.0") d (p.to_rfc3339 now) issuer_did) _
          h in
      subst (λ x. verify_summary p to_json show x ≡ ok true) (ok-injective (λ x. x) made)
        (rw (e, text_eq_refl (digest_hex p (p.utf8 covered)))
          (signature-valid
            (signed_summary p to_json show summary_id now d key issuer_did issuer_name covered) key
            sg refl refl))

  -- Whatever is put for the issuer's name, the rules hit, the authority levels and the issuers
  -- that a summary lists, it is accepted or refused as before: its signature does not cover them.
  pub verify_summary-uncovered :
      (s : TrustSummary F) (issuer_name : Text) (rules authorities : Counts) (issuers : List Text)
      → verify_summary p to_json show (record s {
        issuer_name = issuer_name;
        content = record (s.content) {
          policy_rules_hit = rules;
          authority_coverage = authorities;
          issuer_coverage = issuers;
        };
      })
        ≡ verify_summary p to_json show s
  unfolding verify_summary summary_input verify_signature
  verify_summary-uncovered s issuer_name rules authorities issuers = refl
