-- ===== src/Cli/Commands/Compressed.antt =====
-- `a2g verify-summary` on what `a2g compress` writes.
use a2g_cli.Error.{some-injective}
use a2g_cli.Base.{ap, ◌∙◌, ◌≤◌, ℕ, ◌≡◌, refl, Bool, true, false, Option, some, arith}
use a2g_cli.Base.Text.{codes, Text, trim}
use a2g_cli.Error.{ok-injective, ok, >>=-eq-ok, and_then-eq-ok}
use a2g_cli.Platform.{Platform, Time}
use a2g_cli.Mandate.Types.{Bytes}
use a2g_cli.Mandate.Verify.{did_of_key}
use a2g_cli.Hitl.RoundTrip.{Signs}
use a2g_cli.Cli.Ledger.Tables.{Ledger}
use a2g_cli.Cli.Ledger.Record.{count_window}
use a2g_cli.Cli.Summary.Tally.{Counts}
use a2g_cli.Cli.Summary.Window.{TrustSummaryData, compress_window}
use a2g_cli.Cli.Summary.Sign.{summary_input, TrustSummary, sign_summary, verify_summary}
use a2g_cli.Cli.Summary.Covered.{verify_summary-sign_summary}
use a2g_cli.Cli.Commands.Types.{prints}
use a2g_cli.Cli.Commands.Compress.{
  read_back, signed_window, enough, summary_key, cmd_compress, cmd_verify_summary,
}

pub prints-returns :
    {A : Type 0} (json : Bool) (hash : Text) (a b : A) → prints json hash a ≡ some (ok b) → a ≡ b
unfolding prints
prints-returns true hash a b h = ground arith
prints-returns false hash a b h = ground arith

module _ {F : Type 0} (p : Platform) (percent : ℕ → ℕ → F) (zero_rate : F)
    (to_json : Counts → Option Text) (show : F → Text) (reread : F → F) where
  key_of :
      (key_text : Text) {key : Bytes}
      → summary_key p percent zero_rate to_json show reread key_text ≡ ok key
      → p.hex_decode (trim key_text) ≡ some key
  key_of key_text h = ground arith

  enough_in :
      (agent start stop : Text) (min_decisions : ℕ) (db : Ledger)
      → enough p percent zero_rate to_json show reread agent start stop min_decisions db ≡ ok tt
      → min_decisions ≤ count_window agent start stop db
  enough_in agent start stop min_decisions db h = ground arith

  sign_summary-content :
      (id : Text) (now : Time) (d : TrustSummaryData F) (key : Bytes) (did name : Text)
      {s : TrustSummary F}
      → sign_summary p to_json show id now d key did name ≡ ok s
      → d ≡ s.content
  unfolding sign_summary
  sign_summary-content id now d key did name h =
      let (covered, e, made) =
        >>=-eq-ok (summary_input p to_json show id (codes "1.0") d (p.to_rfc3339 now) did) _ h in
      ok-injective (λ x. x.content) made

  read_back-same :
      (s : TrustSummary F)
      → reread s.content.compliance_rate ≡ s.content.compliance_rate
      → reread s.content.escalation_rate ≡ s.content.escalation_rate
      → reread s.content.deny_rate ≡ s.content.deny_rate
      → read_back p percent zero_rate to_json show reread s ≡ s
  unfolding read_back
  read_back-same s a b d = λ i. record s {
    content = record s.content { compliance_rate = a i; escalation_rate = b i; deny_rate = d i };
  }

  verify_read_back :
      (s : TrustSummary F)
      → reread s.content.compliance_rate ≡ s.content.compliance_rate
      → reread s.content.escalation_rate ≡ s.content.escalation_rate
      → reread s.content.deny_rate ≡ s.content.deny_rate
      → verify_summary p to_json show s ≡ ok true
      → cmd_verify_summary p percent zero_rate to_json show reread true s ≡ some (ok 0)
  unfolding cmd_verify_summary prints
  verify_read_back s a b d valid =
      let verified : verify_summary p to_json show
            (read_back p percent zero_rate to_json show reread s)
          ≡ ok true =
        ap (verify_summary p to_json show) (read_back-same s a b d) ∙ valid in
      rw verified refl

  -- A summary that `a2g compress` writes holds the data of the window, of which at least the
  -- required number of decisions lie in the ledger, and `a2g verify-summary` with JSON output exits
  -- with 0 on it. The keys that the command reads are assumed to sign, and the three rates of the
  -- summary to be the same after they were written as JSON and read again.
  pub cmd_verify_summary-cmd_compress :
      (id : Text) (now : Time) (json : Bool) (agent start stop key_text issuer_name : Text)
      (min_decisions : ℕ) (db : Ledger) (s : TrustSummary F)
      → ((key : Bytes) → p.hex_decode (trim key_text) ≡ some key → Signs p key)
      → cmd_compress p percent zero_rate to_json show reread id now json agent start stop key_text
          issuer_name min_decisions db
        ≡ some (ok s)
      → reread s.content.compliance_rate ≡ s.content.compliance_rate
      → reread s.content.escalation_rate ≡ s.content.escalation_rate
      → reread s.content.deny_rate ≡ s.content.deny_rate
      → (cmd_verify_summary p percent zero_rate to_json show reread true s ≡ some (ok 0))
        × (compress_window p percent zero_rate agent start stop db ≡ ok s.content)
        × (min_decisions ≤ count_window agent start stop db)
  unfolding cmd_compress cmd_verify_summary signed_window prints
  cmd_verify_summary-cmd_compress id now json agent start stop key_text issuer_name min_decisions db
        s signs h same_rate same_escalation same_deny =
      let (t, e, printed) =
        and_then-eq-ok
          (some (
            signed_window p percent zero_rate to_json show reread id now agent start stop key_text
              issuer_name min_decisions db))
          _ h in
      let (u, e1, h1) =
        >>=-eq-ok (enough p percent zero_rate to_json show reread agent start stop min_decisions db)
          _ (some-injective e) in
      let (d, e2, h2) = >>=-eq-ok (compress_window p percent zero_rate agent start stop db) _ h1 in
      let (key, e3, h3) =
        >>=-eq-ok (summary_key p percent zero_rate to_json show reread key_text) _ h2 in
      let same = prints-returns json t.content.merkle_root t s printed in
      let valid =
        verify_summary-sign_summary p to_json show id now d key (did_of_key p (p.public_key key))
          issuer_name t (signs key (key_of key_text e3)) h3 in
      let content_is =
        sign_summary-content id now d key (did_of_key p (p.public_key key)) issuer_name h3 in
      (
        verify_read_back s same_rate same_escalation same_deny (rw same at valid),
        e2 ∙ ap ok (content_is ∙ ap (λ x. x.content) same),
        enough_in agent start stop min_decisions db e1,
      )
