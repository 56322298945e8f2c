-- ===== src/Cli/Commands/Compress.antt =====
-- crates/a2g-cli/src/main.rs: `cmd_compress` and `cmd_verify_summary`.
use a2g_cli.Base.{ℕ, ◌==◌, ltb, Bool, not, Option, some, length, if◌then◌else◌}
use a2g_cli.Base.Text.{Text, trim}
use a2g_cli.Error.{
  and_then, hex_decode_error, internal, format, number, say, end, Result, ok, ◌>>=◌ as bind, ensure,
  ok_or,
}
use a2g_cli.Platform.{Platform, Time}
use a2g_cli.Mandate.Types.{Bytes}
use a2g_cli.Mandate.Verify.{did_of_key}
use a2g_cli.Cli.Ledger.Tables.{Ledger}
use a2g_cli.Cli.Ledger.Record.{count_window}
use a2g_cli.Cli.Summary.Tally.{Counts}
use a2g_cli.Cli.Summary.Window.{compress_window}
use a2g_cli.Cli.Summary.Sign.{TrustSummary, sign_summary, verify_summary}
use a2g_cli.Cli.Commands.Types.{prints}

-- `reread` is what becomes of a rate when `serde_json` writes it and reads it again.
module _ {F : Type 0} (p : Platform) (percent : ℕ → ℕ → F) (zero_rate : F)
    (to_json : Counts → Option Text) (show : F → Text) (reread : F → F) where
  abbrev pub enough : (agent start stop : Text) (min_decisions : ℕ) → Ledger → Result (Unit {0})
  enough agent start stop min_decisions db =
      ensure (not (ltb (count_window agent start stop db) min_decisions)) (
        internal (
          format "only {} decisions found (minimum {} required)"
            (number (count_window agent start stop db) (number min_decisions end))))

  abbrev pub summary_key : Text → Result Bytes
  summary_key key_text = bind (ok_or (p.hex_decode (trim key_text)) hex_decode_error) (λ key.
      bind
        (ensure (length key == 32)
          (internal (say "invalid secret key length (expected 32 bytes / 64 hex chars)")))
        (λ u. ok key))

  -- The command up to the writing of the file.
  unfoldable pub signed_window :
      (summary_id : Text) (now : Time) (agent start stop key_text issuer_name : Text)
      (min_decisions : ℕ)
      → Ledger
      → Result (TrustSummary F)
  unfolding count_window compress_window sign_summary
  signed_window id now agent start stop key_text issuer_name min_decisions db =
      bind (enough agent start stop min_decisions db) (λ u.
        bind (compress_window p percent zero_rate agent start stop db) (λ d.
          bind (summary_key key_text) (λ key.
            sign_summary p to_json show id now d key (did_of_key p (p.public_key key))
              issuer_name)))

  -- The summary that is written; the ledger is only read.
  unfoldable pub cmd_compress :
      (summary_id : Text) (now : Time) (json_output : Bool)
      (agent start stop key_text issuer_name : Text) (min_decisions : ℕ)
      → Ledger
      → Option (Result (TrustSummary F))
  unfolding signed_window prints
  cmd_compress id now json_output agent start stop key_text issuer_name min_decisions db =
      and_then (some (signed_window id now agent start stop key_text issuer_name min_decisions db))
        (λ s. prints json_output s.content.merkle_root s)

  -- What `serde_json` reads of a summary that it wrote: the rates may change.
  unfoldable pub read_back : TrustSummary F → TrustSummary F
  read_back s = record s {
    content = record s.content {
      compliance_rate = reread s.content.compliance_rate;
      escalation_rate = reread s.content.escalation_rate;
      deny_rate = reread s.content.deny_rate;
    };
  }

  -- The exit code, for a file that a summary was written to.
  unfoldable pub cmd_verify_summary : (json_output : Bool) → TrustSummary F → Option (Result ℕ)
  unfolding verify_summary read_back prints
  cmd_verify_summary json_output file =
      let s = read_back file in
      and_then (some (verify_summary p to_json show s))
        (λ valid. prints json_output s.content.merkle_root (if valid then 0 else 1))
