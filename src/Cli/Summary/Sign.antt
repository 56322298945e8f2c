-- ===== src/Cli/Summary/Sign.antt =====
-- crates/a2g-cli/src/trust_summary.rs: `sign_summary` and `verify_summary`.
use a2g_cli.Base.{◌++◌, ◌==◌, Bool, true, false, Option, [], ◌∷◌, length}
use a2g_cli.Base.Text.{Text, codes, text_eq, join, decimal}
use a2g_cli.Error.{
  json, internal, hex_decode_error, invalid_key, say, Result, ok, ◌>>=◌, ◌>>◌, ensure, ok_or,
}
use a2g_cli.Platform.{Platform, Time}
use a2g_cli.Mandate.Types.{Bytes}
use a2g_cli.Mandate.Verify.{digest_hex}
use a2g_cli.Cli.Summary.Tally.{Counts}
use a2g_cli.Cli.Summary.Window.{TrustSummaryData}

pub record TrustSummary (F : Type 0) : Type 0 where
  pub summary_id : Text
  pub summary_version : Text
  -- The fields that it shares with `TrustSummaryData`.
  pub content : TrustSummaryData F
  pub compressed_at : Text
  pub issuer_did : Text
  pub issuer_name : Text
  pub signature : Text
  pub issuer_pubkey : Text
  pub summary_hash : Text

abbrev pub bool_text : Bool → Text
bool_text true = codes "true"
bool_text false = codes "false"

-- `to_json` is `serde_json::to_string` of a map, `show` prints a rate.
module _ {F : Type 0} (p : Platform) (to_json : Counts → Option Text) (show : F → Text) where
  -- The text that the hash of a summary covers.
  unfoldable pub summary_input :
      (summary_id version : Text)
      → TrustSummaryData F
      → (compressed_at issuer_did : Text) → Result Text
  summary_input summary_id version d compressed_at issuer_did = do
    decisions ← ok_or (to_json d.decision_counts) (json (say "decision_counts"))
    tools ← ok_or (to_json d.tool_counts) (json (say "tool_counts"))
    ok (
        join (codes ":") (
          summary_id
          ∷ version
          ∷ d.agent_did
          ∷ d.window_start
          ∷ d.window_end
          ∷ decimal d.total_decisions
          ∷ decisions
          ∷ tools
          ∷ decimal d.unique_tools
          ∷ decimal d.unique_mandates
          ∷ show d.compliance_rate
          ∷ show d.escalation_rate
          ∷ show d.deny_rate
          ∷ d.first_receipt_hash
          ∷ d.last_receipt_hash
          ∷ d.merkle_root
          ∷ bool_text d.chain_intact
          ∷ compressed_at
          ∷ issuer_did
          ∷ []))

  abbrev pub sign_payload : Text → Bytes
  sign_payload summary_hash = p.utf8 (codes "TRUST_SUMMARY:" ++ summary_hash)

  -- The summary over the text that its hash covers.
  abbrev pub signed_summary :
      (summary_id : Text) (now : Time)
      → TrustSummaryData F
      → (signing_key : Bytes) (issuer_did issuer_name covered : Text) → TrustSummary F
  signed_summary summary_id now d signing_key issuer_did issuer_name covered = record {
    summary_id = summary_id;
    summary_version = codes "1.0";
    content = d;
    compressed_at = p.to_rfc3339 now;
    issuer_did = issuer_did;
    issuer_name = issuer_name;
    signature = p.hex_encode (p.sign signing_key (sign_payload (digest_hex p (p.utf8 covered))));
    issuer_pubkey = p.hex_encode (p.public_key signing_key);
    summary_hash = digest_hex p (p.utf8 covered);
  }

  -- `sign_summary`, with the random id and the clock that it draws.
  unfoldable pub sign_summary :
      (summary_id : Text) (now : Time)
      → TrustSummaryData F
      → (signing_key : Bytes) (issuer_did issuer_name : Text) → Result (TrustSummary F)
  unfolding summary_input
  sign_summary summary_id now d signing_key issuer_did issuer_name = do
    covered ← summary_input summary_id (codes "1.0") d (p.to_rfc3339 now) issuer_did
    ok (signed_summary summary_id now d signing_key issuer_did issuer_name covered)

  -- The signature, once the hash is right.
  unfoldable pub verify_signature : TrustSummary F → Result Bool
  verify_signature s = do
    key ← ok_or (p.hex_decode s.issuer_pubkey) hex_decode_error
    ensure (length key == 32) (internal (say "invalid public key length"))
    ensure (p.is_verifying_key key) invalid_key
    sig ← ok_or (p.hex_decode s.signature) hex_decode_error
    ensure (length sig == 64) (internal (say "invalid signature length"))
    ok (p.verify key (sign_payload s.summary_hash) sig)

  -- `return Ok(false)` on another hash.
  abbrev pub when_right : Bool → Result Bool → Result Bool
  when_right false verdict = ok false
  when_right true verdict = verdict

  unfoldable pub verify_summary : TrustSummary F → Result Bool
  unfolding summary_input verify_signature
  verify_summary s = do
    covered ← summary_input s.summary_id s.summary_version s.content s.compressed_at s.issuer_did
    when_right (text_eq (digest_hex p (p.utf8 covered)) s.summary_hash) (verify_signature s)
