-- ===== src/Examples/Signing.antt =====
-- The theorems on compiling, signing and reviewing, applied to one mandate.
use a2g_cli.Base.{
  ◌<◌, ◌↔◌, ℕ, ◌≤◌, ◌<◌, ◌+◌, ◌*◌, ◌↔◌, ◌≡◌, refl, ap, sym, ◌≢◌, Option, none, some, true, false,
  [], ◌∷◌, head?, if◌then◌else◌, Bool, arith,
}
use a2g_cli.Base.Text.{
  codes, text_eq, text_eq_refl, sort, sorted_insert, join, trim, skip_whitespace, is_whitespace,
}
use a2g_cli.Error.{ok}
use a2g_cli.Platform.{Platform}
use a2g_cli.Mandate.Types.{Bytes, MandateTbs, CborMandate, Mandate, tbs_to_mandate}
use a2g_cli.Mandate.Verify.{
  capabilities_hash, parse_cbor_mandate_raw, verify_cbor_signature, verify_cbor_mandate, did_of_key,
}
use a2g_cli.Proposal.Types.{Proposal, approved, expired, pending}
use a2g_cli.Proposal.Signed.{AllSign}
use a2g_cli.Cli.Compile.{signing_secret, mandate_tbs, signed_envelope, compile_for, compile_mandate}
use a2g_cli.Cli.Compiled.{ReadsBack, verify_cbor_mandate-compile_mandate}
use a2g_cli.Cli.Sign.{with_proposal, cmd_sign, validate_ttl, accept_proposal, proposal_hash_for_tbs}
use a2g_cli.Cli.Signed.{IsAcceptable, cmd_sign-IsAcceptable}
use a2g_cli.Vehicle.Types.{VehicleState, park, driver}
use a2g_cli.Vehicle.Fresh.{checked, passed, verify_attested-sign_attested}
use a2g_cli.Examples.{platform, key, tbs}
use a2g_cli.Examples.Texts.{length-toy}
use a2g_cli.Examples.Encoding.{same_tbs, same_tbs→eq, same_envelope, same_envelope→eq, texts_eq}
use a2g_cli.Examples.Proposals.{proposal}

abbrev source : Mandate
source = tbs_to_mandate tbs

-- A time stamp is the instant's one character.
abbrev stamper : Platform
stamper = record platform { to_rfc3339 = λ n. n ∷ []; parse_time = head? }

-- The content that is compiled at instant 7 for two seconds, and its envelope.
abbrev content : MandateTbs
content = mandate_tbs stamper 7 2000000000 key (codes "play") (codes "p1") source

abbrev sealed : CborMandate
sealed = signed_envelope stamper key (codes "tbs")

-- Encoders of this content and this envelope only, and their decoders.
abbrev signer : Platform
signer = record stamper { decode_tbs = λ b. some content; decode_envelope = λ b. some sealed }

abbrev encode_content : MandateTbs → Option Bytes
encode_content t = if same_tbs t content then some (codes "tbs") else none

abbrev encode_sealed : CborMandate → Option Bytes
encode_sealed e = if same_envelope e sealed then some (codes "cbor") else none

if-some : (t : Bool) {A : Type 0} (a b : A) → (if t then some a else none) ≡ some b → t ≡ true
if-some true a b h = refl
if-some false a b h = cc

signer-ReadsBack : ReadsBack signer encode_content encode_sealed
signer-ReadsBack = record {
  tbs_back = λ t b h. ap some (sym (same_tbs→eq t content (if-some _ (codes "tbs") b h)));
  envelope_back = λ e b h. ap some (sym (same_envelope→eq e sealed (if-some _ (codes "cbor") b h)));
  time_back = λ t. refl;
}

signer-AllSign : AllSign signer
signer-AllSign k h = record {
  decodes = λ b. refl;
  key_length = refl;
  key_valid = refl;
  sign_length = length-toy;
  verifies = λ m. text_eq_refl (signer.sign k m);
}

secret_read : signing_secret signer key ≡ ok key
unfolding signing_secret trim skip_whitespace is_whitespace
secret_read = refl

abbrev hours : ℕ → Option ℕ
hours h = some 2000000000

compiled :
    compile_mandate signer encode_content encode_sealed hours 7 source key 1 (codes "p1")
    ≡ some (ok (codes "cbor"))
unfolding compile_mandate compile_for signing_secret trim skip_whitespace is_whitespace mandate_tbs
    capabilities_hash sort sorted_insert join same_tbs same_envelope texts_eq text_eq tbs_to_mandate
compiled = refl

verify_cbor_mandate-compile_mandate_example :
    verify_cbor_mandate signer (codes "cbor") 7
    ≡ ok (record {
      agent_did = source.mandate.agent_did;
      agent_name = source.mandate.agent_name;
      issuer = did_of_key signer key;
      expires_at = 2000000007 ∷ [];
      ttl_remaining_sec = 2;
      tools = source.capabilities.tools;
    })
verify_cbor_mandate-compile_mandate_example =
    verify_cbor_mandate-compile_mandate signer encode_content encode_sealed hours 7 source key 1
      2000000000 (codes "p1") key (codes "cbor") 2000000007 7 signer-ReadsBack
      (signer-AllSign key refl) secret_read refl refl (omega arith) compiled

abbrev accepted : Proposal
accepted = record proposal {
  status = approved;
  proposal_hash = codes "p1";
  mandate_hash = codes "toml";
}

signed :
    cmd_sign signer encode_content encode_sealed hours
      (λ t. some source)
      (λ t. none)
      6
      7
      true
      1
      (with_proposal accepted)
      (codes "toml")
      key
    ≡ some (ok (codes "cbor"))
unfolding cmd_sign validate_ttl accept_proposal proposal_hash_for_tbs compile_mandate compile_for
    signing_secret trim skip_whitespace is_whitespace mandate_tbs capabilities_hash sort
    sorted_insert join same_tbs same_envelope texts_eq text_eq tbs_to_mandate
signed = refl

cmd_sign-IsAcceptable_example :
    IsAcceptable signer (λ t. none) 6 (codes "toml") accepted
    × (1 ≤ 1)
    × (1 ≤ 8760)
    × (m : Mandate) × (envelope : CborMandate) × (parse_cbor_mandate_raw signer (codes "cbor")
        ≡ ok (m, envelope))
    × (m.mandate.proposal_hash ≡ codes "p1")
    × (verify_cbor_signature signer envelope ≡ ok tt)
cmd_sign-IsAcceptable_example =
    cmd_sign-IsAcceptable signer encode_content encode_sealed hours (λ t. some source) (λ t. none) 6
      7 true 1 accepted (codes "toml") key (codes "cbor") signer-ReadsBack signer-AllSign signed

not_expired : pending ≢ expired
not_expired = λ e. cc

abbrev parked : VehicleState
parked = record { speed_mmps = 0; gear = park; actor = driver }

verify_attested-sign_attested_example :
    ((checked signer
          (λ s. codes "s")
          key
          (signer-AllSign key refl)
          parked
          (codes "n")
          7
          9
          500
          (some (codes "m"))
        ≡ passed signer (λ s. codes "s") key (signer-AllSign key refl) parked (codes "n") 7 9 500)
      ↔ (codes "n" ≡ codes "m"))
    × ((checked signer
            (λ s. codes "s")
            key
            (signer-AllSign key refl)
            parked
            (codes "n")
            7
            9
            500
            none
          ≡ passed signer (λ s. codes "s") key (signer-AllSign key refl) parked (codes "n") 7 9 500)
        ↔ ((7 < 9 + 1000000) × (9 < 7 + 1000000 * 501)))
verify_attested-sign_attested_example =
    verify_attested-sign_attested signer (λ s. codes "s") key (signer-AllSign key refl) parked
      (codes "n") 7 9 500 (codes "m") refl
