-- ===== src/Examples/Commands.antt =====
-- The theorems on the commands and on DIDs, applied to concrete runs.
use a2g_cli.Cli.Commands.Types.{validate_name, after}
use a2g_cli.Base.{◌≡◌, refl, true, none, some, [], length}
use a2g_cli.Base.Text.{text_eq, codes}
use a2g_cli.Error.{ok}
use a2g_cli.Platform.{Platform}
use a2g_cli.Mandate.Types.{tbs_to_mandate}
use a2g_cli.Authority.Types.{Delegation, default_scope}
use a2g_cli.Authority.Scope.{validate_scope_subset, validate_mandate_against_authority}
use a2g_cli.Identity.{validate_did}
use a2g_cli.Cli.Ledger.Tables.{Ledger, empty_ledger}
use a2g_cli.Cli.Ledger.Record.{verify_ledger}
use a2g_cli.Cli.Commands.Authority.{cmd_delegate}
use a2g_cli.Cli.Commands.Govern.{cmd_revoke}
use a2g_cli.Cli.Commands.Decide.{EnforceArguments, cmd_enforce}
use a2g_cli.Cli.Commands.Reached.{
  Outside, CommandReach, idle, runs, enforces, commands-verify_ledger,
}
use a2g_cli.Cli.Commands.Stopped.{cmd_enforce-revoked}
use a2g_cli.Cli.Commands.Delegated.{IsHandedOn, cmd_delegate-IsHandedOn, cmd_delegate-unlimited}
use a2g_cli.Examples.{platform, call, tbs, key}
use a2g_cli.Examples.Chains.{issuer}
use a2g_cli.Examples.Ledgers.{render, one_record}

abbrev outside : Outside
outside = record {
  platform = platform;
  render = render;
  content_text = λ c. codes "c";
  resolve = λ t. ok t;
  read_params = λ t v. some (ok (call []).params);
  scope_text = λ s. [];
  bs58_decode = λ t. some t;
  parse_toml = λ t. none;
  to_lowercase = λ t. t;
  hours = λ h. some h;
}

abbrev arguments : EnforceArguments
arguments = record {
  mandate_cbor = codes "cbor";
  tool = codes "play";
  params_json = codes "{}";
  vehicle_state = none;
  authority_chain = none;
  correlation = none;
  parent = none;
  json_output = true;
  now = 7;
  wall = 7;
  trust_checked = 7;
  recorded = 8;
  ids = record { verdict_id = codes "v"; binding_id = codes "b" };
  receipt_id = codes "r2";
}

revoked : (cmd_revoke platform [] true (codes "cbor") [] one_record).0 ≡ some (ok (codes "cbor"))
unfolding cmd_revoke after text_eq
revoked = refl

abbrev after_revoking : Ledger
after_revoking = (cmd_revoke platform [] true (codes "cbor") [] one_record).1

cmd_enforce-revoked_example : ¬ (
    (cmd_enforce platform render
      (λ t. ok t)
      (λ t v. some (ok (call []).params))
      (λ s. [])
      arguments
      after_revoking).0
    ≡ some (ok (0, none)))
cmd_enforce-revoked_example =
    cmd_enforce-revoked outside arguments [] [] true (codes "cbor") one_record after_revoking none
      revoked idle

abbrev after_enforcing : Ledger
after_enforcing =
    (cmd_enforce platform render (λ t. ok t) (λ t v. some (ok (call []).params)) (λ s. []) arguments
      empty_ledger).1

enforced : CommandReach outside empty_ledger after_enforcing
enforced = runs empty_ledger after_enforcing idle (enforces arguments empty_ledger)

commands-verify_ledger_example :
    verify_ledger after_enforcing ≡ (true, length after_enforcing.decisions)
commands-verify_ledger_example = commands-verify_ledger outside after_enforcing enforced

-- A platform on which every delegation expires after ten hours.
abbrev lasting : Platform
lasting = record platform {
  parse_time = λ t. some 36000000000000;
  checked_add_secs = λ n s. some n;
}

abbrev limited : Delegation
limited = record issuer { scope = record default_scope { max_rate_limit = 1 } }

delegated :
    (d : Delegation) × ((cmd_delegate lasting
        (λ c. codes "c")
        (λ t. some t)
        7
        (codes "d1")
        []
        true
        limited
        key
        (codes "sub")
        (codes "Sub")
        (codes "department")
        []
        1
        empty_ledger).0
      ≡ some (ok d))
unfolding cmd_delegate after validate_name validate_did text_eq validate_scope_subset
delegated = (_, refl)

cmd_delegate-IsHandedOn_example : IsHandedOn limited [] 1 delegated.0
cmd_delegate-IsHandedOn_example =
    cmd_delegate-IsHandedOn lasting (λ c. codes "c") (λ t. some t) 7 (codes "d1") [] true limited
      key (codes "sub") (codes "Sub") (codes "department") [] 1 empty_ledger delegated.1

cmd_delegate-unlimited_example :
    validate_mandate_against_authority lasting 7
      (record (tbs_to_mandate tbs) {
        limits = record ((tbs_to_mandate tbs).limits) { max_calls_per_minute = 9000 };
      })
      delegated.0
    ≡ validate_mandate_against_authority lasting 7 (tbs_to_mandate tbs) delegated.0
cmd_delegate-unlimited_example =
    cmd_delegate-unlimited lasting (λ c. codes "c") (λ t. some t) 7 (codes "d1") [] true limited key
      (codes "sub") (codes "Sub") (codes "department") [] 1 empty_ledger delegated.1 refl 7
      (tbs_to_mandate tbs) 9000
