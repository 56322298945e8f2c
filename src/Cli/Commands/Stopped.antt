-- ===== src/Cli/Commands/Stopped.antt =====
-- crates/a2g-cli/src/main.rs: `a2g enforce` after `a2g revoke`.
use a2g_cli.Cli.Ledger.Record.{enforce_and_record}
use mathlib.Core.Path.{subst}
use a2g_cli.Error.{some-injective}
use a2g_cli.Base.{false, inr, inl, ◌≡◌, refl, sym, ap, ◌∙◌, Bool, Option, none, some, List, arith}
use a2g_cli.Base.Text.{Text}
use a2g_cli.Error.{A2gError, ok-injective, Result, ok, err, Result-cases, >>=-eq-ok}
use a2g_cli.Platform.{Platform}
use a2g_cli.Mandate.Types.{Bytes, Mandate, CborMandate}
use a2g_cli.Mandate.Verify.{digest_hex, parse_cbor_mandate_raw}
use a2g_cli.Authority.Types.{Delegation}
use a2g_cli.Enforce.Types.{allow, Decision, Params, Request}
use a2g_cli.Enforce.Decide.{
  operator_call, resolved_params, decide_core, Call, prepare, decide, enforce,
}
use a2g_cli.Enforce.Decision.{decide-allow_iff, Allows}
use a2g_cli.Receipt.Types.{Receipt}
use a2g_cli.Cli.Ledger.Tables.{Ledger, enforce_ledger, revoke_mandate}
use a2g_cli.Cli.Ledger.Steps.{LedgerReach}
use a2g_cli.Cli.Ledger.Revoked.{revoked-not-IsPermitted}
use a2g_cli.Cli.Commands.Types.{Run, after}
use a2g_cli.Cli.Commands.Govern.{cmd_revoke}
use a2g_cli.Cli.Commands.Decide.{
  params_of, no_context, context_of, with_context, EnforceArguments, AuthorityContext, exit_code,
  exit_revoked, call_for, decide_and_record, enforce_unless, enforce_under, cmd_enforce,
}
use a2g_cli.Cli.Commands.Reached.{Outside, CommandReach, commands-Reached}

pub after-eq-ok {ℓ κ} :
    {A : Type ℓ} {B : Type κ} (x : Option (Result A)) (db : Ledger) (k : A → Run B) {b : B}
    → (after x db k).0 ≡ some (ok b)
    → (a : A) × (x ≡ some (ok a)) × ((k a).0 ≡ some (ok b))
unfolding after
after-eq-ok none db k h = cc
after-eq-ok (some (err e)) db k h = cc
after-eq-ok (some (ok a)) db k h = (a, refl, h)

-- `enforce` allows only what `decide` allows for the same mandate, tool and ledger.
pub enforce-Allows :
    (p : Platform) (resolve : Text → Result Text) (c : Call)
    → Allows (enforce p resolve c)
    → (d : Call) × (d.mandate_cbor ≡ c.mandate_cbor)
      × (d.tool ≡ c.tool)
      × (d.ledger ≡ c.ledger)
      × (d.trust ≡ c.trust)
      × Allows (decide p d)
unfolding enforce
enforce-Allows p resolve c (v, e, a) =
    let (params, f, g) = >>=-eq-ok (resolved_params resolve c.params c.params.path) _ e in
    (operator_call c params, refl, refl, refl, refl, (v, g, a))

prepare-mandate :
    (p : Platform) (c : Call) {req : Request}
    → prepare p c ≡ ok req
    → (parse_cbor_mandate_raw p c.mandate_cbor ≡ ok (req.m, req.envelope))
      × (req.mandate_hash ≡ digest_hex p c.mandate_cbor)
unfolding prepare
prepare-mandate p c e = ground arith

Allows-prepared :
    (p : Platform) (c : Call) → Allows (decide p c) → (req : Request) × (prepare p c ≡ ok req)
unfolding decide decide_core
Allows-prepared p c (v, e, a) = let (req, f, g) = >>=-eq-ok (prepare p c) _ e in (req, f)

pub returned {ℓ} : {A : Type ℓ} {a b : A} → some (ok a) ≡ some (ok b) → a ≡ b
returned h = ok-injective (λ x. x) (some-injective h)

exit_code-zero : (d : Decision) → exit_code d ≡ 0 → d ≡ allow
exit_code-zero d e = ground arith

module _ (o : Outside) (a : EnforceArguments) where
  -- The command decides the call that its arguments describe, by the ledger that it opens.
  abbrev pub IsAllowedBy : Ledger → Type 0
  IsAllowedBy db =
      (d : Call) × (d.mandate_cbor ≡ a.mandate_cbor)
      × (d.tool ≡ a.tool)
      × (d.ledger ≡ enforce_ledger o.platform a.now db)
      × Allows (decide o.platform d)

  decide_and_record-zero :
      (params : Params) (x : AuthorityContext) (db : Ledger) (r : Option Receipt)
      → (decide_and_record o.platform o.render o.resolve o.read_params o.scope_text a params x db).0
        ≡ some (ok (0, r))
      → IsAllowedBy db
  unfolding decide_and_record
  decide_and_record-zero params x db r h =
      let c =
        call_for o.platform o.render o.resolve o.read_params o.scope_text a params x.trust db in
      let (v, e, h1) = after-eq-ok (some (enforce o.platform o.resolve c)) db _ h in
      let (receipt, f, h2) =
        after-eq-ok
          (some
            (enforce_and_record o.platform o.render a.receipt_id a.recorded
              (with_context o.platform o.render o.resolve o.read_params o.scope_text a x v) db).0)
          _ _ h1 in
      let zero_code : exit_code v.decision ≡ 0 = ap (λ x. x.0) (returned h2) in
      let (d, m, t, l, w, allowed) =
        enforce-Allows o.platform o.resolve c
          (v, some-injective e, exit_code-zero v.decision zero_code) in
      (d, m, t, l, allowed)

  exit_revoked-one :
      (json : Bool) (d : Delegation) (r : Option Receipt)
      → ¬ (
          exit_revoked o.platform o.render o.resolve o.read_params o.scope_text json d
          ≡ some (ok (0, r)))
  unfolding exit_revoked
  exit_revoked-one json d r h = ground arith

  enforce_unless-zero :
      (params : Params) (ds : List Delegation) (revoked : Option Delegation) (db : Ledger)
      (r : Option Receipt)
      → (enforce_unless o.platform o.render o.resolve o.read_params o.scope_text a params ds revoked
          db).0
        ≡ some (ok (0, r))
      → (revoked ≡ none) × IsAllowedBy db
  unfolding enforce_unless
  enforce_unless-zero params ds (some d) db r h = elim (exit_revoked-one a.json_output d r h) [ ]
  enforce_unless-zero params ds none db r h =
      let (x, e, h1) =
        after-eq-ok
          (some (context_of o.platform o.render o.resolve o.read_params o.scope_text a.wall ds)) db
          _ h in
      (refl, decide_and_record-zero params x db r h1)

  enforce_under-zero :
      (params : Params) (ds : Option (List Delegation)) (db : Ledger) (r : Option Receipt)
      → (enforce_under o.platform o.render o.resolve o.read_params o.scope_text a params ds db).0
        ≡ some (ok (0, r))
      → IsAllowedBy db
  unfolding enforce_under
  enforce_under-zero params none db r h = decide_and_record-zero params no_context db r h
  enforce_under-zero params (some ds) db r h = (enforce_unless-zero params ds _ db r h).1

  cmd_enforce-zero :
      (db : Ledger) (r : Option Receipt)
      → (cmd_enforce o.platform o.render o.resolve o.read_params o.scope_text a db).0
        ≡ some (ok (0, r))
      → IsAllowedBy db
  unfolding cmd_enforce
  cmd_enforce-zero db r h =
      let (params, e, h1) =
        after-eq-ok (params_of o.platform o.render o.resolve o.read_params o.scope_text a) db _ h in
      enforce_under-zero params a.authority_chain db r h1

  unread :
      (now reason : Text) (json : Bool) (hash : Text) (cbor : Bytes) (db : Ledger) (e : A2gError)
      → parse_cbor_mandate_raw o.platform cbor ≡ err e
      → ¬ ((cmd_revoke o.platform now json cbor reason db).0 ≡ some (ok hash))
  unfolding cmd_revoke after
  unread now reason json hash cbor db e f = rw f (λ h. ground arith)

  -- What a successful `a2g revoke` has done.
  revoked_by :
      (now reason : Text) (json : Bool) (hash : Text) (cbor : Bytes) (db : Ledger)
      → (cmd_revoke o.platform now json cbor reason db).0 ≡ some (ok hash)
      → (m : Mandate × CborMandate) × (parse_cbor_mandate_raw o.platform cbor ≡ ok m)
        × ((cmd_revoke o.platform now json cbor reason db).1
            ≡ (revoke_mandate now m.0.mandate.agent_did
                (digest_hex o.platform cbor)
                m.0.mandate.issuer
                reason
                db).1)
  unfolding cmd_revoke after revoke_mandate
  revoked_by now reason json hash cbor db h =
      elim (Result-cases (parse_cbor_mandate_raw o.platform cbor)) [
        | inl (e, f) ↦ elim (unread now reason json hash cbor db e f h) [ ]
        | inr (m, f) ↦ (m, f, rw f refl)
      ]

  -- Once `a2g revoke` has succeeded for the bytes of a mandate, `a2g enforce` on those bytes never
  -- exits with 0 on the same ledger, whatever commands that change the ledger are run in between and
  -- whatever it is asked to decide.
  pub cmd_enforce-revoked :
      (now reason : Text) (json : Bool) (hash : Text) (db db' : Ledger) (r : Option Receipt)
      → (cmd_revoke o.platform now json a.mandate_cbor reason db).0 ≡ some (ok hash)
      → CommandReach o (cmd_revoke o.platform now json a.mandate_cbor reason db).1 db'
      → ¬ (
          (cmd_enforce o.platform o.render o.resolve o.read_params o.scope_text a db').0
          ≡ some (ok (0, r)))
  cmd_enforce-revoked now reason json hash db db' r done later h =
      let (d, same, tool_is, reads, allowed) = cmd_enforce-zero db' r h in
      let (m, f, left) = revoked_by now reason json hash a.mandate_cbor db done in
      let (req, prepared) = Allows-prepared o.platform d allowed in
      let (parsed, hash_is) = prepare-mandate o.platform d prepared in
      let mandate_is : m.0 ≡ req.m =
        ok-injective (λ x. x.0)
          (sym f ∙ (ap (parse_cbor_mandate_raw o.platform) (sym same) ∙ parsed)) in
      let digest_is = sym (hash_is ∙ ap (digest_hex o.platform) same) in
      let state_is = left ∙ (λ i.
        (revoke_mandate now (mandate_is i).mandate.agent_did (digest_is i) m.0.mandate.issuer reason
          db).1) in
      let reach =
        subst (λ s. LedgerReach o.platform o.render s db') state_is
          (commands-Reached o _ db' later) in
      revoked-not-IsPermitted o.platform o.render d req now m.0.mandate.issuer reason a.now db db'
        false reach reads ((decide-allow_iff o.platform d prepared).0 allowed)
