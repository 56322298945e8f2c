-- ===== src/Cli/Commands/Delegated.antt =====
-- What `a2g delegate` hands on.
use mathlib.Core.Path.{subst}
use a2g_cli.Base.{
  some, ℕ, ◌≡◌, refl, sym, ap, ◌∙◌, not, Bool, true, false, ◌==◌, Option, length, arith,
}
use a2g_cli.Base.Int.{pos, ltb_ℤ}
use a2g_cli.Base.Text.{Text, trim, text_eq}
use a2g_cli.Error.{ok, ensure-eq-ok, ok_or-eq-ok, >>-eq-ok, >>=-eq-ok, ok-injective, some-injective}
use a2g_cli.Platform.{Platform, Time}
use a2g_cli.Mandate.Types.{Bytes, Mandate}
use a2g_cli.Mandate.Verify.{did_of_key}
use a2g_cli.Authority.Types.{AuthorityLevel, level_le, AuthorityScope, Delegation}
use a2g_cli.Authority.Scope.{validate_scope_subset, validate_mandate_against_authority}
use a2g_cli.Authority.Delegate.{Content, num_hours, as_i64, delegate}
use a2g_cli.Cli.Ledger.Tables.{Ledger}
use a2g_cli.Cli.Commands.Authority.{child_scope, delegate_arguments, cmd_delegate}
use a2g_cli.Cli.Commands.Stopped.{after-eq-ok}
use a2g_cli.Cli.Commands.Compressed.{prints-returns}

-- A scope that a delegation has from its parent.
pub record IsHandedOn (parent : Delegation) (tools_str : Text) (ttl : ℕ) (d : Delegation)
    : Type 0 where
  pub lower : level_le d.level parent.level ≡ false
  pub scope_is : d.scope ≡ child_scope tools_str ttl parent.scope
  pub subset : validate_scope_subset d.scope parent.scope ≡ ok tt
  pub named : d.parent_delegation_hash ≡ parent.delegation_hash

module _ (p : Platform) (content_text : Content → Text) where
  delegate-IsHandedOn :
      (now : Time) (id secret_hex : Text) (parent : Delegation) (did name tools_str : Text)
      (level : AuthorityLevel) (ttl : ℕ) {d : Delegation}
      → delegate p content_text now id secret_hex parent did name level
          (child_scope tools_str ttl parent.scope)
          parent.jurisdiction
          ttl
        ≡ ok d
      → IsHandedOn parent tools_str ttl d
  unfolding delegate
  delegate-IsHandedOn now id secret_hex parent did name tools_str level ttl h =
      let scope = child_scope tools_str ttl parent.scope in
      let (lower, h1) = ensure-eq-ok (not (level_le level parent.level)) _ _ h in
      let (fits, h2) = >>-eq-ok (validate_scope_subset scope parent.scope) _ h1 in
      let (ends, e3, h3) = ok_or-eq-ok (p.parse_time parent.expires_at) _ _ h2 in
      let (short, h4) = ensure-eq-ok (not (ltb_ℤ (num_hours ends now) (pos (as_i64 ttl)))) _ _ h3 in
      let (bs, e5, h5) = ok_or-eq-ok (p.hex_decode secret_hex) _ _ h4 in
      let (len, h6) = ensure-eq-ok (length bs == 32) _ _ h5 in
      let (mine, h7) =
        ensure-eq-ok (text_eq (did_of_key p (p.public_key bs)) parent.grantee_did) _ _ h6 in
      let level_is = ok-injective (λ x. x.level) h7 in
      let scope_is = ok-injective (λ x. x.scope) h7 in
      let named = ok-injective (λ x. x.parent_delegation_hash) h7 in
      record {
        lower = not-true (level_le _ parent.level) (rw (sym level_is) lower);
        scope_is = sym scope_is;
        subset = ap (λ x. validate_scope_subset x parent.scope) (sym scope_is) ∙ fits;
        named = sym named;
      }
    where
      not-true : (b : Bool) → not b ≡ true → b ≡ false
      not-true true e = ground arith
      not-true false e = refl

  -- A delegation that `a2g delegate` returns has a lower level than its parent and names it, and
  -- its scope is the one derived from the parent's, which fits the parent's.
  pub cmd_delegate-IsHandedOn :
      (bs58_decode : Text → Option Bytes) (now : Time) (id logged : Text) (json : Bool)
      (parent : Delegation) (key_text grantee name level_lower tools_str : Text) (ttl : ℕ)
      (db : Ledger) {d : Delegation}
      → (cmd_delegate p content_text bs58_decode now id logged json parent key_text grantee name
          level_lower tools_str ttl db).0
        ≡ some (ok d)
      → IsHandedOn parent tools_str ttl d
  unfolding cmd_delegate
  cmd_delegate-IsHandedOn bs58 now id logged json parent key_text grantee name level_lower tools_str
        ttl db h =
      let (made, e, printed) = after-eq-ok _ db _ h in
      let (level, e1, h1) =
        >>=-eq-ok (delegate_arguments p content_text bs58 grantee name level_lower ttl) _
          (some-injective e) in
      let same = prints-returns json made.delegation_hash made _ printed in
      subst (IsHandedOn parent tools_str ttl) same
        (delegate-IsHandedOn now id (trim key_text) parent grantee name tools_str level ttl h1)

-- Seventy percent of a limit of 1 is a limit of 0, which is none.
child_scope-unlimited :
    (tools_str : Text) (ttl : ℕ) (parent : AuthorityScope)
    → parent.max_rate_limit ≡ 1
    → (child_scope tools_str ttl parent).max_rate_limit ≡ 0
unfolding child_scope
child_scope-unlimited tools_str ttl parent e = rw e refl

unlimited-any_rate :
    (p : Platform) (wall : Time) (m : Mandate) (d : Delegation) (rate : ℕ)
    → d.scope.max_rate_limit ≡ 0
    → validate_mandate_against_authority p wall
        (record m { limits = record (m.limits) { max_calls_per_minute = rate } })
        d
      ≡ validate_mandate_against_authority p wall m d
unfolding validate_mandate_against_authority
unlimited-any_rate p wall m d rate e = rw e refl

-- A delegation that `a2g delegate` makes under a parent with a rate limit of 1 call a minute has no
-- rate limit: a mandate is accepted under it or not whatever rate the mandate asks for.
pub cmd_delegate-unlimited :
    (p : Platform) (content_text : Content → Text) (bs58_decode : Text → Option Bytes) (now : Time)
    (id logged : Text) (json : Bool) (parent : Delegation)
    (key_text grantee name level_lower tools_str : Text) (ttl : ℕ) (db : Ledger) {d : Delegation}
    → (cmd_delegate p content_text bs58_decode now id logged json parent key_text grantee name
        level_lower tools_str ttl db).0
      ≡ some (ok d)
    → parent.scope.max_rate_limit ≡ 1
    → (wall : Time) (m : Mandate) (rate : ℕ)
    → validate_mandate_against_authority p wall
        (record m { limits = record (m.limits) { max_calls_per_minute = rate } })
        d
      ≡ validate_mandate_against_authority p wall m d
cmd_delegate-unlimited p content_text bs58 now id logged json parent key_text grantee name
      level_lower tools_str ttl db {d} h one wall m rate =
    let handed =
      cmd_delegate-IsHandedOn p content_text bs58 now id logged json parent key_text grantee name
        level_lower tools_str ttl db h in
    unlimited-any_rate p wall m d rate (
      ap (λ x. x.max_rate_limit) handed.scope_is
      ∙ child_scope-unlimited tools_str ttl parent.scope one)
