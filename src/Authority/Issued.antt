-- ===== src/Authority/Issued.antt =====
-- crates/a2g-core/src/authority.rs: what is delegated verifies.
use a2g_cli.Base.{
  sym, ℕ, suc, ◌<◌, ◌≡◌, refl, true, not, Option, some, List, [], ◌∷◌, ◌++◌, lt→ltb, length, ◌==◌,
  arith,
}
use a2g_cli.Base.Int.{pos, ltb_ℤ}
use a2g_cli.Base.Text.{Text, text_eq, text_eq_refl}
use a2g_cli.Error.{is_ok, ok, ensure-eq-ok, >>-eq-ok, ok_or-eq-ok, ok-injective}
use a2g_cli.Platform.{Platform, Time}
use a2g_cli.Mandate.Types.{Bytes}
use a2g_cli.Mandate.Verify.{did_of_key}
use a2g_cli.Hitl.RoundTrip.{Signs}
use a2g_cli.Authority.Types.{AuthorityLevel, level_le, AuthorityScope, Jurisdiction, Delegation}
use a2g_cli.Authority.Scope.{validate_scope_subset}
use a2g_cli.Authority.Chain.{
  is_root, leaf_of, genesis_hash, check_link, verify_delegation, verify_links, verify_chain,
  ChainValidation,
}
use a2g_cli.Authority.Delegate.{
  Content, delegate, root_secret, root_delegation_for, create_root_delegation, as_i64, num_hours,
}

module _ (p : Platform) (content_text : Content → Text) (wall : Time) where
  -- A root delegation is accepted as a chain of one until it expires. The key is assumed to sign, and
  -- time stamps to read back.
  pub verify_chain-create_root_delegation :
      (hours : ℕ → Option ℕ) (now : Time) (id secret_hex name : Text) (scope : AuthorityScope)
      (jurisdiction : Jurisdiction) (ttl secs : ℕ) (secret : Bytes) (d : Delegation)
      (expires : Time)
      → Signs p secret
      → p.hex_decode secret_hex ≡ some secret
      → hours (as_i64 ttl) ≡ some secs
      → p.checked_add_secs now secs ≡ some expires
      → p.parse_time (p.to_rfc3339 expires) ≡ some expires
      → wall < expires
      → create_root_delegation p content_text hours now id secret_hex name scope jurisdiction ttl
        ≡ some (ok d)
      → is_ok (verify_chain p wall (d ∷ [])) ≡ true
  unfolding create_root_delegation root_secret root_delegation_for verify_chain verify_links
      verify_delegation
  verify_chain-create_root_delegation hours now id secret_hex name scope jurisdiction ttl secs
        secret d expires sg es eh ee back late h =
      let made : d ≡ root_delegation_for p content_text now id secret name secs scope jurisdiction =
        ground (arith, es, eh, h) in
      rw
        (
          made,
          text_eq_refl (did_of_key p (p.public_key secret)),
          text_eq_refl genesis_hash,
          sg.decodes (p.public_key secret),
          sg.key_length,
          sg.key_valid,
          sg.decodes (p.sign secret _),
          sg.sign_length _,
          sg.verifies _,
          ee,
          back,
          lt→ltb wall expires late,
        )
        refl

  signed-verify_delegation :
      (secret : Bytes) (d : Delegation) (expires : Time)
      → Signs p secret
      → d.grantor_pubkey ≡ p.hex_encode (p.public_key secret)
      → d.signature ≡ p.hex_encode (p.sign secret (p.utf8 d.delegation_hash))
      → p.parse_time d.expires_at ≡ some expires
      → wall < expires
      → verify_delegation p wall d ≡ ok tt
  unfolding verify_delegation
  signed-verify_delegation secret d expires sg key sig back late =
      rw
        (
          key,
          sig,
          sg.decodes (p.public_key secret),
          sg.key_length,
          sg.key_valid,
          sg.decodes (p.sign secret _),
          sg.sign_length _,
          sg.verifies _,
          back,
          lt→ltb wall expires late,
        )
        refl

  linked-check_link :
      (i : ℕ) (prev d : Delegation)
      → d.parent_delegation_hash ≡ prev.delegation_hash
      → d.grantor_did ≡ prev.grantee_did
      → not (level_le d.level prev.level) ≡ true
      → check_link i prev d ≡ ok tt
  unfolding check_link
  linked-check_link i prev d above from lower =
      rw (above, text_eq_refl prev.delegation_hash, from, text_eq_refl prev.grantee_did, lower) refl

  -- What `delegate` makes is verified, and linked to its parent.
  delegate-linked :
      (now : Time) (id secret_hex : Text) (parent : Delegation) (did name : Text)
      (level : AuthorityLevel) (scope : AuthorityScope) (jurisdiction : Jurisdiction) (ttl : ℕ)
      (secret : Bytes) (d : Delegation) (expires : Time) (i : ℕ)
      → Signs p secret
      → p.hex_decode secret_hex ≡ some secret
      → p.parse_time d.expires_at ≡ some expires
      → wall < expires
      → delegate p content_text now id secret_hex parent did name level scope jurisdiction ttl
        ≡ ok d
      → (verify_delegation p wall d ≡ ok tt) × (check_link i parent d ≡ ok tt)
  unfolding delegate num_hours verify_delegation check_link
  delegate-linked now id secret_hex parent did name level scope jurisdiction ttl secret d expires i
        sg es back late h =
      let (lower, h1) = ensure-eq-ok (not (level_le level parent.level)) _ _ h in
      let (fits, h2) = >>-eq-ok (validate_scope_subset scope parent.scope) _ h1 in
      let (ends, e3, h3) = ok_or-eq-ok (p.parse_time parent.expires_at) _ _ h2 in
      let (short, h4) = ensure-eq-ok (not (ltb_ℤ (num_hours ends now) (pos (as_i64 ttl)))) _ _ h3 in
      let (bs, e5, h5) = ok_or-eq-ok (p.hex_decode secret_hex) _ _ h4 in
      let (len, h6) = ensure-eq-ok (length bs == 32) _ _ h5 in
      let (mine, h7) =
        ensure-eq-ok (text_eq (did_of_key p (p.public_key bs)) parent.grantee_did) _ _ h6 in
      let same : bs ≡ secret = ground (arith, e5, es) in
      let is = λ (f : Delegation → Text). ok-injective f h7 in
      let key = is (λ x. x.grantor_pubkey) in
      let sig = is (λ x. x.signature) in
      let hash = is (λ x. x.delegation_hash) in
      let above = is (λ x. x.parent_delegation_hash) in
      let from = is (λ x. x.grantor_did) in
      let at = ok-injective (λ x. x.level) h7 in
      (
        signed-verify_delegation secret d expires sg (cc) (cc) back late,
        linked-check_link i parent d (sym above) (sym from) (rw (sym at) lower),
      )

  verify_links-append :
      (i : ℕ) (prev : Delegation) (ds : List Delegation) (d : Delegation)
      → verify_links p wall i prev ds ≡ ok tt
      → verify_delegation p wall d ≡ ok tt
      → ((j : ℕ) → check_link j (leaf_of p wall prev ds) d ≡ ok tt)
      → verify_links p wall i prev (ds ++ (d ∷ [])) ≡ ok tt
  unfolding verify_links
  verify_links-append i prev [] d h v l = rw (v, l i) refl
  verify_links-append i prev (e ∷ es) d h v l =
      let (a, h1) = >>-eq-ok (verify_delegation p wall e) _ h in
      let (b, h2) = >>-eq-ok (check_link i prev e) _ h1 in
      rw (a, b) (verify_links-append (suc i) e es d h2 v l)

  -- A chain that verifies, extended by what its last grantee delegates, verifies until the new
  -- delegation expires. The delegating key is assumed to sign.
  pub verify_chain-delegate :
      (now : Time) (id secret_hex : Text) (r : Delegation) (ds : List Delegation) (did name : Text)
      (level : AuthorityLevel) (scope : AuthorityScope) (jurisdiction : Jurisdiction) (ttl : ℕ)
      (secret : Bytes) (d : Delegation) (expires : Time) (v : ChainValidation)
      → Signs p secret
      → p.hex_decode secret_hex ≡ some secret
      → p.parse_time d.expires_at ≡ some expires
      → wall < expires
      → verify_chain p wall (r ∷ ds) ≡ ok v
      → delegate p content_text now id secret_hex
          (leaf_of p wall r ds)
          did
          name
          level
          scope
          jurisdiction
          ttl
        ≡ ok d
      → is_ok (verify_chain p wall (r ∷ (ds ++ (d ∷ [])))) ≡ true
  unfolding verify_chain
  verify_chain-delegate now id secret_hex r ds did name level scope jurisdiction ttl secret d
        expires v sg es back late h made =
      let (a, h1) = ensure-eq-ok (text_eq r.grantor_did r.grantee_did) _ _ h in
      let (b, h2) = ensure-eq-ok (is_root r.level) _ _ h1 in
      let (c, h3) = ensure-eq-ok (text_eq r.parent_delegation_hash genesis_hash) _ _ h2 in
      let (u, h4) = >>-eq-ok (verify_delegation p wall r) _ h3 in
      let (w, h5) = >>-eq-ok (verify_links p wall 1 r ds) _ h4 in
      let child = λ (j : ℕ).
        delegate-linked now id secret_hex (leaf_of p wall r ds) did name level scope jurisdiction
          ttl secret d expires j sg es back late made in
      let longer = verify_links-append 1 r ds d w (child 1).0 (λ j. (child j).1) in
      rw (a, b, c, u, longer) refl
