-- ===== src/Authority/Linked.antt =====
-- What a verified chain of delegations is, and what the check of it does not cover.
use a2g_cli.Authority.Chain.{verify_links, verify_delegation, check_link}
use a2g_cli.Platform.{Time, Platform}
use a2g_cli.Base.{◌==◌, ◌≡◌, refl, ◌↔◌, arith, ℕ, suc, ◌<◌, List, [], ◌∷◌, true, some, length}
use a2g_cli.Error.{ok_or-eq-ok, ensure-eq-ok, >>-eq-ok, ok}
use a2g_cli.Base.Text.{text_eq, text_eq_iff}
use a2g_cli.Mandate.Types.{Bytes}
use a2g_cli.Authority.Types.{rank, Delegation}

module _ (p : Platform) (wall : Time) where
  -- The signature over the delegation's hash verifies under the key that the delegation names, and
  -- its expiry lies ahead.
  pub record IsVerified (d : Delegation) : Type 0 where
    pub key : Bytes
    pub sig : Bytes
    pub expires : Time
    pub has_key : p.hex_decode d.grantor_pubkey ≡ some key
    pub key_length : length key ≡ 32
    pub key_valid : p.is_verifying_key key ≡ true
    pub has_sig : p.hex_decode d.signature ≡ some sig
    pub sig_length : length sig ≡ 64
    pub verifies : p.verify key (p.utf8 d.delegation_hash) sig ≡ true
    pub has_expiry : p.parse_time d.expires_at ≡ some expires
    pub unexpired : wall < expires

  pub verify_delegation-IsVerified :
      (d : Delegation) → verify_delegation p wall d ≡ ok tt → IsVerified d
  unfolding verify_delegation
  verify_delegation-IsVerified d h =
      let (key, hk, h1) = ok_or-eq-ok (p.hex_decode d.grantor_pubkey) _ _ h in
      let (l1, h2) = ensure-eq-ok (length key == 32) _ _ h1 in
      let (v1, h3) = ensure-eq-ok (p.is_verifying_key key) _ _ h2 in
      let (sig, hs, h4) = ok_or-eq-ok (p.hex_decode d.signature) _ _ h3 in
      let (l2, h5) = ensure-eq-ok (length sig == 64) _ _ h4 in
      let (v2, h6) = ensure-eq-ok (p.verify key (p.utf8 d.delegation_hash) sig) _ _ h5 in
      let (t, ht, h7) = ok_or-eq-ok (p.parse_time d.expires_at) _ _ h6 in
      record {
        key = key;
        sig = sig;
        expires = t;
        has_key = hk;
        key_length = ground arith;
        key_valid = v1;
        has_sig = hs;
        sig_length = ground arith;
        verifies = v2;
        has_expiry = ht;
        unexpired = ground arith;
      }

  pub IsVerified-verify_delegation :
      (d : Delegation) → IsVerified d → verify_delegation p wall d ≡ ok tt
  unfolding verify_delegation
  IsVerified-verify_delegation d v =
      rw (v.has_key, v.key_length, v.key_valid, v.has_sig, v.sig_length, v.verifies, v.has_expiry)
        (ground arith)

  -- Each delegation continues the one before it.
  abbrev pub Linked : Delegation → List Delegation → Type 0
  Linked prev [] = Unit
  Linked prev (d ∷ ds) =
      ((d.parent_delegation_hash ≡ prev.delegation_hash)
        × (d.grantor_did ≡ prev.grantee_did)
        × (rank prev.level < rank d.level)
        × IsVerified d)
      × Linked d ds

  check_link_iff :
      (i : ℕ) (prev d : Delegation)
      → (check_link i prev d ≡ ok tt) ↔ (
          (d.parent_delegation_hash ≡ prev.delegation_hash)
          × (d.grantor_did ≡ prev.grantee_did)
          × (rank prev.level < rank d.level))
  unfolding check_link
  check_link_iff i prev d = (
    λ h.
        let (l1, h2) = ensure-eq-ok (text_eq d.parent_delegation_hash prev.delegation_hash) _ _ h in
        let (l2, h3) = ensure-eq-ok (text_eq d.grantor_did prev.grantee_did) _ _ h2 in
        ((text_eq_iff _ _).0 l1, (text_eq_iff _ _).0 l2, ground arith),
    λ (a, b, c). rw ((text_eq_iff _ _).1 a, (text_eq_iff _ _).1 b) (ground arith),
  )

  pub verify_links-Linked :
      (i : ℕ) (prev : Delegation) (ds : List Delegation)
      → verify_links p wall i prev ds ≡ ok tt
      → Linked prev ds
  unfolding verify_links check_link
  verify_links-Linked i prev [] h = tt
  verify_links-Linked i prev (d ∷ ds) h =
      let (hd, h1) = >>-eq-ok (verify_delegation p wall d) _ h in
      let (hl, h2) = >>-eq-ok (check_link i prev d) _ h1 in
      let (a, b, c) = (check_link_iff i prev d).0 hl in
      ((a, b, c, verify_delegation-IsVerified d hd), verify_links-Linked (suc i) d ds h2)

  pub Linked-verify_links :
      (i : ℕ) (prev : Delegation) (ds : List Delegation)
      → Linked prev ds
      → verify_links p wall i prev ds ≡ ok tt
  unfolding verify_links
  Linked-verify_links i prev [] h = refl
  Linked-verify_links i prev (d ∷ ds) ((a, b, c, v), h) =
      rw (IsVerified-verify_delegation d v, (check_link_iff i prev d).1 (a, b, c))
        (Linked-verify_links (suc i) d ds h)
