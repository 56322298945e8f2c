-- ===== src/Hitl/RoundTrip.antt =====
-- crates/a2g-core/src/hitl.rs: what is signed verifies, and what verifies was bound.
use a2g_cli.Base.{lt→ltb, sym, ◌≡◌, refl, ℕ, ◌<◌, true, some, ◌==◌, length}
use a2g_cli.Base.Text.{Text, text_eq_refl}
use a2g_cli.Error.{ensure-eq-ok, ok_or-eq-ok, ok, >>=-eq-ok, ok-injective}
use a2g_cli.Platform.{Platform, Time}
use a2g_cli.Mandate.Types.{Bytes}
use a2g_cli.Hitl.Types.{PendingApprovalBinding, ApprovalGrant, SignedBinding}
use a2g_cli.Hitl.Grant.{grant_payload_bytes, new_signed, verify_against_binding}
use a2g_cli.Hitl.Binding.{binding_payload_bytes, sign_binding, verify_binding}

-- What the code relies on: hexadecimal text decodes to the bytes it encodes, keys have 32 bytes
-- and signatures 64, and a signature verifies under the public key of the key that made it.
pub record Signs (p : Platform) (key : Bytes) : Type 0 where
  pub decodes : (bs : Bytes) → p.hex_decode (p.hex_encode bs) ≡ some bs
  pub key_length : length (p.public_key key) ≡ 32
  pub key_valid : p.is_verifying_key (p.public_key key) ≡ true
  pub sign_length : (m : Bytes) → length (p.sign key m) ≡ 64
  pub verifies : (m : Bytes) → p.verify (p.public_key key) m (p.sign key m) ≡ true

-- A binding that was signed verifies under the signer's public key, and comes back.
pub verify_binding-sign_binding :
    (p : Platform) (key : Bytes) (b : PendingApprovalBinding) (s : SignedBinding)
    → Signs p key
    → sign_binding p b key ≡ ok s
    → verify_binding p s (p.public_key key) ≡ ok b
unfolding sign_binding verify_binding
verify_binding-sign_binding p key b s sg h =
    let (payload, e, h1) = >>=-eq-ok (binding_payload_bytes p b) _ h in
    let same = ok-injective (λ x. x.binding) h1 in
    let mac = ok-injective (λ x. x.a2g_mac) h1 in
    rw
      (
        sym same,
        e,
        sym mac,
        sg.decodes (p.sign key payload),
        sg.sign_length payload,
        sg.verifies payload,
      )
      refl

-- A grant that was signed for a binding's id and request is accepted for that binding before the
-- expiry that it was given.
pub verify_against_binding-new_signed :
    (p : Platform) (key : Bytes) (b : PendingApprovalBinding) (did parent : Text) (ttl : ℕ)
    (now at expires : Time) (g : ApprovalGrant)
    → Signs p key
    → new_signed p b.binding_id b.request_hash did key ttl now parent ≡ ok g
    → p.parse_time g.expires_at ≡ some expires
    → at < expires
    → verify_against_binding p g b at ≡ ok tt
unfolding new_signed verify_against_binding
verify_against_binding-new_signed p key b did parent ttl now at expires g sg h pt lt =
    let (payload, e, h1) = >>=-eq-ok (grant_payload_bytes p b.binding_id b.request_hash _) _ h in
    let e1 = ok-injective (λ x. x.binding_id) h1 in
    let e2 = ok-injective (λ x. x.request_hash) h1 in
    let e3 = ok-injective (λ x. x.approver_pubkey) h1 in
    let e4 = ok-injective (λ x. x.signature) h1 in
    let e5 = ok-injective (λ x. x.expires_at) h1 in
    rw
      (
        pt,
        sym e1,
        sym e2,
        sym e3,
        sym e4,
        sym e5,
        e,
        text_eq_refl b.binding_id,
        text_eq_refl b.request_hash,
        lt→ltb at expires lt,
        sg.decodes (p.public_key key),
        sg.key_length,
        sg.key_valid,
        sg.decodes (p.sign key payload),
        sg.sign_length payload,
        sg.verifies payload,
      )
      refl

-- The signature covers the expiry in whole seconds only: a binding whose expiry was moved within
-- its second still verifies.
pub verify_binding-within_second :
    (p : Platform) (key : Bytes) (s : SignedBinding) (ttl : Time)
    → p.unix_secs ttl ≡ p.unix_secs s.binding.ttl_expires_at
    → verify_binding p s key ≡ ok s.binding
    → verify_binding p (record s { binding = record s.binding { ttl_expires_at = ttl } }) key
      ≡ ok (record s.binding { ttl_expires_at = ttl })
unfolding verify_binding binding_payload_bytes
verify_binding-within_second p key s ttl e h =
    let (payload, e1, h1) = >>=-eq-ok (binding_payload_bytes p s.binding) _ h in
    let (sig, e2, h2) = ok_or-eq-ok (p.hex_decode s.a2g_mac) _ _ h1 in
    let (l, h3) = ensure-eq-ok (length sig == 64) _ _ h2 in
    let (v, h4) = ensure-eq-ok (p.verify key payload sig) _ _ h3 in
    rw e (rw (e1, e2) (rw (l, v) refl))
