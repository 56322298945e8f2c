-- ===== src/Hitl/Granted.antt =====
-- crates/a2g-core/src/hitl.rs: what the checks of a grant and of a signed binding demand.
use a2g_cli.Base.{◌≡◌, refl, ◌↔◌, ◌<◌, ◌==◌, true, some, length, ltb, lt→ltb, arith}
use a2g_cli.Base.Text.{codes, text_eq, text_eq_iff}
use a2g_cli.Error.{ok, ensure-eq-ok, ok_or-eq-ok, >>=-eq-ok, ok-injective}
use a2g_cli.Platform.{Platform, Time}
use a2g_cli.Mandate.Types.{Bytes}
use a2g_cli.Hitl.Types.{PendingApprovalBinding, ApprovalGrant, SignedBinding}
use a2g_cli.Hitl.Grant.{grant_payload_bytes, verify_against_binding}
use a2g_cli.Hitl.Binding.{binding_payload_bytes, verify_binding}

module _ (p : Platform) where
  -- A grant for the binding and its request, before the grant's expiry, with a signature of the
  -- grant's own key over the binding, the request and the expiry.
  pub record IsGranted (g : ApprovalGrant) (pending : PendingApprovalBinding) (now : Time)
      : Type 0 where
    pub same_binding : g.binding_id ≡ pending.binding_id
    pub same_request : g.request_hash ≡ pending.request_hash
    pub expires : Time
    pub has_expiry : p.parse_time g.expires_at ≡ some expires
    pub unexpired : now < expires
    pub key : Bytes
    pub has_key : p.hex_decode g.approver_pubkey ≡ some key
    pub key_length : length key ≡ 32
    pub key_valid : p.is_verifying_key key ≡ true
    pub sig : Bytes
    pub has_sig : p.hex_decode g.signature ≡ some sig
    pub sig_length : length sig ≡ 64
    pub hash : Bytes
    pub has_hash : p.hex_decode g.request_hash ≡ some hash
    pub payload : Bytes
    pub has_payload :
        p.encode_grant (record {
          tag = codes "APPROVAL";
          binding_id = g.binding_id;
          request_hash = hash;
          expires_at = g.expires_at;
        })
        ≡ some payload
    pub verifies : p.verify key payload sig ≡ true

  verify_against_binding-IsGranted :
      (g : ApprovalGrant) (b : PendingApprovalBinding) (now : Time)
      → verify_against_binding p g b now ≡ ok tt
      → IsGranted g b now
  unfolding verify_against_binding grant_payload_bytes
  verify_against_binding-IsGranted g b now h =
      let (sb, h1) = ensure-eq-ok (text_eq g.binding_id b.binding_id) _ _ h in
      let (sr, h2) = ensure-eq-ok (text_eq g.request_hash b.request_hash) _ _ h1 in
      let (expires, he, h3) = ok_or-eq-ok (p.parse_time g.expires_at) _ _ h2 in
      let (lt, h4) = ensure-eq-ok (ltb now expires) _ _ h3 in
      let (key, hk, h5) = ok_or-eq-ok (p.hex_decode g.approver_pubkey) _ _ h4 in
      let (l1, h6) = ensure-eq-ok (length key == 32) _ _ h5 in
      let (v1, h7) = ensure-eq-ok (p.is_verifying_key key) _ _ h6 in
      let (sig, hs, h8) = ok_or-eq-ok (p.hex_decode g.signature) _ _ h7 in
      let (l2, h9) = ensure-eq-ok (length sig == 64) _ _ h8 in
      let (payload, hp, h10) = >>=-eq-ok (grant_payload_bytes p _ _ _) _ h9 in
      let (hash, hh, h11) = ok_or-eq-ok (p.hex_decode g.request_hash) _ _ hp in
      record {
        same_binding = (text_eq_iff _ _).0 sb;
        same_request = (text_eq_iff _ _).0 sr;
        expires = expires;
        has_expiry = he;
        unexpired = ground arith;
        key = key;
        has_key = hk;
        key_length = ground arith;
        key_valid = v1;
        sig = sig;
        has_sig = hs;
        sig_length = ground arith;
        hash = hash;
        has_hash = hh;
        payload = payload;
        has_payload = ground arith;
        verifies = ground arith;
      }

  IsGranted-verify_against_binding :
      (g : ApprovalGrant) (b : PendingApprovalBinding) (now : Time)
      → IsGranted g b now
      → verify_against_binding p g b now ≡ ok tt
  unfolding verify_against_binding grant_payload_bytes
  IsGranted-verify_against_binding g b now m =
      rw
        (
          (text_eq_iff _ _).1 m.same_binding,
          (text_eq_iff _ _).1 m.same_request,
          m.has_expiry,
          lt→ltb now m.expires m.unexpired,
          m.has_key,
          m.key_length,
          m.key_valid,
          m.has_sig,
          m.sig_length,
          m.has_hash,
          m.has_payload,
          m.verifies,
        )
        refl

  pub verify_against_binding_iff :
      (g : ApprovalGrant) (b : PendingApprovalBinding) (now : Time)
      → (verify_against_binding p g b now ≡ ok tt) ↔ IsGranted g b now
  verify_against_binding_iff g b now =
      (verify_against_binding-IsGranted g b now, IsGranted-verify_against_binding g b now)

  -- A binding with a signature that verifies under the key, over the binding, its request, its
  -- approver and the second of its deadline.
  pub record IsBound (s : SignedBinding) (key : Bytes) : Type 0 where
    pub hash : Bytes
    pub has_hash : p.hex_decode s.binding.request_hash ≡ some hash
    pub payload : Bytes
    pub has_payload :
        p.encode_binding (record {
          tag = codes "BINDING";
          binding_id = s.binding.binding_id;
          request_hash = hash;
          escalate_to = s.binding.escalate_to;
          ttl_unix_secs = p.unix_secs s.binding.ttl_expires_at;
        })
        ≡ some payload
    pub sig : Bytes
    pub has_sig : p.hex_decode s.a2g_mac ≡ some sig
    pub sig_length : length sig ≡ 64
    pub verifies : p.verify key payload sig ≡ true

  pub verify_binding-IsBound :
      (s : SignedBinding) (key : Bytes) (b : PendingApprovalBinding)
      → verify_binding p s key ≡ ok b
      → (s.binding ≡ b) × IsBound s key
  unfolding verify_binding binding_payload_bytes
  verify_binding-IsBound s key b h =
      let (payload, hp, h1) = >>=-eq-ok (binding_payload_bytes p s.binding) _ h in
      let (hash, hh, h2) = ok_or-eq-ok (p.hex_decode s.binding.request_hash) _ _ hp in
      let (sig, hs, h3) = ok_or-eq-ok (p.hex_decode s.a2g_mac) _ _ h1 in
      let (l, h4) = ensure-eq-ok (length sig == 64) _ _ h3 in
      let (v, h5) = ensure-eq-ok (p.verify key payload sig) _ _ h4 in
      (
        ok-injective (λ x. x) h5,
        record {
          hash = hash;
          has_hash = hh;
          payload = payload;
          has_payload = ground arith;
          sig = sig;
          has_sig = hs;
          sig_length = ground arith;
          verifies = v;
        },
      )

  pub IsBound-verify_binding :
      (s : SignedBinding) (key : Bytes) → IsBound s key → verify_binding p s key ≡ ok s.binding
  unfolding verify_binding binding_payload_bytes
  IsBound-verify_binding s key m =
      rw (m.has_hash, m.has_payload, m.has_sig, m.sig_length, m.verifies) refl
