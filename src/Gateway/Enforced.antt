-- ===== src/Gateway/Enforced.antt =====
-- crates/a2g-gateway/src/server.rs, `handle_enforce`: the gateway writes to the bus only for a
-- receipt that has passed every check.
use a2g_cli.Gateway.Bus.{build_frame, write_enforcement_frame}
use mathlib.Core.Path.{subst, subst⁻¹}
use a2g_cli.Gateway.Served.{
  check_binding-pass, check_action-pass, check_nonce-pass, BindingSpent, check_freshness-pass,
  check_bus_state-pass, check_decision-pass, check_attestation-pass, StateFits,
  check_signature-pass, IsAttested, refuse_forbidden-pass, IsSigned,
}
use a2g_cli.Gateway.Invert.{>>=-eq-pass}
use a2g_cli.Base.Int.{ltb_ℤ, ℤ}
use a2g_cli.Base.Text.{codes, text_eq, Text}
use a2g_cli.Gateway.Server.{handle_enforce, check_receipt}
use a2g_cli.Gateway.Check.{
  check_binding, check_action, check_nonce, check_freshness, check_decision, below_gate, in_window,
  requires_hitl_binding, check_signature, check_bus_state, check_attestation, refuse_forbidden,
  is_cockpit_forbidden, is_forbidden,
}
use a2g_cli.Platform.{Platform}
use a2g_cli.Gateway.Types.{
  GatewayResponse, expected_request_hash, pass, GatewayState, Moment, Codec, GatewayReceipt,
}
use a2g_cli.Gateway.Pending.{
  PendingEntry, nonce_seen, hwm_gate_ms, lookup_entry, nonce_ring_capacity, push_nonce,
  save_if_persistent, remove, record_nonce, get_entry, PendingQueue, record_nonce_with_ts,
}
use a2g_cli.Base.{
  ◌&&◌, if◌then◌else◌, ◌≡◌, refl, sym, ap, ◌∙◌, Bool, true, false, Option, some, is_empty, inl, inr,
  ◌⊎◌, ◌∷◌,
}

-- The receipt names no binding, or one that is pending and approved.
abbrev pub Approved : GatewayReceipt → Option PendingEntry → Type 0
Approved r o =
    (is_empty r.binding_id ≡ true) ⊎ ((e : PendingEntry) × (o ≡ some e) × (e.approved ≡ true))

-- Everything that `handle_enforce` demands of a receipt in a state.
pub record IsEnforceable (p : Platform) (c : Codec) (t : Moment) (r : GatewayReceipt)
    (s : GatewayState) : Type 0 where
  pub tool_named : is_forbidden r.tool ≡ false
  pub cockpit_named : is_cockpit_forbidden r.tool ≡ false
  pub signed : IsSigned p c s r
  pub allowed : text_eq r.decision (codes "ALLOW") ≡ true
  pub bound : (requires_hitl_binding r.tool && is_empty r.binding_id) ≡ false
  pub in_time : in_window t.now_ms r.issued_at_ms ≡ true
  pub above_gate : below_gate (hwm_gate_ms s.pending) r.issued_at_ms ≡ false
  pub unseen : nonce_seen r.nonce_hex s.pending ≡ false
  pub same_action : text_eq r.request_hash (expected_request_hash p c r) ≡ true
  pub approved_binding : Approved r (get_entry r.binding_id s.pending)
  pub attested : IsAttested p c t r s
  pub state_fits : StateFits t r s

-- The queue after an enforced receipt: its nonce is recorded and its binding, if any, is spent.
abbrev pub queue_after : GatewayReceipt → PendingQueue → PendingQueue
queue_after r q =
    let q' = record_nonce_with_ts r.nonce_hex r.issued_at_ms q in
    if is_empty r.binding_id then q' else remove r.binding_id q'

pub if-same :
    {A B : Type 0} (t : Bool) (f : A → B) (x y : A) → f x ≡ f y → f (if t then x else y) ≡ f y
if-same true f x y h = h
if-same false f x y h = refl

save_if_persistent-entries : (q : PendingQueue) → (save_if_persistent q).entries ≡ q.entries
unfolding save_if_persistent
save_if_persistent-entries q = if-same (q.persistent && q.disk_writable) (λ x. x.entries) _ q refl

get_entry-record_nonce_with_ts :
    (k n : Text) (ms : ℤ) (q : PendingQueue)
    → get_entry k (record_nonce_with_ts n ms q) ≡ get_entry k q
unfolding record_nonce_with_ts get_entry record_nonce
get_entry-record_nonce_with_ts k n ms q =
    let q' = record q { nonce_ring = push_nonce nonce_ring_capacity n q.nonce_ring } in
    if-same (ltb_ℤ q.nonce_hwm_ms ms) (λ x. lookup_entry k x.entries) _ q'
      (ap (lookup_entry k) (
        save_if_persistent-entries
          (record q' { nonce_hwm_ms = ms; loaded_from_prior_session = false })))

module _ (p : Platform) (c : Codec) (t : Moment) (r : GatewayReceipt) (s : GatewayState) where
  tail-pass :
      (q : PendingQueue) {s1 s2 s3 : GatewayState}
      → s1 ≡ record s { pending = q }
      → check_attestation p c t r s1 ≡ (pass tt, s2)
      → check_bus_state t r s2 ≡ (pass tt, s3)
      → IsAttested p c t r s × StateFits t r s × (s3 ≡ record s { pending = q })
  tail-pass q {s1} {s2} {s3} e h k =
      let (at, e1) = check_attestation-pass r s1 p c t h in
      let (st, e2) = check_bus_state-pass r s2 t k in
      (
        subst (λ x. IsAttested p c t r x) e at,
        subst (λ x. StateFits t r x) (sym e1 ∙ e) st,
        sym e2 ∙ sym e1 ∙ e,
      )

  binding-tail-pass :
      (q : PendingQueue) {s1 s2 s3 : GatewayState}
      → BindingSpent r (record s { pending = q }) s1
      → check_attestation p c t r s1 ≡ (pass tt, s2)
      → check_bus_state t r s2 ≡ (pass tt, s3)
      → Approved r (get_entry r.binding_id q)
        × IsAttested p c t r s
        × StateFits t r s
        × (s3 ≡ record s { pending = if is_empty r.binding_id then q else remove r.binding_id q })
  binding-tail-pass q (inl (ne, same)) h k =
      let (at, st, e) = tail-pass q (sym same) h k in (inl ne, at, st, rw ne e)
  binding-tail-pass q (inr (ne, e, found, granted, same)) h k =
      let (at, st, e') = tail-pass (remove r.binding_id q) same h k in
      (inr (e, found, granted), at, st, rw ne e')

  pub check_receipt-pass :
      {s' : GatewayState}
      → check_receipt p c t r s ≡ (pass tt, s')
      → IsEnforceable p c t r s × (s' ≡ record s { pending = queue_after r s.pending })
  unfolding check_receipt
  check_receipt-pass h =
      let (u1, s1, h1, k1) = >>=-eq-pass (refuse_forbidden r) _ s h in
      let (f1, f2, e1) = refuse_forbidden-pass r s h1 in
      let (u2, s2, h2, k2) = >>=-eq-pass (check_signature p c r) _ s1 k1 in
      let (g, e2) = check_signature-pass r s1 p c h2 in
      let (u3, s3, h3, k3) = >>=-eq-pass (check_decision r) _ s2 k2 in
      let (d1, d2, e3) = check_decision-pass r s2 h3 in
      let (u4, s4, h4, k4) = >>=-eq-pass (check_freshness t r) _ s3 k3 in
      let (w, e4) = check_freshness-pass r s3 t h4 in
      let (u5, s5, h5, k5) = >>=-eq-pass (check_nonce r) _ s4 k4 in
      let (n1, n2, e5) = check_nonce-pass r s4 h5 in
      let (u6, s6, h6, k6) = >>=-eq-pass (check_action p c r) _ s5 k5 in
      let (a, e6) = check_action-pass r s5 p c h6 in
      let (u7, s7, h7, k7) = >>=-eq-pass (check_binding r) _ s6 k6 in
      let b = check_binding-pass r s6 h7 in
      let (u8, s8, h8, k8) = >>=-eq-pass (check_attestation p c t r) _ s7 k7 in
      let q4 = e1 ∙ e2 ∙ e3 ∙ e4 in
      let recorded = record_nonce_with_ts r.nonce_hex r.issued_at_ms s.pending in
      let q6 : s6 ≡ record s { pending = recorded } =
        sym e6
        ∙ e5
        ∙ ap {A = GatewayState} {B = GatewayState}
            (λ x. record x { pending = record_nonce_with_ts r.nonce_hex r.issued_at_ms x.pending })
            (sym q4) in
      let known =
        get_entry-record_nonce_with_ts r.binding_id r.nonce_hex r.issued_at_ms s.pending in
      let (x, at, st, e9) =
        binding-tail-pass recorded (subst (λ x. BindingSpent r x s7) q6 b) h8 k8 in
      (
        record {
          tool_named = f1;
          cockpit_named = f2;
          signed = subst⁻¹ (λ x. IsSigned p c x r) e1 g;
          allowed = d1;
          bound = d2;
          in_time = w;
          above_gate =
              subst⁻¹ (λ x. below_gate (hwm_gate_ms x.pending) r.issued_at_ms ≡ false) q4 n1;
          unseen = subst⁻¹ (λ x. nonce_seen r.nonce_hex x.pending ≡ false) q4 n2;
          same_action = a;
          approved_binding = subst (Approved r) known x;
          attested = at;
          state_fits = st;
        },
        e9,
      )

  -- A receipt that is enforced has passed every check in the state it met: its tool is not
  -- forbidden, it is signed under the receipt key, says ALLOW, is issued within the window, is not
  -- below the restart gate, has a nonce not seen before, names the action by its hash, names an
  -- approved binding if it names one and names one if its tool always needs a human, carries a
  -- verified attestation if it claims one, and meets the bus's state. Then one frame, built from
  -- its verdict and tool, goes on the bus, its nonce is recorded and its binding is spent, and
  -- nothing else changes.
  pub handle_enforce-IsEnforceable :
      {x : GatewayResponse} {s' : GatewayState}
      → handle_enforce p c t r s ≡ (pass x, s')
      → IsEnforceable p c t r s
        × (s' ≡ record s {
          pending = queue_after r s.pending;
          bus = build_frame p r.verdict_id r.tool ∷ s.bus;
        })
  unfolding handle_enforce write_enforcement_frame
  handle_enforce-IsEnforceable h =
      let (u, s1, h1, h2) = >>=-eq-pass (check_receipt p c t r) _ s h in
      let (good, e) = check_receipt-pass h1 in
      let (frame, s2, h3, h4) =
        >>=-eq-pass (write_enforcement_frame p t r.verdict_id r.tool) _ s1 h2 in
      (
        good,
        sym (ap (λ q. q.1) h4)
            ∙ sym (ap (λ q. q.1) h3)
            ∙ ap {A = GatewayState} {B = GatewayState}
                (λ z. record z { bus = build_frame p r.verdict_id r.tool ∷ z.bus }) e,
      )
