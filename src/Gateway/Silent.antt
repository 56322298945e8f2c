-- ===== src/Gateway/Silent.antt =====
-- crates/a2g-gateway/src/server.rs: what the requests write to the bus.
use a2g_cli.Mandate.Types.{Bytes}
use a2g_cli.Base.{
  Adds-map, Adds-trans, Adds-none, Adds, ◌≡◌, refl, sym, ap, ◌∙◌, ◌⊎◌, inl, inr, arith, Bool, true,
  false, not, Option, none, some, List, [], ◌∷◌, is_empty, if◌then◌else◌,
}
use a2g_cli.Base.Text.{slice_to, Text, text_eq}
use a2g_cli.Error.{Message}
use a2g_cli.Platform.{Platform}
use a2g_cli.Hitl.Types.{ApprovalGrant}
use a2g_cli.Gateway.Enforced.{IsEnforceable, check_receipt-pass}
use a2g_cli.Gateway.Bus.{build_frame, write_enforcement_frame}
use a2g_cli.Gateway.Pending.{PendingEntry}
use a2g_cli.Gateway.Types.{
  expected_request_hash, GatewayReceipt, GatewayRequest, sign_binding_request, submit_grant,
  enforce_request, get_public_keys, GatewayState, Codec, Moment, Action, Reply, enforced, pure,
  pass, refuse, panic, next, ◌>>=◌, refuse_if, pass_or_panic,
}
use a2g_cli.Gateway.Check.{
  refuse_forbidden, check_signature, check_decision, check_freshness, check_nonce, check_action,
  check_binding, check_attestation, check_bus_state, approved_or_refuse,
}
use a2g_cli.Gateway.Server.{
  serve, check_receipt, handle_enforce, handle_sign_binding, accept_grant, handle_submit_grant,
  handle_request,
}

-- The step leaves the bus as it is, whatever its reply.
abbrev pub Silent : {A : Type 0} → Action A → Type 0
Silent m = (s : GatewayState) → (m s).1.bus ≡ s.bus

next-Silent :
    {A B : Type 0} (r : Reply A) (s : GatewayState) (f : A → Action B)
    → ((a : A) → Silent (f a))
    → (next r s f).1.bus ≡ s.bus
next-Silent (pass a) s f h = h a s
next-Silent (refuse e) s f h = refl
next-Silent panic s f h = refl

>>=-Silent :
    {A B : Type 0} (m : Action A) (f : A → Action B)
    → Silent m
    → ((a : A) → Silent (f a))
    → Silent (m >>= f)
unfolding ◌>>=◌
>>=-Silent m f h k s = next-Silent (m s).0 (m s).1 f k ∙ h s

refuse_if-Silent : (t : Bool) (e : Message) → Silent (refuse_if t e)
refuse_if-Silent true e s = refl
refuse_if-Silent false e s = refl

pass_or_panic-Silent : {A : Type 0} (o : Option A) → Silent (pass_or_panic o)
pass_or_panic-Silent none s = refl
pass_or_panic-Silent (some a) s = refl

approved_or_refuse-Silent : (id : Text) (o : Option PendingEntry) → Silent (approved_or_refuse id o)
approved_or_refuse-Silent id none s = refl
approved_or_refuse-Silent id (some e) s = refuse_if-Silent (not e.approved) _ s

if-Silent :
    {A : Type 0} (t : Bool) (k l : Action A) → Silent k → Silent l → Silent (if t then k else l)
if-Silent true k l h i = h
if-Silent false k l h i = i

if-bus :
    {A : Type 0} (t : Bool) (x y : Reply A × GatewayState) (s : GatewayState)
    → x.1.bus ≡ s.bus
    → y.1.bus ≡ s.bus
    → (if t then x else y).1.bus ≡ s.bus
if-bus true x y s h i = h
if-bus false x y s h i = i

option-bus :
    {A B : Type 0} (o : Option A) (x : Reply B × GatewayState) (f : A → Reply B × GatewayState)
    (s : GatewayState)
    → x.1.bus ≡ s.bus
    → ((a : A) → (f a).1.bus ≡ s.bus)
    → (elim o as (λ _. Reply B × GatewayState) [ none ↦ x | some a ↦ f a ]).1.bus ≡ s.bus
option-bus none x f s h k = h
option-bus (some a) x f s h k = k a

module _ (p : Platform) (c : Codec) (t : Moment) (r : GatewayReceipt) where
  forbidden-Silent : Silent (refuse_forbidden r)
  unfolding refuse_forbidden
  forbidden-Silent = >>=-Silent _ _ (refuse_if-Silent _ _) (λ a. refuse_if-Silent _ _)

  decision-Silent : Silent (check_decision r)
  unfolding check_decision
  decision-Silent = >>=-Silent _ _ (refuse_if-Silent _ _) (λ a. refuse_if-Silent _ _)

  freshness-Silent : Silent (check_freshness t r)
  unfolding check_freshness
  freshness-Silent = refuse_if-Silent _ _

  signature-Silent : Silent (check_signature p c r)
  unfolding check_signature
  signature-Silent s = ground arith

  nonce-Silent : Silent (check_nonce r)
  unfolding check_nonce
  nonce-Silent s = ground arith

  attestation-Silent : Silent (check_attestation p c t r)
  unfolding check_attestation
  attestation-Silent s = ground arith

  state-Silent : Silent (check_bus_state t r)
  unfolding check_bus_state
  state-Silent s = ground arith

  action-Silent : Silent (check_action p c r)
  unfolding check_action
  action-Silent =
      if-Silent (text_eq r.request_hash (expected_request_hash p c r)) _ _ (λ s. refl)
        (>>=-Silent _ _ (pass_or_panic-Silent _)
          (λ a. >>=-Silent _ _ (pass_or_panic-Silent _) (λ b s. refl)))

  binding-Silent : Silent (check_binding r)
  unfolding check_binding
  binding-Silent s =
      if-bus (is_empty r.binding_id) _ _ s refl
        (>>=-Silent _ _ (approved_or_refuse-Silent r.binding_id _) (λ a s'. refl) s)

  receipt-Silent : Silent (check_receipt p c t r)
  unfolding check_receipt
  receipt-Silent = >>=-Silent _ _ forbidden-Silent (λ a. >>=-Silent _ _ signature-Silent (λ a.
      >>=-Silent _ _ decision-Silent (λ a. >>=-Silent _ _ freshness-Silent (λ a.
        >>=-Silent _ _ nonce-Silent (λ a. >>=-Silent _ _ action-Silent (λ a.
          >>=-Silent _ _ binding-Silent
            (λ a. >>=-Silent _ _ attestation-Silent (λ a. state-Silent))))))))

-- What a request does to the bus: nothing, or one frame for the enforceable receipt it presents.
abbrev pub BusStep :
    Platform → Codec → Moment → GatewayRequest → GatewayState → GatewayState → Type 0
BusStep p c t req s s' =
    (s'.bus ≡ s.bus)
    ⊎ ((r : GatewayReceipt) × (req ≡ enforce_request r)
        × IsEnforceable p c t r s
        × (s'.bus ≡ build_frame p r.verdict_id r.tool ∷ s.bus))

module _ (p : Platform) (c : Codec) (t : Moment) where
  enforce-BusStep :
      (r : GatewayReceipt) (s : GatewayState)
      → BusStep p c t (enforce_request r) s (handle_enforce p c t r s).1
  unfolding handle_enforce ◌>>=◌ write_enforcement_frame
  enforce-BusStep r s = go (check_receipt p c t r s).0 (check_receipt p c t r s).1 refl
    where
      go :
          (x : Reply Unit) (s1 : GatewayState)
          → check_receipt p c t r s ≡ (x, s1)
          → BusStep p c t
              (enforce_request r)
              s
              (next x s1 (λ u. write_enforcement_frame p t r.verdict_id r.tool >>= λ w.
                pure (enforced r.verdict_id w.0 w.1))).1
      go (pass u) s1 e = inr (
        r,
        refl,
        (check_receipt-pass p c t r s e).0,
        ap (λ q. build_frame p r.verdict_id r.tool ∷ q.1.bus) (sym e)
            ∙ ap (λ b. build_frame p r.verdict_id r.tool ∷ b) (receipt-Silent p c t r s),
      )
      go (refuse f) s1 e = inl (ap (λ q. q.1.bus) (sym e) ∙ receipt-Silent p c t r s)
      go panic s1 e = inl (ap (λ q. q.1.bus) (sym e) ∙ receipt-Silent p c t r s)

  sign_binding-Silent : (json : Text) → Silent (handle_sign_binding p c t json)
  unfolding handle_sign_binding
  sign_binding-Silent json s = ground arith

  accept_grant-Silent : (g : ApprovalGrant) → Silent (accept_grant p c t g)
  unfolding accept_grant
  accept_grant-Silent g s = ground arith

  submit_grant-Silent : (json : Text) → Silent (handle_submit_grant p c t json)
  unfolding handle_submit_grant
  submit_grant-Silent json s = option-bus (c.parse_grant json) _ _ s refl (λ g.
      if-bus (text_eq g.approver_pubkey (p.hex_encode s.keys.operator_verifying_key)) _ _ s
        (accept_grant-Silent g s)
        (option-bus (slice_to 8 g.approver_pubkey) _ _ s refl (λ log. refl)))

  pub handle_request-BusStep :
      (req : GatewayRequest) (s : GatewayState) → BusStep p c t req s (handle_request p c t req s).1
  unfolding handle_request
  handle_request-BusStep (sign_binding_request json) s = inl (sign_binding-Silent json s)
  handle_request-BusStep (submit_grant json) s = inl (submit_grant-Silent json s)
  handle_request-BusStep (enforce_request r) s = enforce-BusStep r s
  handle_request-BusStep get_public_keys s = inl refl

-- The frame was built for a receipt that one of the requests presents, and that passes every check in
-- the state in which that request is served.
abbrev pub IsJustified :
    Platform → Codec → List (Moment × GatewayRequest) → GatewayState → Bytes → Type 0
IsJustified p c [] s frame = ⊥
IsJustified p c ((t, req) ∷ rest) s frame =
    ((r : GatewayReceipt) × (req ≡ enforce_request r)
      × IsEnforceable p c t r s
      × (frame ≡ build_frame p r.verdict_id r.tool))
    ⊎ IsJustified p c rest (handle_request p c t req s).1 frame

module _ (p : Platform) (c : Codec) (t : Moment) (req : GatewayRequest)
    (rest : List (Moment × GatewayRequest)) (s : GatewayState) where
  step-Adds :
      (s' : GatewayState)
      → BusStep p c t req s s'
      → Adds (IsJustified p c ((t, req) ∷ rest) s) s.bus s'.bus
  step-Adds s' (inl e) = ([], e, tt)
  step-Adds s' (inr (r, same, good, e)) =
      (build_frame p r.verdict_id r.tool ∷ [], e, (inl (r, same, good, refl), tt))

  reply-Adds :
      {A : Type 0} (x : Reply A) (later now : GatewayState)
      → Adds (IsJustified p c ((t, req) ∷ rest) s) s.bus later.bus
      → Adds (IsJustified p c ((t, req) ∷ rest) s) s.bus now.bus
      → Adds
          (IsJustified p c ((t, req) ∷ rest) s)
          s.bus
          (elim x as (λ _. GatewayState) [ pass a ↦ later | refuse e ↦ later | panic ↦ now ]).bus
  reply-Adds (pass a) later now h k = h
  reply-Adds (refuse e) later now h k = h
  reply-Adds panic later now h k = k

-- Whatever requests the gateway serves, in whatever order and at whatever moments: the frames on the
-- bus afterwards are those that were there and, in front of them, frames each built for a receipt
-- that one of the requests presents and that passes every check of the gateway in the state in which
-- that request is served, among them that it says ALLOW and that neither domain forbids its tool.
pub serve-IsJustified :
    (p : Platform) (c : Codec) (requests : List (Moment × GatewayRequest)) (s : GatewayState)
    → Adds (IsJustified p c requests s) s.bus (serve p c requests s).bus
unfolding serve
serve-IsJustified p c [] s = Adds-none _ s.bus
serve-IsJustified p c ((t, req) ∷ rest) s =
    let s' = (handle_request p c t req s).1 in
    let h = step-Adds p c t req rest s s' (handle_request-BusStep p c t req s) in
    let later = serve p c rest s' in
    reply-Adds p c t req rest s (handle_request p c t req s).0 later s'
      (Adds-trans _ s.bus s'.bus later.bus h
        (Adds-map _ s'.bus later.bus (λ a k. inr k) (serve-IsJustified p c rest s')))
      h
