-- ===== src/Gateway/Replay.antt =====
-- crates/a2g-gateway/src/pending.rs and server.rs: the nonce ring, and why a receipt is enforced
-- only once while its nonce is held.
use a2g_cli.Gateway.Server.{handle_enforce}
use a2g_cli.Gateway.Enforced.{handle_enforce-IsEnforceable, queue_after, if-same}
use a2g_cli.Gateway.Types.{pass, GatewayResponse, GatewayState, Moment, Codec, GatewayReceipt}
use a2g_cli.Base.Int.{ltb_ℤ, ℤ}
use a2g_cli.Base.{
  ◌&&◌, ◌≡◌, refl, ap, ◌∙◌, arith, ℕ, ◌≤◌, ◌+◌, Bool, true, false, ◌||◌, List, [], ◌∷◌, ◌++◌,
  length, length-append, any, leb, if◌then◌else◌, is_empty,
}
use a2g_cli.Base.Text.{Text, text_eq, text_eq_refl}
use a2g_cli.Platform.{Platform}
use a2g_cli.Gateway.Pending.{
  PendingQueue, push_nonce, pop_front, record_nonce, record_nonce_with_ts, nonce_seen,
  nonce_ring_capacity, save_if_persistent, remove,
}

length-pop_front : (ns : List Text) → length (pop_front ns) + 1 ≤ length ns + 1
length-pop_front [] = omega arith
length-pop_front (n ∷ ns) = omega arith

length-pop_front-cons : (ns : List Text) → 1 ≤ length ns → length (pop_front ns) + 1 ≡ length ns
length-pop_front-cons [] h = omega arith
length-pop_front-cons (n ∷ ns) h = omega arith

-- A ring of a capacity of at least 1 that has not outgrown it never does.
pub length-push_nonce :
    (capacity : ℕ) (n : Text) (ring : List Text)
    → 1 ≤ capacity
    → length ring ≤ capacity
    → length (push_nonce capacity n ring) ≤ capacity
unfolding push_nonce
length-push_nonce capacity n ring h le =
    let a = length-append (pop_front ring) (n ∷ []) in
    let b = length-append ring (n ∷ []) in
    let c = length-pop_front ring in
    let d = length-pop_front-cons ring in ground (arith, a, b, c, d)

any-append : (f : Text → Bool) (xs ys : List Text) → any f (xs ++ ys) ≡ (any f xs || any f ys)
any-append f [] ys = refl
any-append f (x ∷ xs) ys = ground (arith, any-append f xs ys)

or-last : (a b : Bool) → b ≡ true → (a || (b || false)) ≡ true
or-last a b h = ground arith

if-not-same :
    {A B : Type 0} (t : Bool) (f : A → B) (x y : A) → f y ≡ f x → f (if t then x else y) ≡ f x
if-not-same true f x y h = refl
if-not-same false f x y h = h

push_nonce-seen :
    (capacity : ℕ) (n : Text) (ring : List Text)
    → any (λ m. text_eq m n) (push_nonce capacity n ring) ≡ true
unfolding push_nonce
push_nonce-seen capacity n ring =
    let kept = if leb capacity (length ring) then pop_front ring else ring in
    any-append (λ m. text_eq m n) kept (n ∷ []) ∙ or-last _ _ (text_eq_refl n)

save_if_persistent-ring : (q : PendingQueue) → (save_if_persistent q).nonce_ring ≡ q.nonce_ring
unfolding save_if_persistent
save_if_persistent-ring q = if-same (q.persistent && q.disk_writable) (λ x. x.nonce_ring) _ q refl

record_nonce_with_ts-ring :
    (n : Text) (ms : ℤ) (q : PendingQueue)
    → (record_nonce_with_ts n ms q).nonce_ring ≡ push_nonce nonce_ring_capacity n q.nonce_ring
unfolding record_nonce_with_ts record_nonce
record_nonce_with_ts-ring n ms q =
    let q' = record q { nonce_ring = push_nonce nonce_ring_capacity n q.nonce_ring } in
    if-same (ltb_ℤ q.nonce_hwm_ms ms) (λ x. x.nonce_ring) _ q'
      (save_if_persistent-ring (record q' { nonce_hwm_ms = ms; loaded_from_prior_session = false }))

queue_after-ring :
    (r : GatewayReceipt) (q : PendingQueue)
    → (queue_after r q).nonce_ring ≡ push_nonce nonce_ring_capacity r.nonce_hex q.nonce_ring
unfolding remove
queue_after-ring r q =
    let q' = record_nonce_with_ts r.nonce_hex r.issued_at_ms q in
    if-not-same (is_empty r.binding_id) (λ x. x.nonce_ring) q' _ (save_if_persistent-ring _)
    ∙ record_nonce_with_ts-ring r.nonce_hex r.issued_at_ms q

queue_after-seen :
    (r : GatewayReceipt) (q : PendingQueue) → nonce_seen r.nonce_hex (queue_after r q) ≡ true
unfolding nonce_seen
queue_after-seen r q =
    ap (any (λ m. text_eq m r.nonce_hex)) (queue_after-ring r q)
    ∙ push_nonce-seen nonce_ring_capacity r.nonce_hex q.nonce_ring

-- A receipt that has been enforced is not enforced again by the next request, at whatever moment
-- and although its signature, window and binding may still be good.
pub handle_enforce-once :
    (p : Platform) (c : Codec) (t later : Moment) (r : GatewayReceipt) (s : GatewayState)
    {x y : GatewayResponse} {s1 s2 : GatewayState}
    → handle_enforce p c t r s ≡ (pass x, s1)
    → ¬ (handle_enforce p c later r s1 ≡ (pass y, s2))
handle_enforce-once p c t later r s {s1 = s1} h k =
    let (_, e) = handle_enforce-IsEnforceable p c t r s h in
    let (again, _) = handle_enforce-IsEnforceable p c later r s1 k in
    let seen : nonce_seen r.nonce_hex s1.pending ≡ true =
      ap (λ z. nonce_seen r.nonce_hex z.pending) e ∙ queue_after-seen r s.pending in
    let unseen = again.unseen in cc
