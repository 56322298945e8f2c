-- ===== src/Gateway/Window.antt =====
-- crates/a2g-gateway/src/pending.rs: the nonce ring as a window on all the nonces ever recorded.
use mathlib.Core.List.{append_assoc, append-nil}
use mathlib.Core.Path.{subst}
use a2g_cli.Base.{
  map, ℕ, zero, suc, ◌-◌, ◌≤◌, ◌<◌, ◌≡◌, refl, sym, ◌∙◌, ap, ◌&&◌, true, false, List, [], ◌∷◌, ◌++◌,
  length, drop, any, leb, length-append, Bool-cases, inl, inr, leb→le, arith,
}
use a2g_cli.Base.Int.{ℤ, ltb_ℤ}
use a2g_cli.Base.Text.{list_contains, Text, text_eq}
use a2g_cli.Gateway.Pending.{
  PendingQueue, nonce_seen, nonce_ring_capacity, pop_front, push_nonce, record_nonce,
  record_nonce_with_ts, save_if_persistent,
}
use a2g_cli.Gateway.Enforced.{if-same}

-- The last `n` elements.
abbrev pub last_n : ℕ → List Text → List Text
last_n n xs = drop (length xs - n) xs

length-drop : (k : ℕ) (xs : List Text) → length (drop k xs) ≡ length xs - k
length-drop zero xs = omega arith
length-drop (suc k) [] = omega arith
length-drop (suc k) (x ∷ xs) = omega (arith, length-drop k xs)

pop_front-drop : (k : ℕ) (xs : List Text) → pop_front (drop k xs) ≡ drop (suc k) xs
pop_front-drop zero [] = refl
pop_front-drop zero (x ∷ xs) = refl
pop_front-drop (suc k) [] = refl
pop_front-drop (suc k) (x ∷ xs) = pop_front-drop k xs

drop-append : (k : ℕ) (xs ys : List Text) → k ≤ length xs → drop k (xs ++ ys) ≡ drop k xs ++ ys
drop-append zero xs ys h = refl
drop-append (suc k) [] ys h = let none_left : ⊥ = omega (arith, h) in elim none_left [ ]
drop-append (suc k) (x ∷ xs) ys h = drop-append k xs ys (omega (arith, h))

-- Pushing on a window is the window on the longer history.
push_nonce-last_n :
    (capacity : ℕ) (n : Text) (seen : List Text)
    → 1 ≤ capacity
    → push_nonce capacity n (last_n capacity seen) ≡ last_n capacity (seen ++ (n ∷ []))
unfolding push_nonce
push_nonce-last_n capacity n seen h =
    let l = length-append seen (n ∷ []) in
    let k = length-drop (length seen - capacity) seen in
    elim (Bool-cases (leb capacity (length seen))) [
      | inl full ↦
          let le = leb→le capacity (length seen) full in
          let at_full : leb capacity (length (last_n capacity seen)) ≡ true =
            ground (arith, k, le) in
          let longer : length (seen ++ (n ∷ [])) - capacity ≡ suc (length seen - capacity) =
            omega (arith, l, le) in
          rw (at_full, longer, pop_front-drop (length seen - capacity) seen)
            (sym (drop-append (suc (length seen - capacity)) seen (n ∷ []) (omega (arith, le, h))))
      | inr short ↦
          let lt : length seen < capacity = ground (arith, short) in
          let none_off : length seen - capacity ≡ 0 = omega (arith, lt) in
          let still_none : length (seen ++ (n ∷ [])) - capacity ≡ 0 = omega (arith, l, lt) in
          rw (none_off, still_none, short) refl
    ]

any-list_contains : (n : Text) (xs : List Text) → any (λ m. text_eq m n) xs ≡ list_contains xs n
unfolding list_contains
any-list_contains n [] = refl
any-list_contains n (x ∷ xs) = ground (arith, any-list_contains n xs)

save_if_persistent-nonce_ring :
    (q : PendingQueue) → (save_if_persistent q).nonce_ring ≡ q.nonce_ring
unfolding save_if_persistent
save_if_persistent-nonce_ring q =
    if-same (q.persistent && q.disk_writable) (λ x. x.nonce_ring) _ q refl

record_nonce_with_ts-nonce_ring :
    (n : Text) (ms : ℤ) (q : PendingQueue)
    → (record_nonce_with_ts n ms q).nonce_ring ≡ push_nonce nonce_ring_capacity n q.nonce_ring
unfolding record_nonce_with_ts record_nonce
record_nonce_with_ts-nonce_ring n ms q =
    let q' = record q { nonce_ring = push_nonce nonce_ring_capacity n q.nonce_ring } in
    if-same (ltb_ℤ q.nonce_hwm_ms ms) (λ x. x.nonce_ring) _ q'
      (save_if_persistent-nonce_ring
        (record q' { nonce_hwm_ms = ms; loaded_from_prior_session = false }))

-- The queue after nonces have been recorded, each with its timestamp.
unfoldable pub record_nonces : List (Text × ℤ) → PendingQueue → PendingQueue
unfolding record_nonce_with_ts
record_nonces [] q = q
record_nonces ((n, ms) ∷ rest) q = record_nonces rest (record_nonce_with_ts n ms q)

record_nonces-nonce_ring :
    (events : List (Text × ℤ)) (seen : List Text) (q : PendingQueue)
    → q.nonce_ring ≡ last_n nonce_ring_capacity seen
    → (record_nonces events q).nonce_ring
      ≡ last_n nonce_ring_capacity (seen ++ map (λ e. e.0) events)
unfolding record_nonces
record_nonces-nonce_ring [] seen q h = rw (append-nil seen) h
record_nonces-nonce_ring ((n, ms) ∷ rest) seen q h =
    subst
      (λ xs.
        (record_nonces rest (record_nonce_with_ts n ms q)).nonce_ring
        ≡ last_n nonce_ring_capacity xs)
      (append_assoc seen (n ∷ []) (map (λ e. e.0) rest))
      (record_nonces-nonce_ring rest (seen ++ (n ∷ [])) (record_nonce_with_ts n ms q) (
        record_nonce_with_ts-nonce_ring n ms q
        ∙ ap (push_nonce nonce_ring_capacity n) h
        ∙ push_nonce-last_n nonce_ring_capacity n seen (omega arith)))

-- The ring refines the history of all nonces: whatever nonces are recorded in a queue whose ring is
-- empty, a nonce counts as seen exactly if it is among the last 4096 of them.
pub nonce_seen-record_nonces :
    (events : List (Text × ℤ)) (n : Text) (q : PendingQueue)
    → q.nonce_ring ≡ []
    → nonce_seen n (record_nonces events q)
      ≡ list_contains (last_n nonce_ring_capacity (map (λ e. e.0) events)) n
unfolding nonce_seen
nonce_seen-record_nonces events n q h =
    ap (any (λ m. text_eq m n)) (record_nonces-nonce_ring events [] q h)
    ∙ any-list_contains n (last_n nonce_ring_capacity (map (λ e. e.0) events))
