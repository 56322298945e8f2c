-- ===== src/Receipt/Sound.antt =====
-- crates/a2g-core/src/receipt.rs: which chains of receipts verify.
use a2g_cli.Base.{ℕ, suc, ◌≡◌, refl, ◌↔◌, true, Option, List, [], ◌∷◌, All}
use a2g_cli.Base.Text.{Text, text_eq, text_eq_iff, text_eq_refl}
use a2g_cli.Error.{Message, ok, >>-eq-ok, ensure-eq-ok}
use a2g_cli.Platform.{Platform, Time}
use a2g_cli.Authority.Chain.{genesis_hash}
use a2g_cli.Enforce.Types.{Verdict}
use a2g_cli.Receipt.Types.{Receipt, verdict_input, receipt_input}
use a2g_cli.Receipt.Chain.{
  generate_receipt, verify_receipt, check_hashes, check_links, verify_receipts,
}

-- Each receipt names the hash of the one before it, the first one the hash `prev`.
abbrev pub ReceiptsLinked : Text → List Receipt → Type 0
ReceiptsLinked prev [] = Unit
ReceiptsLinked prev (r ∷ rs) = (r.prev_hash ≡ prev) × ReceiptsLinked r.receipt_hash rs

module _ (p : Platform) where
  abbrev pub IsSound : List Receipt → Type 0
  IsSound rs = ReceiptsLinked genesis_hash rs × All (λ r. verify_receipt p r ≡ true) rs

  check_hashes_iff :
      (i : ℕ) (rs : List Receipt)
      → (check_hashes p i rs ≡ ok tt) ↔ All (λ r. verify_receipt p r ≡ true) rs
  unfolding check_hashes
  check_hashes_iff i [] = (λ h. tt, λ h. refl)
  check_hashes_iff i (r ∷ rs) = (
    λ h.
        let (a, k) = ensure-eq-ok (verify_receipt p r) _ _ h in
        (a, (check_hashes_iff (suc i) rs).0 k),
    λ (a, as'). rw a ((check_hashes_iff (suc i) rs).1 as'),
  )

  check_links_iff :
      (i : ℕ) (r : Receipt) (rs : List Receipt)
      → (check_links p i (r ∷ rs) ≡ ok tt) ↔ ReceiptsLinked r.receipt_hash rs
  unfolding check_links
  check_links_iff i r [] = (λ h. tt, λ h. refl)
  check_links_iff i r (s ∷ rs) = (
    λ h.
        let (a, k) = ensure-eq-ok (text_eq s.prev_hash r.receipt_hash) _ _ h in
        ((text_eq_iff s.prev_hash r.receipt_hash).0 a, (check_links_iff (suc i) s rs).0 k),
    λ (a, as').
        rw ((text_eq_iff s.prev_hash r.receipt_hash).1 a) ((check_links_iff (suc i) s rs).1 as'),
  )

  -- `verify_chain` accepts exactly the lists in which the first receipt names the genesis hash, each
  -- further one the hash of the receipt before it, and every receipt's own hash is right.
  pub verify_receipts_iff : (rs : List Receipt) → (verify_receipts p rs ≡ ok tt) ↔ IsSound rs
  unfolding verify_receipts
  verify_receipts_iff [] = (λ h. (tt, tt), λ h. refl)
  verify_receipts_iff (r ∷ rs) = (
    λ h.
        let (a, k) = ensure-eq-ok (text_eq r.prev_hash genesis_hash) _ _ h in
        let (k1, k2) = >>-eq-ok (check_hashes p 0 (r ∷ rs)) _ k in
        (
          ((text_eq_iff r.prev_hash genesis_hash).0 a, (check_links_iff 0 r rs).0 k2),
          (check_hashes_iff 0 (r ∷ rs)).0 k1,
        ),
    λ ((a, l), hs).
        rw
          (
            (text_eq_iff r.prev_hash genesis_hash).1 a,
            (check_hashes_iff 0 (r ∷ rs)).1 hs,
            (check_links_iff 0 r rs).1 l,
          )
          refl,
  )

  -- A generated receipt verifies.
  pub verify_receipt-generate :
      (render : Message → Text) (last : Option Text) (id : Text) (now : Time) (v : Verdict)
      → verify_receipt p (generate_receipt p render last id now v) ≡ true
  unfolding verify_receipt generate_receipt verdict_input receipt_input
  verify_receipt-generate render last id now v = text_eq_refl _
