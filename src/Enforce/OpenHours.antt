-- ===== src/Enforce/OpenHours.antt =====
-- crates/a2g-core/src/enforce.rs, `validate_operating_hours`: what an accepted window is.
use a2g_cli.Base.{◌+◌, ◌*◌, ◌≡◌, arith, ℕ, ◌≤◌, ◌<◌, ltb, leb}
use a2g_cli.Base.Text.{Text, codes, split_once, trim, parse_u32}
use a2g_cli.Error.{ok, ok_or-eq-ok, ensure-eq-ok, >>=-eq-ok, ok-injective}
use a2g_cli.Enforce.Hours.{
  parse_hm, OperatingHours, start_total, end_total, validate_operating_hours,
}

parse_hm-bounds :
    (t : Text) (hour minute : ℕ) → parse_hm t ≡ ok (hour, minute) → (hour ≤ 23) × (minute ≤ 59)
unfolding parse_hm
parse_hm-bounds t hour minute h =
    let ((a, b), e, h1) = ok_or-eq-ok (split_once t (codes ":")) _ _ h in
    let (x, ex, h2) = ok_or-eq-ok (parse_u32 a) _ _ h1 in
    let (y, ey, h3) = ok_or-eq-ok (parse_u32 b) _ _ h2 in
    let (l1, h4) = ensure-eq-ok (leb x 23) _ _ h3 in
    let (l2, h5) = ensure-eq-ok (leb y 59) _ _ h4 in
    let same = ok-injective (λ q. q.0) h5 in
    let same2 = ok-injective (λ q. q.1) h5 in (ground arith, ground arith)

-- A window that `validate_operating_hours` accepts has hours of at most 23, minutes of at most 59,
-- and starts before it ends, so that it never wraps around midnight and is never empty.
pub validate_operating_hours-window :
    (hours : Text) (w : OperatingHours)
    → validate_operating_hours hours ≡ ok w
    → (w.start_hour ≤ 23)
      × (w.start_min ≤ 59)
      × (w.end_hour ≤ 23)
      × (w.end_min ≤ 59)
      × (start_total w < end_total w)
unfolding validate_operating_hours
validate_operating_hours-window hours w h =
    let ((a, b), e, h1) = ok_or-eq-ok (split_once hours (codes "-")) _ _ h in
    let ((sh, sm), es, h2) = >>=-eq-ok (parse_hm (trim a)) _ h1 in
    let ((eh, em), ee, h3) = >>=-eq-ok (parse_hm (trim b)) _ h2 in
    let (l1, h4) = ensure-eq-ok (ltb (sh * 60 + sm) (eh * 60 + em)) _ _ h3 in
    let (b1, b2) = parse_hm-bounds (trim a) sh sm es in
    let (b3, b4) = parse_hm-bounds (trim b) eh em ee in
    let e1 = ok-injective (λ q. q.start_hour) h4 in
    let e2 = ok-injective (λ q. q.start_min) h4 in
    let e3 = ok-injective (λ q. q.end_hour) h4 in
    let e4 = ok-injective (λ q. q.end_min) h4 in
    (omega arith, omega arith, omega arith, omega arith, ground arith)
