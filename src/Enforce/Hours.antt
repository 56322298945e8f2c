-- ===== src/Enforce/Hours.antt =====
-- crates/a2g-core/src/enforce.rs: `validate_operating_hours`.
use a2g_cli.Base.{ℕ, ◌+◌, ◌*◌, ltb, leb}
use a2g_cli.Base.Text.{Text, codes, split_once, trim, parse_u32}
use a2g_cli.Error.{
  mandate_invalid, format, text, number, end, Result, ok, ◌>>=◌, ◌>>◌, ensure, ok_or,
}

-- The closure `parse_time`: an hour and a minute.
unfoldable pub parse_hm : Text → Result (ℕ × ℕ)
parse_hm t = do
  (hour_str, min_str) ←
      ok_or (split_once t (codes ":"))
        (mandate_invalid (format "invalid time '{}': expected HH:MM" (text t end)))
  hour ← ok_or (parse_u32 hour_str) (mandate_invalid (format "invalid hour in '{}'" (text t end)))
  minute ←
      ok_or (parse_u32 min_str) (mandate_invalid (format "invalid minute in '{}'" (text t end)))
  ensure (leb hour 23)
      (mandate_invalid (format "hour {} exceeds 23 in '{}'" (number hour (text t end))))
  ensure (leb minute 59)
      (mandate_invalid (format "minute {} exceeds 59 in '{}'" (number minute (text t end))))
  ok (hour, minute)

pub record OperatingHours : Type 0 where
  pub start_hour : ℕ
  pub start_min : ℕ
  pub end_hour : ℕ
  pub end_min : ℕ

-- The products and sums saturate in the source, far above the values that `parse_hm` returns.
abbrev pub start_total : OperatingHours → ℕ
start_total h = h.start_hour * 60 + h.start_min

abbrev pub end_total : OperatingHours → ℕ
end_total h = h.end_hour * 60 + h.end_min

unfoldable pub validate_operating_hours : Text → Result OperatingHours
unfolding parse_hm
validate_operating_hours hours = do
  (start, stop) ← ok_or (split_once hours (codes "-")) (
      mandate_invalid
        (format "invalid operating_hours format '{}': expected HH:MM-HH:MM" (text hours end)))
  (sh, sm) ← parse_hm (trim start)
  (eh, em) ← parse_hm (trim stop)
  ensure (ltb (sh * 60 + sm) (eh * 60 + em)) (
      mandate_invalid (
        format "operating_hours start '{}' must be before end '{}'"
          (text (trim start) (text (trim stop) end))))
  ok (record { start_hour = sh; start_min = sm; end_hour = eh; end_min = em })
