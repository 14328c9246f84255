-- ===== src/Numbering/Months.antt =====
-- The month that a period names.
use typescript_version_taxi.Base.{All, All-append, ap, arith, refl, sym, ◌*◌, ◌+◌, ◌∙◌, ◌≡◌, ◌≤◌}
use typescript_version_taxi.Base.Digits.{
  NoDash, digits, digits-NoDash, length-digits-two, length-pad_start, pad_start, pad_start-NoDash,
  read, read-digits, read-pad_start, read_after-append, read_after_two,
}
use typescript_version_taxi.External.Calendar.{Calendar}
use typescript_version_taxi.Numbering.{yyyymm}
use typescript_version_taxi.Schema.{Time}

module _ (cal : Calendar) where
  open cal use {utc_year, utc_month, month_bounds, months_pass}

  -- The period of a time reads as its year times a hundred plus its month.
  pub read-yyyymm : (t : Time) → read (yyyymm cal t) ≡ utc_year t * 100 + utc_month t
  unfolding yyyymm
  read-yyyymm t =
      let short = length-digits-two (utc_month t) (omega (arith, (month_bounds t).1)) in
      read_after-append 0 (digits (utc_year t)) (pad_start 2 (digits (utc_month t)))
      ∙ read_after_two (read (digits (utc_year t))) (pad_start 2 (digits (utc_month t)))
          (length-pad_start 2 (digits (utc_month t)) short)
      ∙ omega (arith, read-digits (utc_year t), read-pad_start 2 (utc_month t))

  pub yyyymm-NoDash : (t : Time) → All NoDash (yyyymm cal t)
  unfolding yyyymm
  yyyymm-NoDash t =
      All-append NoDash _ _ (digits-NoDash (utc_year t)) (pad_start-NoDash 2 (utc_month t))

  -- All times of a window whose two ends have one period have that period.
  pub same_month :
      (from to t : Time)
      → from ≤ t
      → t ≤ to
      → yyyymm cal from ≡ yyyymm cal to
      → yyyymm cal t ≡ yyyymm cal from
  unfolding yyyymm
  same_month from to t h k e =
      let ends : utc_year from * 100 + utc_month from ≡ utc_year to * 100 + utc_month to =
        sym (read-yyyymm from) ∙ ap read e ∙ read-yyyymm to in
      let start_month = month_bounds from in
      let this_month = month_bounds t in
      let end_month = month_bounds to in
      let year : utc_year t ≡ utc_year from =
        omega (arith, months_pass from t h, months_pass t to k, ends) in
      let month : utc_month t ≡ utc_month from =
        omega (arith, months_pass from t h, months_pass t to k, ends) in
      rw (year, month) refl
