-- ===== src/External/Calendar.antt =====
-- The fields of a JavaScript `Date`: the local hour and minute, the UTC year and month.
use typescript_version_taxi.Base.{ℕ, ◌*◌, ◌+◌, ◌<◌, ◌≤◌}
use typescript_version_taxi.Schema.{Time}

-- The local time zone is the server's; the laws are those of any calendar.
pub record Calendar : Type 0 where
  pub hours : Time → ℕ
  pub minutes : Time → ℕ
  pub utc_year : Time → ℕ
  -- 1 for January
  pub utc_month : Time → ℕ
  pub hours_bound : (t : Time) → hours t < 24
  pub minutes_bound : (t : Time) → minutes t < 60
  pub month_bounds : (t : Time) → (1 ≤ utc_month t) × (utc_month t ≤ 12)
  pub months_pass :
      (t u : Time) → t ≤ u → utc_year t * 12 + utc_month t ≤ utc_year u * 12 + utc_month u
