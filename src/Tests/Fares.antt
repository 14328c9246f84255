-- ===== src/Tests/Fares.antt =====
-- Fares, surcharges and the escaping of texts: the theorems at concrete numbers. The metered ride
-- is one of 10 km and 30 minutes at night.
use typescript_version_taxi.Base.{
  All, List, [], arith, ltb, none, refl, some, true, ◌%◌, ◌*◌, ◌++◌, ◌+◌, ◌-◌, ◌<◌, ◌^◌, ◌∷◌, ◌≡◌,
}
use typescript_version_taxi.Base.Int.{pos}
use typescript_version_taxi.Receipt.Escape.{
  IsMarkup, escape, escape-eq-escape_each, escape_each, escape_safe,
}
use typescript_version_taxi.Ride.Fare.{fixed_amounts, meter_amounts}
use typescript_version_taxi.Ride.Fare.Cents.{
  fixed_amounts_cents, meter_amounts_cents, meter_cents, tax_cents,
}
use typescript_version_taxi.Ride.Night.{
  first_multiplier, hhmm_to_minutes, in_window, parse_int, split_colon,
}
use typescript_version_taxi.Ride.Night.Windows.{
  Charges, Free, first_multiplier_sound, in_window_cyclic,
}
use typescript_version_taxi.Schema.{FixedPricePolicy, Surcharge}
use typescript_version_taxi.Tests.Database.{Amount, night, policy}
use typescript_version_taxi.Tests.Parameters.{decimals}

taxed_exact : meter_cents 250 12000 500 10000 3000 1 12 * 255 < 10 ^ 20
unfolding meter_cents
taxed_exact = omega arith

total_exact :
    meter_cents 250 12000 500 10000 3000 1 12
      + tax_cents (meter_cents 250 12000 500 10000 3000 1 12) 3 255
    < 10 ^ 20
unfolding meter_cents tax_cents
total_exact = omega arith

meter_amounts_cents_example :
    let fare = meter_amounts decimals (policy 2 1 true) (1, 12) (3, 10000) (2, 3000) (3, 255) in
    (fare.subtotal ≡ (2, meter_cents 250 12000 500 10000 3000 1 12))
    × (fare.tax ≡ (2, tax_cents (meter_cents 250 12000 500 10000 3000 1 12) 3 255))
    × (fare.total ≡ (
      2,
      meter_cents 250 12000 500 10000 3000 1 12
          + tax_cents (meter_cents 250 12000 500 10000 3000 1 12) 3 255,
    ))
meter_amounts_cents_example =
    meter_amounts_cents decimals 250 12000 500 10000 3000 1 12 3 255 (policy 2 1 true) refl refl
      refl (omega arith) (omega arith) taxed_exact total_exact

abbrev airport : FixedPricePolicy Amount
airport = record {
  id = 6;
  tenant_id = 1;
  driver_profile_id = none;
  name = "Airport";
  amount = (2, 4000);
  is_active = true;
  created_at = 0;
}

fixed_amounts_cents_example :
    let fare = fixed_amounts decimals airport (3, 135) in
    (fare.total ≡ (2, 4000))
    × (fare.tax ≡ (2, tax_cents 4000 3 135))
    × (fare.subtotal ≡ (2, 4000 - tax_cents 4000 3 135))
    × (4000 - tax_cents 4000 3 135 + tax_cents 4000 3 135 ≡ 4000)
fixed_amounts_cents_example =
    fixed_amounts_cents decimals 4000 3 135 airport refl (omega arith) (omega arith)

in_window_cyclic_example :
    in_window (pos 1320) (pos 360) 1350
    ≡ ltb ((1350 + 1440 - 1320) % 1440) ((360 + 1440 - 1320) % 1440)
in_window_cyclic_example = in_window_cyclic 1320 360 1350 (omega arith) (omega arith) (omega arith)

night_found : first_multiplier decimals 1350 (night ∷ []) ≡ some (1, 12)
unfolding first_multiplier hhmm_to_minutes parse_int split_colon
night_found = refl

first_multiplier_sound_example :
    (before : List Surcharge) × ((s : Surcharge) × (following : List Surcharge) × (night ∷ []
        ≡ before ++ s ∷ following)
      × All (Free decimals 1350) before
      × Charges decimals 1350 (1, 12) s)
first_multiplier_sound_example =
    first_multiplier_sound decimals 1350 (night ∷ []) (1, 12) night_found

escape-eq-escape_each_example : escape (60 ∷ 38 ∷ []) ≡ escape_each (60 ∷ 38 ∷ [])
escape-eq-escape_each_example = escape-eq-escape_each (60 ∷ 38 ∷ [])

escape_safe_example : All (λ c. ¬ IsMarkup c) (escape (60 ∷ 34 ∷ []))
escape_safe_example = escape_safe (60 ∷ 34 ∷ [])
