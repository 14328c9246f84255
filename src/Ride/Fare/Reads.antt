-- ===== src/Ride/Fare/Reads.antt =====
-- The three calculations read only.
use typescript_version_taxi.Base.{Option, String, arith, ◌≡◌}
use typescript_version_taxi.External.Calendar.{Calendar}
use typescript_version_taxi.External.Decimals.{Decimals}
use typescript_version_taxi.External.Queries.{Queries}
use typescript_version_taxi.Ride.Fare.{
  calculate_custom_fixed_fare, calculate_fixed_price_fare, calculate_meter_fare,
}
use typescript_version_taxi.Schema.{Ride, Store, Tenant, Time, Uuid}

module _ (dec : Decimals) (q : Queries) (cal : Calendar) (tax_env : Option String)
    (ride : Ride dec.Decimal) (s : Store dec.Decimal) where
  open dec use {Number}

  pub calculate_meter_fare_reads :
      (t : Tenant) (ended_at : Time) (duration distance : Number)
      → (calculate_meter_fare dec q cal tax_env ride t ended_at duration distance s).1 ≡ s
  unfolding calculate_meter_fare
  calculate_meter_fare_reads t ended_at duration distance = ground arith

  pub calculate_fixed_price_fare_reads :
      (tenant : Uuid) → (calculate_fixed_price_fare dec q cal tax_env ride tenant s).1 ≡ s
  unfolding calculate_fixed_price_fare
  calculate_fixed_price_fare_reads tenant = ground arith

  pub calculate_custom_fixed_fare_reads :
      (calculate_custom_fixed_fare dec q cal tax_env ride s).1 ≡ s
  unfolding calculate_custom_fixed_fare
  calculate_custom_fixed_fare_reads = ground arith
