-- ===== src/Ride/Finish.antt =====
-- `endRide`: it closes an ongoing ride with its fare, and opens the payment.
pub mod Outcome
pub mod Effects
pub mod Settles
use typescript_version_taxi.Base.{
  Action, Bool, List, Option, String, [], bad_request, find, gets, ltb, modify, none, not_found,
  or_else, or_throw, pure, some, throw_if, update_many, ◌&&◌, ◌++◌, ◌-◌, ◌==◌, ◌>>=◌, ◌>>◌, ◌∷◌,
}
use typescript_version_taxi.External.Calendar.{Calendar}
use typescript_version_taxi.External.Decimals.{Decimals}
use typescript_version_taxi.External.Queries.{Queries}
use typescript_version_taxi.Ride.Answers.{EndRideResponse, end_response}
use typescript_version_taxi.Ride.Fare.{
  FareResult, calculate_custom_fixed_fare, calculate_fixed_price_fare, calculate_meter_fare,
}
use typescript_version_taxi.Ride.Guards.{
  is_ongoing, require_driver, require_tenant, ride_id_is, write_rides,
}
use typescript_version_taxi.Schema.{
  DriverProfile, Payment, Ride, RidePricingMode, Store, Tenant, Time, Uuid, completed, custom_fixed,
  fixed_price, meter, pending, viva,
}

module _ (Number : Type 0) where
  -- `ended_at` is `none` where the request gives no time.
  pub record EndRideDto : Type 0 where
    pub ride_id : Uuid
    pub distance_km : Number
    pub duration_min : Option Number
    pub ended_at : Option Time

module _ {D : Type 0} where
  -- `where: { id, tenantId, driverProfileId, status: ONGOING }`
  abbrev pub ongoing_ride : Uuid → Uuid → Uuid → Ride D → Bool
  ongoing_ride id tenant profile r =
      r.id == id && r.tenant_id == tenant && r.driver_profile_id == profile && is_ongoing r.status

  -- The `data` of the ride's update.
  abbrev pub complete_ride : Time → D → D → FareResult D → Ride D → Ride D
  complete_ride ended_at duration distance fare r = record r {
    status = completed;
    ended_at = some ended_at;
    duration_min = some duration;
    distance_km = some distance;
    fare_subtotal = some fare.subtotal;
    tax_amount = some fare.tax;
    fare_total = some fare.total;
  }

  -- `where: { rideId }`
  abbrev pub payment_of : Uuid → Payment D → Bool
  payment_of ride p = p.ride_id == ride

  -- The two halves of the payment's `upsert`.
  abbrev pub reopen_payment : FareResult D → Time → Payment D → Payment D
  reopen_payment fare now p = record p {
    amount = fare.total;
    net_amount = some fare.subtotal;
    tax_amount = some fare.tax;
    status = pending;
    authorized_at = some now;
    failure_code = none;
  }

  abbrev pub new_payment : Ride D → FareResult D → Uuid → Time → Payment D
  new_payment ride fare id now = record {
    id = id;
    ride_id = ride.id;
    tenant_id = ride.tenant_id;
    provider = viva;
    amount = fare.total;
    tax_amount = some fare.tax;
    net_amount = some fare.subtotal;
    currency = "EUR";
    status = pending;
    created_at = now;
    authorized_at = none;
    captured_at = none;
    failure_code = none;
    external_payment_id = none;
    number_period = none;
    receipt_number = none;
    approval_code = none;
  }

  abbrev pub write_payments : (List (Payment D) → List (Payment D)) → Action (Store D) (Unit {0})
  write_payments f = modify (λ s. record s { payments = f s.payments })

  -- A ride has one payment at most, by the table's unique key, so a plain search finds it.
  unfoldable pub upsert_payment : Ride D → FareResult D → Uuid → Time → Action (Store D) (Payment D)
  upsert_payment ride fare id now = do
    found ← gets (λ s. find (payment_of ride.id) s.payments)
    elim found [
      | none ↦
          write_payments (λ ps. ps ++ new_payment ride fare id now ∷ [])
          >> pure (new_payment ride fare id now)
      | some p ↦
          write_payments (update_many (payment_of ride.id) (reopen_payment fare now))
          >> pure (reopen_payment fare now p)
    ]

module _ (dec : Decimals) (q : Queries) (cal : Calendar) (tax_env : Option String) where
  open dec use {Decimal, Number, of_number, is_negative, minutes_of, to_dp}
  open q use {find_first}

  -- The `switch` on the pricing mode.
  unfoldable pub calculate_fare :
      RidePricingMode
      → Ride Decimal
      → Tenant
      → Uuid
      → Time
      → Number
      → Number
      → Action (Store Decimal) (FareResult Decimal)
  calculate_fare meter ride tenant tenant_id ended_at duration distance =
      calculate_meter_fare dec q cal tax_env ride tenant ended_at duration distance
  calculate_fare fixed_price ride tenant tenant_id ended_at duration distance =
      calculate_fixed_price_fare dec q cal tax_env ride tenant_id
  calculate_fare custom_fixed ride tenant tenant_id ended_at duration distance =
      calculate_custom_fixed_fare dec q cal tax_env ride

  -- The ride has been priced: both writes, and the answer. They are separate statements, with no
  -- transaction around them.
  unfoldable pub settle_ride :
      Ride Decimal
      → Time
      → Number
      → Number
      → FareResult Decimal
      → Uuid
      → Time
      → Action (Store Decimal) (EndRideResponse Decimal)
  settle_ride ride ended_at duration distance fare payment_id now = do
    let d_distance = to_dp 3 (of_number distance)
    let d_duration = to_dp 2 (of_number duration)
    write_rides
        (update_many (ride_id_is ride.id) (complete_ride ended_at d_duration d_distance fare))
    payment ← upsert_payment ride fare payment_id now
    pure (end_response dec ride ended_at d_duration d_distance fare payment)

  -- What follows the checks of the tenant and of the driver.
  unfoldable pub price_ride :
      EndRideDto Number
      → Uuid
      → Uuid
      → Time
      → Tenant
      → DriverProfile
      → Action (Store Decimal) (EndRideResponse Decimal)
  price_ride dto tenant payment_id now tenant_row profile = do
    found ← gets (λ s. find_first (ongoing_ride dto.ride_id tenant profile.id) s.rides)
    ride ← or_throw found (not_found "Ongoing ride not found for this driver")
    let ended_at = or_else dto.ended_at now
    throw_if (ltb ended_at ride.started_at) (bad_request "endedAt cannot be before startedAt")
    throw_if (is_negative dto.distance_km) (bad_request "distanceKm must be >= 0")
    let duration = or_else dto.duration_min (minutes_of (ended_at - ride.started_at))
    fare ← calculate_fare ride.pricing_mode ride tenant_row tenant ended_at duration dto.distance_km
    settle_ride ride ended_at duration dto.distance_km fare payment_id now

  -- `payment_id` is the uuid of a new payment, `now` the clock.
  unfoldable pub end_ride :
      EndRideDto Number
      → Uuid
      → Uuid
      → Uuid
      → Time
      → Action (Store Decimal) (EndRideResponse Decimal)
  end_ride dto user tenant payment_id now = do
    tenant_row ← require_tenant q (not_found "Tenant does not exist or is deleted") tenant
    profile ← require_driver q user tenant
    price_ride dto tenant payment_id now tenant_row profile
