-- ===== src/Ride/Start.antt =====
-- `startRide` with its three validators, and the answer that it maps a ride to.
pub mod Rules
pub mod Safety
use typescript_version_taxi.Base.{
  Action, Bool, Option, String, [], bad_request, gets, if◌then◌else◌, none, not_found, or_throw,
  plain_error, pure, some, throw_if, true, unprocessable, update_many, ◌&&◌, ◌++◌, ◌==◌, ◌>>=◌,
  ◌>>◌, ◌∷◌,
}
use typescript_version_taxi.External.Decimals.{Decimals}
use typescript_version_taxi.External.Queries.{Queries}
use typescript_version_taxi.Pricing.{active_in}
use typescript_version_taxi.Ride.Guards.{
  begin_ride, is_draft, is_ongoing, open_ride_of, require_driver, require_tenant, ride_id_is,
  write_rides,
}
use typescript_version_taxi.Schema.{
  FixedPricePolicy, Ride, RidePricingMode, RideStatus, Store, Time, Uuid, custom_fixed, fixed_price,
  meter,
}

pub record StartRideDto : Type 0 where
  pub ride_status : RideStatus
  pub pricing_mode : RidePricingMode
  pub fixed_pricing_policy_id : Option Uuid
  pub custom_fixed_fare : Option String

module _ (D : Type 0) where
  pub record StartRideResponse : Type 0 where
    pub ride_id : Uuid
    pub status : RideStatus
    pub started_at : Time
    pub tenant_id : Uuid
    pub driver_profile_id : Uuid
    pub pricing_mode : RidePricingMode
    pub pricing_policy_id : Option Uuid
    pub fixed_price_policy_id : Option Uuid
    pub custom_fixed_fare : Option String
    pub duration_min : Option D
    pub distance_km : Option D
    pub fare_subtotal : Option D
    pub tax_amount : Option D
    pub fare_total : Option D

-- `id: undefined` in a `where` filters nothing.
abbrev pub id_filter : Option Uuid → Uuid → Bool
id_filter none id = true
id_filter (some wanted) id = id == wanted

-- The policy is the tenant's or the driver's own.
abbrev pub is_for : Uuid → Option Uuid → Bool
is_for profile none = true
is_for profile (some d) = d == profile

module _ (q : Queries) {D : Type 0} where
  open q use {find_first}

  unfoldable pub validate_meter_mode : Uuid → Action (Store D) Uuid
  validate_meter_mode tenant = do
    found ← gets (λ s. find_first (active_in tenant) s.pricing_policies)
    policy ← or_throw found (unprocessable "No active meter pricing policy found")
    pure policy.id

  abbrev pub fixed_policy_for : Uuid → Uuid → Option Uuid → FixedPricePolicy D → Bool
  fixed_policy_for tenant profile wanted p =
      id_filter wanted p.id
      && p.tenant_id == tenant
      && p.is_active
      && is_for profile p.driver_profile_id

  unfoldable pub validate_fixed_price_mode : Uuid → Uuid → Option Uuid → Action (Store D) Uuid
  validate_fixed_price_mode tenant profile wanted = do
    found ← gets (λ s. find_first (fixed_policy_for tenant profile wanted) s.fixed_price_policies)
    policy ← or_throw found (not_found "Fixed price policy not found or not accessible")
    pure policy.id

module _ (dec : Decimals) where
  open dec use {Decimal, units, of_string, less_than, to_string}

  -- `new Prisma.Decimal(undefined)` throws too.
  abbrev pub parse_fare : Option String → Option Decimal
  parse_fare none = none
  parse_fare (some text) = of_string text

  pub validate_custom_fixed_mode : {S : Type 0} → Option String → Action S Decimal
  validate_custom_fixed_mode custom_fare = do
    fare ← or_throw (parse_fare custom_fare) (plain_error "[DecimalError] Invalid argument")
    throw_if (less_than fare (units 0 5)) (bad_request "Custom fare must be at least €5.00")
    throw_if (less_than (units 2 99999) fare) (bad_request "Custom fare cannot exceed €999.99")
    pure fare

  abbrev pub map_text : Option Decimal → Option String
  map_text none = none
  map_text (some d) = some (to_string d)

  -- `mapRideToStartRideResponseDto`
  abbrev pub start_response : Ride Decimal → StartRideResponse Decimal
  start_response ride = record {
    ride_id = ride.id;
    status = ride.status;
    started_at = ride.started_at;
    tenant_id = ride.tenant_id;
    driver_profile_id = ride.driver_profile_id;
    pricing_mode = ride.pricing_mode;
    pricing_policy_id = ride.pricing_policy_id;
    fixed_price_policy_id = ride.fixed_price_policy_id;
    custom_fixed_fare = map_text ride.custom_fixed_fare;
    duration_min = ride.duration_min;
    distance_km = ride.distance_km;
    fare_subtotal = ride.fare_subtotal;
    tax_amount = ride.tax_amount;
    fare_total = ride.fare_total;
  }

  -- What the validation of a mode hands to the new row.
  pub record Pricing : Type 0 where
    pub meter_id : Option Uuid
    pub fixed_id : Option Uuid
    pub custom_fare : Option Decimal

  abbrev pub new_ride : Uuid → Uuid → StartRideDto → Pricing → Uuid → Time → Ride Decimal
  new_ride tenant profile dto pricing id now = record {
    id = id;
    status = dto.ride_status;
    tenant_id = tenant;
    driver_profile_id = profile;
    started_at = now;
    ended_at = none;
    distance_km = some (units 3 0);
    duration_min = some (units 2 0);
    fare_subtotal = none;
    tax_amount = none;
    fare_total = none;
    pricing_mode = dto.pricing_mode;
    pricing_policy_id = pricing.meter_id;
    fixed_price_policy_id = pricing.fixed_id;
    custom_fixed_fare = pricing.custom_fare;
  }

module _ (dec : Decimals) (q : Queries) where
  open dec use {Decimal}
  open q use {find_first}

  -- The `switch` on the pricing mode.
  unfoldable pub validate_mode :
      RidePricingMode → Uuid → Uuid → StartRideDto → Action (Store Decimal) (Pricing dec)
  validate_mode meter tenant profile dto = do
    id ← validate_meter_mode q tenant
    pure (record { meter_id = some id; fixed_id = none; custom_fare = none })
  validate_mode fixed_price tenant profile dto = do
    id ← validate_fixed_price_mode q tenant profile dto.fixed_pricing_policy_id
    pure (record { meter_id = none; fixed_id = some id; custom_fare = none })
  validate_mode custom_fixed tenant profile dto = do
    fare ← validate_custom_fixed_mode dec dto.custom_fixed_fare
    pure (record { meter_id = none; fixed_id = none; custom_fare = some fare })

  unfoldable pub create_ride :
      Uuid → Uuid → StartRideDto → Uuid → Time → Action (Store Decimal) (StartRideResponse Decimal)
  create_ride tenant profile dto id now = do
    pricing ← validate_mode dto.pricing_mode tenant profile dto
    let ride = new_ride dec tenant profile dto pricing id now
    write_rides (λ rs. rs ++ ride ∷ [])
    pure (start_response dec ride)

  -- The driver already has an open ride: a draft may become ongoing, any other is returned.
  unfoldable pub resume_ride :
      Ride Decimal → StartRideDto → Time → Action (Store Decimal) (StartRideResponse Decimal)
  resume_ride ride dto now =
      if is_draft ride.status && is_ongoing dto.ride_status
      then write_rides (update_many (ride_id_is ride.id) (begin_ride now))
        >> pure (start_response dec (begin_ride now ride))
      else pure (start_response dec ride)

  -- The lookup of the driver's open ride, in whatever tenant, and what follows.
  unfoldable pub resume_or_create :
      Uuid → Uuid → StartRideDto → Uuid → Time → Action (Store Decimal) (StartRideResponse Decimal)
  resume_or_create tenant profile dto id now = do
    found ← gets (λ s. find_first (open_ride_of profile) s.rides)
    elim found [
      | none ↦ create_ride tenant profile dto id now
      | some ride ↦ resume_ride ride dto now
    ]

  -- `id` is the uuid of a new row, `now` the clock.
  unfoldable pub start_ride :
      StartRideDto → Uuid → Uuid → Uuid → Time → Action (Store Decimal) (StartRideResponse Decimal)
  start_ride dto user tenant id now = do
    require_tenant q (not_found "Tenant does not exist or is deleted") tenant
    profile ← require_driver q user tenant
    resume_or_create tenant profile.id dto id now
