-- ===== src/Ride/Fare.antt =====
-- The fare of a ride in each pricing mode: `calculateMeterFare`, `calculateFixedPriceFare` and
-- `calculateCustomFixedFare`. `DEFAULT_TAX_RATE` is an argument.
pub mod Cents
pub mod Reads
use typescript_version_taxi.Base.{
  Action, Bool, List, Option, String, gets, none, not_found, or_else, or_throw, plain_error, pure,
  some, unprocessable, ◌&&◌, ◌==◌, ◌>>=◌, ◌>>◌,
}
use typescript_version_taxi.External.Calendar.{Calendar}
use typescript_version_taxi.External.Decimals.{Decimals}
use typescript_version_taxi.External.Queries.{Queries}
use typescript_version_taxi.Pricing.{active_in, has_id}
use typescript_version_taxi.Ride.Night.{night_multiplier}
use typescript_version_taxi.Schema.{
  FixedPricePolicy, PricingPolicy, Ride, Store, Tenant, Time, Uuid,
}

module _ (D : Type 0) where
  -- What a calculation returns to `endRide`; the parts below `total` are those of `fareData`, which
  -- only some modes fill.
  pub record FareResult : Type 0 where
    pub subtotal : D
    pub tax : D
    pub total : D
    pub base : Option D
    pub distance_component : Option D
    pub time_component : Option D
    pub multiplier : Option D
    pub policy_name : Option String

module _ (dec : Decimals) where
  open dec use {Decimal, units, of_string, add, sub, mul, to_dp}

  -- `new Prisma.Decimal(process.env.DEFAULT_TAX_RATE ?? '0.14')`
  abbrev pub tax_rate : {S : Type 0} → Option String → Action S Decimal
  tax_rate env =
      or_throw (of_string (or_else env "0.14")) (plain_error "[DecimalError] Invalid argument")

  -- The arithmetic of `calculateMeterFare`.
  pub meter_amounts :
      PricingPolicy Decimal → Decimal → Decimal → Decimal → Decimal → FareResult Decimal
  meter_amounts pricing multiplier distance duration rate =
      let base = pricing.base_fare in
      let distance_component = mul pricing.per_km distance in
      let time_component = mul pricing.per_min duration in
      let before_mult = add (add base distance_component) time_component in
      let subtotal = to_dp 2 (mul before_mult multiplier) in
      let tax = to_dp 2 (mul subtotal rate) in
      record {
        subtotal = subtotal;
        tax = tax;
        total = to_dp 2 (add subtotal tax);
        base = some base;
        distance_component = some distance_component;
        time_component = some time_component;
        multiplier = some multiplier;
        policy_name = some pricing.name;
      }

  -- A fixed price is the total, the tax in it included.
  pub fixed_amounts : FixedPricePolicy Decimal → Decimal → FareResult Decimal
  fixed_amounts policy rate =
      let total = policy.amount in
      let tax = to_dp 2 (mul total rate) in
      record {
        subtotal = to_dp 2 (sub total tax);
        tax = tax;
        total = total;
        base = none;
        distance_component = none;
        time_component = none;
        multiplier = none;
        policy_name = some policy.name;
      }

  -- A custom fare is the subtotal, the tax comes on top.
  pub custom_amounts : Decimal → Decimal → FareResult Decimal
  custom_amounts subtotal rate =
      let tax = to_dp 2 (mul subtotal rate) in
      record {
        subtotal = subtotal;
        tax = tax;
        total = to_dp 2 (add subtotal tax);
        base = none;
        distance_component = none;
        time_component = none;
        multiplier = none;
        policy_name = none;
      }

module _ (dec : Decimals) (q : Queries) (cal : Calendar) (tax_env : Option String) where
  open dec use {Decimal, Number, units, of_number, to_dp}
  open q use {find_first}

  -- The ride's own policy, if it has one that is still there (looked up by id alone).
  abbrev pub own_policy :
      Ride Decimal → List (PricingPolicy Decimal) → Option (PricingPolicy Decimal)
  own_policy ride ps = elim ride.pricing_policy_id [
    | none ↦ none
    | some id ↦ find_first (has_id id) ps
  ]

  -- Or else one of the tenant's active policies.
  abbrev pub meter_policy :
      Ride Decimal → List (PricingPolicy Decimal) → Option (PricingPolicy Decimal)
  meter_policy ride ps = elim (own_policy ride ps) [
    | none ↦ find_first (active_in ride.tenant_id) ps
    | some p ↦ some p
  ]

  unfoldable pub calculate_meter_fare :
      Ride Decimal → Tenant → Time → Number → Number → Action (Store Decimal) (FareResult Decimal)
  calculate_meter_fare ride tenant ended_at duration_minutes distance_km = do
    found ← gets (λ s. meter_policy ride s.pricing_policies)
    pricing ← or_throw found (unprocessable "No active pricing policy found for this tenant")
    let multiplier = or_else (night_multiplier dec cal tenant.surcharges ended_at) (units 0 1)
    rate ← tax_rate dec tax_env
    pure (
        meter_amounts dec pricing multiplier (to_dp 3 (of_number distance_km))
          (to_dp 2 (of_number duration_minutes)) rate)

  -- `where: { id: ride.fixedPricePolicyId, tenantId, isActive: true }`
  abbrev pub is_fixed_of : Uuid → Uuid → FixedPricePolicy Decimal → Bool
  is_fixed_of id tenant p = p.id == id && p.tenant_id == tenant && p.is_active

  pub calculate_fixed_price_fare : Ride Decimal → Uuid → Action (Store Decimal) (FareResult Decimal)
  calculate_fixed_price_fare ride tenant = do
    id ←
        or_throw ride.fixed_price_policy_id
          (unprocessable "Fixed price policy ID missing for FIXED_PRICE mode")
    found ← gets (λ s. find_first (is_fixed_of id tenant) s.fixed_price_policies)
    policy ← or_throw found (not_found "Fixed price policy not found or inactive")
    rate ← tax_rate dec tax_env
    pure (fixed_amounts dec policy rate)

  pub calculate_custom_fixed_fare : Ride Decimal → Action (Store Decimal) (FareResult Decimal)
  calculate_custom_fixed_fare ride = do
    subtotal ←
        or_throw ride.custom_fixed_fare
          (unprocessable "Custom fixed fare missing for CUSTOM_FIXED mode")
    rate ← tax_rate dec tax_env
    pure (custom_amounts dec subtotal rate)
