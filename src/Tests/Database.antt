-- ===== src/Tests/Database.antt =====
-- A small database: one company with a driver, who has an ongoing ride and one that waits for its
-- payment, and a second company.
use typescript_version_taxi.Base.{Bool, [], false, none, some, true, ℕ, ◌∷◌}
use typescript_version_taxi.Schema.{
  DriverProfile, Payment, PaymentStatus, PricingPolicy, Ride, RideStatus, Store, Surcharge, Tenant,
  Uuid, cash, completed, driver, meter, ongoing, pending,
}

abbrev pub Amount : Type 0
Amount = ℕ × ℕ

-- Twenty percent more from 22:00 to 06:00.
abbrev pub night : Surcharge
night = record {
  start = some (50 ∷ 50 ∷ 58 ∷ 48 ∷ 48 ∷ []);
  end = some (48 ∷ 54 ∷ 58 ∷ 48 ∷ 48 ∷ []);
  multiplier = some "1.2";
}

abbrev pub company : Tenant
company = record {
  id = 1;
  name = "Taxi";
  business_id = "1234567-8";
  surcharges = some (night ∷ []);
  deleted_at = none;
}

abbrev pub driver_profile : DriverProfile
driver_profile = record {
  id = 5;
  tenant_id = 1;
  user_id = 9;
  first_name = "Ann";
  last_name = "Lee";
  is_active = true;
}

abbrev pub policy : Uuid → Uuid → Bool → PricingPolicy Amount
policy id tenant on = record {
  id = id;
  tenant_id = tenant;
  name = "Day";
  base_fare = (2, 250);
  per_km = (4, 12000);
  per_min = (3, 500);
  is_active = on;
  created_at = 0;
  updated_at = 0;
}

abbrev pub a_ride : Uuid → RideStatus → Ride Amount
a_ride id status = record {
  id = id;
  status = status;
  tenant_id = 1;
  driver_profile_id = 5;
  started_at = 1000;
  ended_at = none;
  distance_km = none;
  duration_min = none;
  fare_subtotal = none;
  tax_amount = none;
  fare_total = none;
  pricing_mode = meter;
  pricing_policy_id = some 2;
  fixed_price_policy_id = none;
  custom_fixed_fare = none;
}

abbrev pub a_payment : PaymentStatus → Payment Amount
a_payment status = record {
  id = 30;
  ride_id = 21;
  tenant_id = 1;
  provider = cash;
  amount = (2, 4000);
  tax_amount = none;
  net_amount = none;
  currency = "EUR";
  status = status;
  created_at = 2000;
  authorized_at = none;
  captured_at = none;
  failure_code = none;
  external_payment_id = none;
  number_period = none;
  receipt_number = none;
  approval_code = none;
}

-- The payment of the finished ride has the given status.
abbrev pub with_payment : PaymentStatus → Store Amount
with_payment status = record {
  tenants = company ∷ [];
  users = [];
  memberships = record { user_id = 9; tenant_id = 1; role = driver } ∷ [];
  invitations = [];
  driver_profiles = driver_profile ∷ [];
  pricing_policies = policy 2 1 true ∷ policy 3 1 false ∷ policy 4 7 true ∷ [];
  fixed_price_policies = [];
  rides = a_ride 20 ongoing ∷ a_ride 21 completed ∷ [];
  payments = a_payment status ∷ [];
  receipts = [];
  number_sequences = [];
  webhook_events = [];
}

abbrev pub database : Store Amount
database = with_payment pending
