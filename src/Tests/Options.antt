-- ===== src/Tests/Options.antt =====
-- The listings of policies: the theorems at the small database, with a fixed price that is no longer
-- active.
use typescript_version_taxi.Base.{
  Memᴰ, [], arith, count, false, is_ok, none, ok, refl, some, true, ◌++◌, ◌↔◌, ◌∷◌, ◌≡◌, ◌≤◌, ◌⊎◌,
}
use typescript_version_taxi.Pricing.Options.{list_all_policies, list_available_policies_for_ride}
use typescript_version_taxi.Pricing.Options.Startable.{
  fixed_id_is, fixed_option_accepted, meter_option_startable,
}
use typescript_version_taxi.Pricing.Responses.{
  AllPolicies, AvailablePricingOptions, custom_option, fixed_info, fixed_option, meter_info,
  meter_option,
}
use typescript_version_taxi.Ride.Start.{StartRideDto, new_ride, start_response, start_ride}
use typescript_version_taxi.Schema.{
  FixedPricePolicy, Store, Uuid, driver, fixed_price, meter, ongoing,
}
use typescript_version_taxi.Tests.Database.{Amount, company, database, driver_profile, policy}
use typescript_version_taxi.Tests.Parameters.{decimals, queries}

abbrev retired : FixedPricePolicy Amount
retired = record {
  id = 6;
  tenant_id = 1;
  driver_profile_id = none;
  name = "Airport";
  amount = (2, 4000);
  is_active = false;
  created_at = 0;
}

abbrev offering : Store Amount
offering = record database { rides = []; fixed_price_policies = retired ∷ [] }

abbrev offered : AvailablePricingOptions
offered = record {
  meter_policy = meter_option decimals company (policy 2 1 true);
  fixed_price_policies = fixed_option decimals company retired ∷ [];
  custom_fixed_option = custom_option decimals;
}

abbrev everything : AllPolicies
everything = record {
  meter_policies =
      meter_info decimals company (policy 2 1 true)
      ∷ meter_info decimals company (policy 3 1 false)
      ∷ [];
  fixed_price_policies = fixed_info decimals company retired ∷ [];
}

offered_ok : (list_available_policies_for_ride decimals queries 1 9 driver offering).0 ≡ ok offered
unfolding list_available_policies_for_ride
offered_ok = refl

everything_ok : (list_all_policies decimals queries 1 9 offering).0 ≡ ok everything
unfolding list_all_policies
everything_ok = refl

offering_unique : (id : Uuid) → count (fixed_id_is id) offering.fixed_price_policies ≤ 1
offering_unique id = ground arith

abbrev metered : StartRideDto
metered = record {
  ride_status = ongoing;
  pricing_mode = meter;
  fixed_pricing_policy_id = none;
  custom_fixed_fare = none;
}

meter_option_startable_example :
    let ride =
      new_ride decimals 1 5 metered
        (record { meter_id = some offered.meter_policy.id; fixed_id = none; custom_fare = none })
        22
        7000 in
    start_ride decimals queries metered 9 1 22 7000 offering
    ≡ (ok (start_response decimals ride), record offering { rides = offering.rides ++ ride ∷ [] })
meter_option_startable_example =
    meter_option_startable decimals queries 1 9 offering offered offered_ok metered driver_profile
      22 7000 refl refl refl

abbrev fixed_ride : StartRideDto
fixed_ride = record {
  ride_status = ongoing;
  pricing_mode = fixed_price;
  fixed_pricing_policy_id = some 6;
  custom_fixed_fare = none;
}

fixed_option_accepted_example :
    (f : FixedPricePolicy Amount) × Memᴰ f offering.fixed_price_policies
    × ((fixed_option decimals company retired).id ≡ f.id)
    × (f.tenant_id ≡ 1)
    × (is_ok (start_ride decimals queries fixed_ride 9 1 22 7000 offering).0 ≡ true
        ↔ (f.is_active ≡ true)
          × ((f.driver_profile_id ≡ none) ⊎ (f.driver_profile_id ≡ some driver_profile.id)))
fixed_option_accepted_example =
    fixed_option_accepted decimals queries 1 9 offering offered offered_ok
      (fixed_option decimals company retired) fixed_ride driver_profile 22 7000 offering_unique
      (Memᴰ.head refl) refl refl refl refl
