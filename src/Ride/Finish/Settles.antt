-- ===== src/Ride/Finish/Settles.antt =====
-- What a successful `endRide` leaves: the closed ride and its open payment.
use typescript_version_taxi.Base.{
  ==_refl, Memᴰ, Option, Result, String, arith, is_ok, none, ok, or_else, refl, some, true, ◌-◌,
  ◌∙◌, ◌≡◌, ◌≤◌,
}
use typescript_version_taxi.Base.Rows.{mem-update_many}
use typescript_version_taxi.External.Calendar.{Calendar}
use typescript_version_taxi.External.Decimals.{Decimals}
use typescript_version_taxi.External.Queries.{Queries}
use typescript_version_taxi.Ride.Answers.{EndRideResponse}
use typescript_version_taxi.Ride.Fare.{
  FareResult, calculate_custom_fixed_fare, calculate_fixed_price_fare, calculate_meter_fare,
}
use typescript_version_taxi.Ride.Finish.{EndRideDto, calculate_fare, end_ride}
use typescript_version_taxi.Ride.Finish.Effects.{upserted-IsDue}
use typescript_version_taxi.Ride.Finish.Outcome.{
  refused, IsFinished, completed_ride, end_ride-Outcome, finished, upserted_row,
}
use typescript_version_taxi.Ride.Guards.{ride_id_is}
use typescript_version_taxi.Schema.{
  DriverProfile, Payment, Ride, RidePricingMode, Store, Tenant, Time, Uuid, completed, custom_fixed,
  fixed_price, meter, ongoing, pending,
}

module _ (dec : Decimals) (q : Queries) (cal : Calendar) (tax_env : Option String)
    (dto : EndRideDto dec.Number) (user tenant payment_id : Uuid) (now : Time) where
  open dec use {Decimal, Number, minutes_of}
  open q use {find_first, find_first_mem, find_first_matches}

  abbrev run : Store Decimal → Result (EndRideResponse Decimal) × Store Decimal
  run = end_ride dec q cal tax_env dto user tenant payment_id now

  -- The fare of each pricing mode, at the time of the end and for the minutes charged.
  abbrev pub FareByMode :
      Store Decimal → Tenant → Ride Decimal → FareResult Decimal → RidePricingMode → Type 0
  FareByMode s company ride fare meter =
      (calculate_meter_fare dec q cal tax_env ride company (or_else dto.ended_at now)
        (or_else dto.duration_min (minutes_of (or_else dto.ended_at now - ride.started_at)))
        dto.distance_km s).0
      ≡ ok fare
  FareByMode s company ride fare fixed_price =
      (calculate_fixed_price_fare dec q cal tax_env ride tenant s).0 ≡ ok fare
  FareByMode s company ride fare custom_fixed =
      (calculate_custom_fixed_fare dec q cal tax_env ride s).0 ≡ ok fare

  fare_by_mode :
      (s : Store Decimal) (company : Tenant) (ride : Ride Decimal) (fare : FareResult Decimal)
      (mode : RidePricingMode)
      → (calculate_fare dec q cal tax_env mode ride company tenant
          (or_else dto.ended_at now)
          (or_else dto.duration_min (minutes_of (or_else dto.ended_at now - ride.started_at)))
          dto.distance_km
          s).0
        ≡ ok fare
      → FareByMode s company ride fare mode
  unfolding calculate_fare
  fare_by_mode s company ride fare meter h = h
  fare_by_mode s company ride fare fixed_price h = h
  fare_by_mode s company ride fare custom_fixed h = h

  -- A ride of the caller's has been closed: the ride before and after, its fare, and the payment
  -- that it leaves.
  pub record IsSettled (s after_run : Store Decimal) : Type 0 where
    pub profile : DriverProfile
    pub company : Tenant
    pub ride : Ride Decimal
    pub fare : FareResult Decimal
    pub ended : Ride Decimal
    pub payment : Payment Decimal
    -- The caller.
    pub of_user : profile.user_id ≡ user
    pub in_tenant : profile.tenant_id ≡ tenant
    pub in_service : profile.is_active ≡ true
    pub its_company : (company.id ≡ tenant) × (company.deleted_at ≡ none)
    -- The ride before.
    pub listed : Memᴰ ride s.rides
    pub asked_for : ride.id ≡ dto.ride_id
    pub ride_tenant : ride.tenant_id ≡ tenant
    pub driven : ride.driver_profile_id ≡ profile.id
    pub under_way : ride.status ≡ ongoing
    pub in_time : ride.started_at ≤ or_else dto.ended_at now
    pub priced : FareByMode s company ride fare ride.pricing_mode
    -- The ride after.
    pub listed_after : Memᴰ ended after_run.rides
    pub same_ride : (ended.id ≡ dto.ride_id) × (ended.tenant_id ≡ tenant)
    pub same_driver : ended.driver_profile_id ≡ profile.id
    pub closed_ride :
        (ended.status ≡ completed) × (ended.ended_at ≡ some (or_else dto.ended_at now))
    pub ride_fare :
        (ended.fare_subtotal ≡ some fare.subtotal)
        × (ended.tax_amount ≡ some fare.tax)
        × (ended.fare_total ≡ some fare.total)
    -- The payment.
    pub payment_listed : Memᴰ payment after_run.payments
    pub payment_ride : payment.ride_id ≡ dto.ride_id
    pub payment_open : payment.status ≡ pending
    pub payment_fare :
        (payment.amount ≡ fare.total)
        × (payment.net_amount ≡ some fare.subtotal)
        × (payment.tax_amount ≡ some fare.tax)

  finished-IsSettled :
      (s : Store Decimal) (ride : Ride Decimal) (fare : FareResult Decimal)
      → IsFinished dec q cal tax_env dto user tenant payment_id now s (run s) ride fare
      → IsSettled s (run s).1
  finished-IsSettled s ride fare f =
      let ((paid_for, pending_now, gross, net, tax), row) =
        upserted-IsDue ride fare payment_id now s.payments in
      let same_id : ride.id ≡ dto.ride_id = ground (arith, f.is_ride) in
      let same_company : ride.tenant_id ≡ tenant = ground (arith, f.is_ride) in
      let same_profile : ride.driver_profile_id ≡ f.p.id = ground (arith, f.is_ride) in
      record {
        profile = f.p;
        company = f.t;
        ride = ride;
        fare = fare;
        ended = completed_ride dec q cal tax_env dto user tenant payment_id now ride fare;
        payment = upserted_row ride fare payment_id now s.payments;
        of_user = f.allowed.user_is;
        in_tenant = f.allowed.tenant_is;
        in_service = f.allowed.active;
        its_company = (f.allowed.same_tenant, f.allowed.live);
        listed = f.listed;
        asked_for = same_id;
        ride_tenant = same_company;
        driven = same_profile;
        under_way = ground (arith, f.is_ride);
        in_time = f.in_time;
        priced = fare_by_mode s f.t ride fare ride.pricing_mode f.fare_of;
        listed_after =
            rw (f.store) (mem-update_many (ride_id_is ride.id) _ (==_refl ride.id) f.listed);
        same_ride = (same_id, same_company);
        same_driver = same_profile;
        closed_ride = (refl, refl);
        ride_fare = (refl, refl, refl);
        payment_listed = rw (f.store) row;
        payment_ride = paid_for ∙ same_id;
        payment_open = pending_now;
        payment_fare = (gross, net, tax);
      }

  -- A successful `endRide` has found the caller's active profile in the request's tenant and the
  -- requested ride, which was ongoing and of that driver and tenant; afterwards that ride is
  -- completed, with the end time that was given (or now) and the subtotal, tax and total that the
  -- calculation of its pricing mode returned, and a payment of the ride is pending with the same
  -- three amounts.
  pub end_ride_settles : (s : Store Decimal) → is_ok (run s).0 ≡ true → IsSettled s (run s).1
  end_ride_settles s h =
      elim (end_ride-Outcome dec q cal tax_env dto user tenant payment_id now s) [
        | refused e r ↦ absurd (cc (h, r))
        | finished ride fare f ↦ finished-IsSettled s ride fare f
      ]
