-- ===== src/Ride/Finish/Outcome.antt =====
-- How `endRide` ends: it throws and has written nothing, or it has made both writes.
use typescript_version_taxi.Base.{
  Bool-cases, Exception, List, Memᴰ, Option, Option-cases, Result, Result-cases, String, [], arith,
  bad_request, false, find, inl, inr, ltb, none, not_found, ok, or_else, some, thrown, true,
  update_many, ℕ, ◌++◌, ◌-◌, ◌∷◌, ◌≡◌, ◌≤◌,
}
use typescript_version_taxi.External.Calendar.{Calendar}
use typescript_version_taxi.External.Decimals.{Decimals}
use typescript_version_taxi.External.Queries.{Queries}
use typescript_version_taxi.Ride.Answers.{EndRideResponse, end_response}
use typescript_version_taxi.Ride.Fare.{FareResult}
use typescript_version_taxi.Ride.Fare.Reads.{
  calculate_custom_fixed_fare_reads, calculate_fixed_price_fare_reads, calculate_meter_fare_reads,
}
use typescript_version_taxi.Ride.Finish.{
  EndRideDto, calculate_fare, complete_ride, end_ride, new_payment, ongoing_ride, payment_of,
  price_ride, reopen_payment, settle_ride, upsert_payment,
}
use typescript_version_taxi.Ride.Guards.{ride_id_is}
use typescript_version_taxi.Ride.Guards.Outcome.{IsAllowed, checks_cases}
use typescript_version_taxi.Schema.{
  DriverProfile, Payment, Ride, RidePricingMode, Store, Tenant, Time, Uuid, custom_fixed,
  fixed_price, meter,
}

module _ {D : Type 0} where
  -- The payments after the upsert, and the row that it returns, from the row that was found.
  abbrev pub upserted_at :
      Option (Payment D) → Ride D → FareResult D → Uuid → Time → List (Payment D) → List (Payment D)
  upserted_at none ride fare id now ps = ps ++ new_payment ride fare id now ∷ []
  upserted_at (some p) ride fare id now ps =
      update_many (payment_of ride.id) (reopen_payment fare now) ps

  abbrev pub row_at : Option (Payment D) → Ride D → FareResult D → Uuid → Time → Payment D
  row_at none ride fare id now = new_payment ride fare id now
  row_at (some p) ride fare id now = reopen_payment fare now p

  abbrev pub upserted : Ride D → FareResult D → Uuid → Time → List (Payment D) → List (Payment D)
  upserted ride fare id now ps = upserted_at (find (payment_of ride.id) ps) ride fare id now ps

  abbrev pub upserted_row : Ride D → FareResult D → Uuid → Time → List (Payment D) → Payment D
  upserted_row ride fare id now ps = row_at (find (payment_of ride.id) ps) ride fare id now

  upsert_payment_eq :
      (ride : Ride D) (fare : FareResult D) (id now : ℕ) (s : Store D)
      → upsert_payment ride fare id now s ≡ (
        ok (upserted_row ride fare id now s.payments),
        record s { payments = upserted ride fare id now s.payments },
      )
  unfolding upsert_payment
  upsert_payment_eq ride fare id now s = ground arith

module _ (dec : Decimals) (q : Queries) (cal : Calendar) (tax_env : Option String) where
  open dec use {Decimal, Number, of_number, is_negative, minutes_of, to_dp}
  open q use {find_first, find_first_mem, find_first_matches}

  -- The calculation of a fare reads only.
  calculate_fare_reads :
      (mode : RidePricingMode) (ride : Ride Decimal) (t : Tenant) (tenant : Uuid) (ended_at : Time)
      (duration distance : Number) (s : Store Decimal)
      → (calculate_fare dec q cal tax_env mode ride t tenant ended_at duration distance s).1 ≡ s
  unfolding calculate_fare
  calculate_fare_reads meter ride t tenant ended_at duration distance s =
      calculate_meter_fare_reads dec q cal tax_env ride s t ended_at duration distance
  calculate_fare_reads fixed_price ride t tenant ended_at duration distance s =
      calculate_fixed_price_fare_reads dec q cal tax_env ride s tenant
  calculate_fare_reads custom_fixed ride t tenant ended_at duration distance s =
      calculate_custom_fixed_fare_reads dec q cal tax_env ride s

  -- The store after a settlement.
  abbrev pub settled :
      Ride Decimal
      → Time
      → Number
      → Number
      → FareResult Decimal
      → Uuid
      → Time
      → Store Decimal
      → Store Decimal
  settled ride ended_at duration distance fare payment_id now s = record s {
    rides =
        update_many (ride_id_is ride.id)
          (complete_ride ended_at (to_dp 2 (of_number duration)) (to_dp 3 (of_number distance))
            fare)
          s.rides;
    payments = upserted ride fare payment_id now s.payments;
  }

  settle_ride_eq :
      (ride : Ride Decimal) (ended_at : Time) (duration distance : Number)
      (fare : FareResult Decimal) (payment_id now : ℕ) (s : Store Decimal)
      → settle_ride dec q cal tax_env ride ended_at duration distance fare payment_id now s ≡ (
        ok (
            end_response dec ride ended_at
              (to_dp 2 (of_number duration))
              (to_dp 3 (of_number distance))
              fare
              (upserted_row ride fare payment_id now s.payments)),
        settled ride ended_at duration distance fare payment_id now s,
      )
  unfolding settle_ride
  settle_ride_eq ride ended_at duration distance fare payment_id now s = ground (
    arith,
    upsert_payment_eq ride fare payment_id now (record s {
      rides =
          update_many (ride_id_is ride.id)
            (complete_ride ended_at (to_dp 2 (of_number duration)) (to_dp 3 (of_number distance))
              fare)
            s.rides;
    }),
  )

  module _ (dto : EndRideDto Number) (user tenant payment_id : Uuid) (now : Time) where
    abbrev pub end_time : Time
    end_time = or_else dto.ended_at now

    abbrev pub minutes_charged : Ride Decimal → Number
    minutes_charged ride = or_else dto.duration_min (minutes_of (end_time - ride.started_at))

    -- The write to the ride's row, and the row that it leaves.
    abbrev pub closing : Ride Decimal → FareResult Decimal → Ride Decimal → Ride Decimal
    closing ride fare =
        complete_ride end_time (to_dp 2 (of_number (minutes_charged ride)))
          (to_dp 3 (of_number dto.distance_km)) fare

    abbrev pub completed_ride : Ride Decimal → FareResult Decimal → Ride Decimal
    completed_ride ride fare = closing ride fare ride

    -- Everything that a successful call has established about the ride.
    pub record IsFinished (s : Store Decimal) (r : Result (EndRideResponse Decimal) × Store Decimal)
        (ride : Ride Decimal) (fare : FareResult Decimal) : Type 0 where
      pub t : Tenant
      pub p : DriverProfile
      pub allowed : IsAllowed q s user tenant t p
      pub listed : Memᴰ ride s.rides
      pub is_ride : ongoing_ride dto.ride_id tenant p.id ride ≡ true
      pub in_time : ride.started_at ≤ end_time
      pub far : is_negative dto.distance_km ≡ false
      pub fare_of :
          (calculate_fare dec q cal tax_env ride.pricing_mode ride t tenant end_time
            (minutes_charged ride)
            dto.distance_km
            s).0
          ≡ ok fare
      pub answer :
          r.0
          ≡ ok (
              end_response dec ride end_time
                (to_dp 2 (of_number (minutes_charged ride)))
                (to_dp 3 (of_number dto.distance_km))
                fare
                (upserted_row ride fare payment_id now s.payments))
      pub store :
          r.1 ≡ settled ride end_time (minutes_charged ride) dto.distance_km fare payment_id now s

    pub data Outcome (s : Store Decimal) (r : Result (EndRideResponse Decimal) × Store Decimal)
        : Type 0 where
      refused : (e : Exception) → r ≡ (thrown e, s) → Outcome s r
      finished :
          (ride : Ride Decimal) (fare : FareResult Decimal) → IsFinished s r ride fare → Outcome s r

    price_ride-Outcome :
        (t : Tenant) (p : DriverProfile) (s : Store Decimal)
        → IsAllowed q s user tenant t p
        → Outcome s (price_ride dec q cal tax_env dto tenant payment_id now t p s)
    unfolding price_ride
    price_ride-Outcome t p s allowed =
        elim (Option-cases (find_first (ongoing_ride dto.ride_id tenant p.id) s.rides)) [
          | inl e ↦ refused (not_found "Ongoing ride not found for this driver") (ground arith)
          | inr (ride, e) ↦ elim (Bool-cases (ltb end_time ride.started_at)) [
            | inl early ↦ refused (bad_request "endedAt cannot be before startedAt") (ground arith)
            | inr in_time ↦ elim (Bool-cases (is_negative dto.distance_km)) [
              | inl negative ↦ refused (bad_request "distanceKm must be >= 0") (ground arith)
              | inr far ↦
                  let same =
                    calculate_fare_reads ride.pricing_mode ride t tenant end_time
                      (minutes_charged ride) dto.distance_km s in
                  elim (Result-cases
                    (calculate_fare dec q cal tax_env ride.pricing_mode ride t tenant end_time
                      (minutes_charged ride) dto.distance_km s).0) [
                        | inr (x, f) ↦ refused x (ground arith)
                        | inl (fare, f) ↦
                            let settle =
                              settle_ride_eq ride end_time (minutes_charged ride) dto.distance_km
                                fare payment_id now s in
                            finished ride fare (record {
                              t = t;
                              p = p;
                              allowed = allowed;
                              listed = find_first_mem _ s.rides ride e;
                              is_ride = find_first_matches _ s.rides ride e;
                              in_time = ground arith;
                              far = far;
                              fare_of = f;
                              answer = ground (arith, settle);
                              store = ground (arith, settle);
                            })
                      ]
            ]
          ]
        ]

    pub end_ride-Outcome :
        (s : Store Decimal)
        → Outcome s (end_ride dec q cal tax_env dto user tenant payment_id now s)
    unfolding end_ride
    end_ride-Outcome s =
        elim (checks_cases q s user tenant (not_found "Tenant does not exist or is deleted")
          (price_ride dec q cal tax_env dto tenant payment_id now)) [
            | inl (e, h) ↦ refused e h
            | inr (t, p, allowed, h) ↦ rw h (price_ride-Outcome t p s allowed)
          ]
