-- ===== src/Ride/Start/Rules.antt =====
-- What starting a ride guarantees.
use typescript_version_taxi.Base.{
  ==_refl, All, All-update_many, Bool-cases, Exception, List, Option, Option-cases, Result-cases,
  [], ap, arith, count, false, inl, inr, is_some, length, length-update_many, ok, refl, some,
  thrown, true, update_many, ◌&&◌, ◌++◌, ◌∙◌, ◌∷◌, ◌≡◌, ◌≤◌, ◌⊎◌,
}
use typescript_version_taxi.Base.Rows.{All-imp, count-update_many_of, unique_row}
use typescript_version_taxi.External.Decimals.{Decimals}
use typescript_version_taxi.External.Queries.{Queries}
use typescript_version_taxi.Ride.Guards.{
  begin_ride, is_draft, is_ongoing, is_open, open_ride_of, ride_id_is,
}
use typescript_version_taxi.Ride.Start.{
  Pricing, StartRideDto, StartRideResponse, create_ride, new_ride, parse_fare, resume_ride,
  start_response, validate_custom_fixed_mode, validate_fixed_price_mode, validate_meter_mode,
  validate_mode,
}
use typescript_version_taxi.Schema.{
  Ride, RidePricingMode, Store, Time, Uuid, custom_fixed, fixed_price, meter,
}

-- No two rides share an id.
abbrev pub UniqueRides : {D : Type 0} → List (Ride D) → Type 0
UniqueRides rs = (id : Uuid) → count (ride_id_is id) rs ≤ 1

-- A driver has one draft or ongoing ride at most.
abbrev pub OneOpenRide : {D : Type 0} → List (Ride D) → Type 0
OneOpenRide rs = (p : Uuid) → count (open_ride_of p) rs ≤ 1

module _ (dec : Decimals) (q : Queries) where
  open dec use {Decimal, units, less_than, of_string}
  open q use {find_first, find_first_mem, find_first_matches}

  -- The ride carries what its pricing mode needs: a policy of the right kind, or a fare in the range
  -- from 5.00 to 999.99.
  abbrev pub ModeData : RidePricingMode → Option Uuid → Option Uuid → Option Decimal → Type 0
  ModeData meter meter_id fixed_id custom_fare = is_some meter_id ≡ true
  ModeData fixed_price meter_id fixed_id custom_fare = is_some fixed_id ≡ true
  ModeData custom_fixed meter_id fixed_id custom_fare =
      (fare : Decimal) × (custom_fare ≡ some fare)
      × (less_than fare (units 0 5) ≡ false)
      × (less_than (units 2 99999) fare ≡ false)

  abbrev pub IsPriced : Ride Decimal → Type 0
  IsPriced r =
      ModeData r.pricing_mode r.pricing_policy_id r.fixed_price_policy_id r.custom_fixed_fare

  begin_ride_open :
      (now : Time) (p : Uuid) (r : Ride Decimal)
      → is_open r.status ≡ true
      → open_ride_of p (begin_ride now r) ≡ open_ride_of p r
  begin_ride_open now p r h = ground arith

  module _ (profile : Uuid) (dto : StartRideDto) (now : Time) where
    found_open :
        (rs : List (Ride Decimal)) (ride : Ride Decimal)
        → find_first (open_ride_of profile) rs ≡ some ride
        → is_open ride.status ≡ true
    found_open rs ride e = ground (arith, find_first_matches _ rs ride e)

    resumed_open :
        (rs : List (Ride Decimal)) (ride : Ride Decimal)
        → UniqueRides rs
        → find_first (open_ride_of profile) rs ≡ some ride
        → (p : Uuid)
        → count (open_ride_of p) (update_many (ride_id_is ride.id) (begin_ride now) rs)
          ≡ count (open_ride_of p) rs
    resumed_open rs ride u e p =
        count-update_many_of (ride_id_is ride.id) (open_ride_of p) (begin_ride now) rs (
          All-imp _ _
            (λ x same k.
              begin_ride_open now p x
                (ap (λ (r : Ride Decimal). is_open r.status) (same k) ∙ found_open rs ride e))
            rs
            (unique_row (ride_id_is ride.id) ride rs (u ride.id) (find_first_mem _ rs ride e)
              (==_refl ride.id)))

    pub resume_ride-OneOpenRide :
        (s : Store Decimal) (ride : Ride Decimal)
        → UniqueRides s.rides
        → OneOpenRide s.rides
        → find_first (open_ride_of profile) s.rides ≡ some ride
        → OneOpenRide (resume_ride dec q ride dto now s).1.rides
    unfolding resume_ride
    resume_ride-OneOpenRide s ride u h e p = ground (arith, h p, resumed_open s.rides ride u e p)

  module _ (tenant profile : Uuid) (dto : StartRideDto) (id : Uuid) (now : Time) where
    -- Validating a mode reads only, and what it hands on fits the mode.
    validate_mode_reads :
        (mode : RidePricingMode) (s : Store Decimal)
        → (validate_mode dec q mode tenant profile dto s).1 ≡ s
    unfolding validate_mode validate_meter_mode validate_fixed_price_mode validate_custom_fixed_mode
    validate_mode_reads meter s = ground arith
    validate_mode_reads fixed_price s = ground arith
    validate_mode_reads custom_fixed s = ground arith

    validate_mode_fits :
        (mode : RidePricingMode) (s : Store Decimal) (pricing : Pricing dec)
        → dto.pricing_mode ≡ mode
        → (validate_mode dec q mode tenant profile dto s).0 ≡ ok pricing
        → ModeData mode pricing.meter_id pricing.fixed_id pricing.custom_fare
    unfolding validate_mode validate_meter_mode validate_fixed_price_mode validate_custom_fixed_mode
    validate_mode_fits meter s pricing m e = ground arith
    validate_mode_fits fixed_price s pricing m e = ground arith
    validate_mode_fits custom_fixed s pricing m e =
        elim (Option-cases (parse_fare dec dto.custom_fixed_fare)) [
          | inl bad ↦ cc (rw (bad) at e)
          | inr (fare, good) ↦ (fare, ground arith, ground arith, ground arith)
        ]

    -- A new ride is appended, or nothing is written.
    pub create_ride_cases :
        (s : Store Decimal)
        → ((e : Exception) × (create_ride dec q tenant profile dto id now s ≡ (thrown e, s)))
          ⊎ ((pricing : Pricing dec) × (let ride = new_ride dec tenant profile dto pricing id now in
                IsPriced ride
                × (create_ride dec q tenant profile dto id now s
                    ≡ (ok (start_response dec ride), record s { rides = s.rides ++ ride ∷ [] }))))
    unfolding create_ride
    create_ride_cases s =
        let same = validate_mode_reads dto.pricing_mode s in
        elim (Result-cases (validate_mode dec q dto.pricing_mode tenant profile dto s).0) [
          | inl (pricing, e) ↦
              inr (pricing, (validate_mode_fits dto.pricing_mode s pricing refl e, ground arith))
          | inr (e, f) ↦ inl (e, ground arith)
        ]

  module _ (profile : Uuid) (dto : StartRideDto) (now : Time) (ride : Ride Decimal)
      (s : Store Decimal) where
    -- Resuming a ride always answers with it, keeps the number of rides, and what each mode needs.
    pub resume_ride_ok :
        (answer : StartRideResponse Decimal) × ((resume_ride dec q ride dto now s).0 ≡ ok answer)
        × (answer.driver_profile_id ≡ ride.driver_profile_id)
    unfolding resume_ride
    resume_ride_ok = elim (Bool-cases (is_draft ride.status && is_ongoing dto.ride_status)) [
      | inl e ↦ (start_response dec (begin_ride now ride), ground arith, refl)
      | inr e ↦ (start_response dec ride, ground arith, refl)
    ]

    pub resume_ride_rides :
        (resume_ride dec q ride dto now s).1
        ≡ record s { rides = (resume_ride dec q ride dto now s).1.rides }
    unfolding resume_ride
    resume_ride_rides = ground arith

    pub length-resume_ride : length (resume_ride dec q ride dto now s).1.rides ≡ length s.rides
    unfolding resume_ride
    length-resume_ride =
        ground (arith, length-update_many (ride_id_is ride.id) (begin_ride now) s.rides)

    pub resume_ride-IsPriced :
        All IsPriced s.rides → All IsPriced (resume_ride dec q ride dto now s).1.rides
    unfolding resume_ride
    resume_ride-IsPriced h =
        elim (Bool-cases (is_draft ride.status && is_ongoing dto.ride_status)) [
          | inl e ↦ rw e (
              All-update_many IsPriced (ride_id_is ride.id) (begin_ride now) (λ x _ k. k) s.rides h)
          | inr e ↦ rw e h
        ]
