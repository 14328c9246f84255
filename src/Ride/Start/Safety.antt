-- ===== src/Ride/Start/Safety.antt =====
-- The theorems about `startRide`: what it does to the table of rides.
use typescript_version_taxi.Base.{
  All, All-append, Exception, List, Option-cases, Result, [], ap, arith, count-append, false, inl,
  inr, is_ok, length, none, not_found, ok, refl, some, thrown, true, ◌++◌, ◌∙◌, ◌∷◌, ◌≡◌, ◌≢◌,
}
use typescript_version_taxi.External.Decimals.{Decimals}
use typescript_version_taxi.External.Queries.{Queries, find_first_count}
use typescript_version_taxi.Ride.Guards.{open_ride_of}
use typescript_version_taxi.Ride.Guards.Outcome.{IsAllowed, checks_cases}
use typescript_version_taxi.Ride.Start.{
  Pricing, StartRideDto, StartRideResponse, new_ride, resume_or_create, resume_ride, start_response,
  start_ride,
}
use typescript_version_taxi.Ride.Start.Rules.{
  IsPriced, OneOpenRide, UniqueRides, create_ride_cases, length-resume_ride, resume_ride-IsPriced,
  resume_ride-OneOpenRide, resume_ride_ok, resume_ride_rides,
}
use typescript_version_taxi.Schema.{DriverProfile, Ride, Store, Tenant, Time, Uuid}

module _ (dec : Decimals) (q : Queries) (dto : StartRideDto) (user tenant id : Uuid)
    (now : Time) where
  open dec use {Decimal}
  open q use {find_first, find_first_mem, find_first_matches}

  -- The ways in which a call ends.
  pub data Outcome (s : Store Decimal) (r : Result (StartRideResponse Decimal) × Store Decimal)
      : Type 0 where
    refused : (e : Exception) → r ≡ (thrown e, s) → Outcome s r
    resumed :
        (t : Tenant) (p : DriverProfile) (ride : Ride Decimal)
        → IsAllowed q s user tenant t p
        → find_first (open_ride_of p.id) s.rides ≡ some ride
        → r ≡ resume_ride dec q ride dto now s
        → Outcome s r
    created :
        (t : Tenant) (p : DriverProfile) (pricing : Pricing dec)
        → IsAllowed q s user tenant t p
        → find_first (open_ride_of p.id) s.rides ≡ none
        → IsPriced dec q (new_ride dec tenant p.id dto pricing id now)
        → r ≡ (
          ok (start_response dec (new_ride dec tenant p.id dto pricing id now)),
          record s { rides = s.rides ++ new_ride dec tenant p.id dto pricing id now ∷ [] },
        )
        → Outcome s r

  pub start_ride-Outcome :
      (s : Store Decimal) → Outcome s (start_ride dec q dto user tenant id now s)
  unfolding start_ride resume_or_create
  start_ride-Outcome s =
      elim (checks_cases q s user tenant (not_found "Tenant does not exist or is deleted")
        (λ t p. resume_or_create dec q tenant p.id dto id now)) [
          | inl (e, h) ↦ refused e h
          | inr (t, p, allowed, h) ↦ elim (Option-cases (find_first (open_ride_of p.id) s.rides)) [
            | inr (ride, f) ↦ resumed t p ride allowed f (h ∙ ground arith)
            | inl f ↦ elim (create_ride_cases dec q tenant p.id dto id now s) [
              | inl (e, g) ↦ refused e (h ∙ ground arith)
              | inr (pricing, (priced, g)) ↦ created t p pricing allowed f priced (h ∙ ground arith)
            ]
          ]
        ]

  found_profile :
      (profile : Uuid) (rs : List (Ride Decimal)) (ride : Ride Decimal)
      → find_first (open_ride_of profile) rs ≡ some ride
      → ride.driver_profile_id ≡ profile
  found_profile profile rs ride e = ground (arith, find_first_matches _ rs ride e)

  -- `startRide` keeps one open ride at most for each driver, where the ids of rides are unique.
  pub start_ride-OneOpenRide :
      (s : Store Decimal)
      → UniqueRides s.rides
      → OneOpenRide s.rides
      → OneOpenRide (start_ride dec q dto user tenant id now s).1.rides
  start_ride-OneOpenRide s u h d = elim (start_ride-Outcome s) [
    | refused e r ↦ rw r (h d)
    | resumed t p ride allowed f r ↦
        rw r (resume_ride-OneOpenRide dec q p.id dto now s ride u h f d)
    | created t p pricing allowed f priced r ↦
        rw r (grind (arith, count-append, h d, find_first_count q (open_ride_of p.id) s.rides))
  ]

  -- A `startRide` that throws has written nothing.
  pub start_ride_atomic :
      (s : Store Decimal)
      → is_ok (start_ride dec q dto user tenant id now s).0 ≡ false
      → (start_ride dec q dto user tenant id now s).1 ≡ s
  start_ride_atomic s h = elim (start_ride-Outcome s) [
    | refused e r ↦ rw r refl
    | resumed t p ride allowed f r ↦
        let (a, g, _) = resume_ride_ok dec q p.id dto now ride s in absurd (cc (rw r at h, g))
    | created t p pricing allowed f priced r ↦ absurd (cc (rw r at h))
  ]

  -- If every ride has what its pricing mode needs (a policy, or a custom fare from 5.00 to
  -- 999.99), then so after `startRide`.
  pub start_ride-IsPriced :
      (s : Store Decimal)
      → All (IsPriced dec q) s.rides
      → All (IsPriced dec q) (start_ride dec q dto user tenant id now s).1.rides
  start_ride-IsPriced s h = elim (start_ride-Outcome s) [
    | refused e r ↦ rw r h
    | resumed t p ride allowed f r ↦ rw r (resume_ride-IsPriced dec q p.id dto now ride s h)
    | created t p pricing allowed f priced r ↦
        rw r (All-append (IsPriced dec q) s.rides _ h (priced, tt))
  ]

  -- Only a driver with an active profile in a tenant that is not deleted can call `startRide` with
  -- success; the answer is a ride of that driver, and no other table changes.
  pub start_ride-IsAllowed :
      (s : Store Decimal) (answer : StartRideResponse Decimal)
      → (start_ride dec q dto user tenant id now s).0 ≡ ok answer
      → (t : Tenant) × (p : DriverProfile) × IsAllowed q s user tenant t p
        × (answer.driver_profile_id ≡ p.id)
        × ((start_ride dec q dto user tenant id now s).1
            ≡ record s { rides = (start_ride dec q dto user tenant id now s).1.rides })
  start_ride-IsAllowed s answer h = elim (start_ride-Outcome s) [
    | refused e r ↦ absurd (cc (rw r at h))
    | resumed t p ride allowed f r ↦
        let (a, g, own) = resume_ride_ok dec q p.id dto now ride s in
        (
          t,
          p,
          allowed,
          ground (
            arith,
            ap (λ (x : Result (StartRideResponse Decimal) × Store Decimal). x.0) r,
            found_profile p.id s.rides ride f,
          ),
          rw r (resume_ride_rides dec q p.id dto now ride s),
        )
    | created t p pricing allowed f priced r ↦ (
      t,
      p,
      allowed,
      ground (arith, ap (λ (x : Result (StartRideResponse Decimal) × Store Decimal). x.0) r),
      rw r refl,
    )
  ]

  -- When `startRide` succeeds and the number of rides changes, one ride has been added, with the
  -- status that the request names, whichever it is, and no fare; no payment changes.
  pub start_ride_status :
      (s : Store Decimal)
      → is_ok (start_ride dec q dto user tenant id now s).0 ≡ true
      → length (start_ride dec q dto user tenant id now s).1.rides ≢ length s.rides
      → (ride : Ride Decimal) × ((start_ride dec q dto user tenant id now s).1.rides
          ≡ s.rides ++ ride ∷ [])
        × (ride.status ≡ dto.ride_status)
        × (ride.fare_total ≡ none)
        × ((start_ride dec q dto user tenant id now s).1.payments ≡ s.payments)
  start_ride_status s k h = elim (start_ride-Outcome s) [
    | refused e r ↦ absurd (h (rw r refl))
    | resumed t p ride allowed f r ↦
        absurd (h (rw r (length-resume_ride dec q p.id dto now ride s)))
    | created t p pricing allowed f priced r ↦
        (new_ride dec tenant p.id dto pricing id now, rw r refl, refl, refl, rw r refl)
  ]
