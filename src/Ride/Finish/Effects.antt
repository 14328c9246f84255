-- ===== src/Ride/Finish/Effects.antt =====
-- The theorems about `endRide`: what it keeps, and that it is not repeated.
use typescript_version_taxi.Base.{
  All, All-update_many, Bool, List, Memᴰ, Option, Option-cases, Result, String, arith, count,
  count-append, count-update_many, count-update_many-le, false, find, find_sound, inl, inr, is_ok,
  refl, some, true, ℕ, ◌&&◌, ◌==◌, ◌≡◌, ◌≤◌,
}
use typescript_version_taxi.Base.Rows.{
  count-of-find-none, count-pos-of-mem, count-update_many_within, mem-append_right, mem-find,
  mem-update_many,
}
use typescript_version_taxi.External.Calendar.{Calendar}
use typescript_version_taxi.External.Decimals.{Decimals}
use typescript_version_taxi.External.Queries.{Queries}
use typescript_version_taxi.Ride.Answers.{EndRideResponse}
use typescript_version_taxi.Ride.Fare.{FareResult}
use typescript_version_taxi.Ride.Finish.{EndRideDto, end_ride, payment_of, reopen_payment}
use typescript_version_taxi.Ride.Finish.Outcome.{
  refused, IsFinished, closing, end_ride-Outcome, finished, upserted, upserted_row,
}
use typescript_version_taxi.Ride.Guards.{is_ongoing, open_ride_of, ride_id_is}
use typescript_version_taxi.Ride.Start.Rules.{IsPriced, OneOpenRide, UniqueRides}
use typescript_version_taxi.Schema.{Payment, Ride, Store, Time, Uuid, pending}

-- A ride has one payment at most (the table's unique key).
abbrev pub OnePayment : {D : Type 0} → List (Payment D) → Type 0
OnePayment ps = (ride : Uuid) → count (payment_of ride) ps ≤ 1

abbrev still_ongoing : {D : Type 0} → Uuid → Ride D → Bool
still_ongoing id r = r.id == id && is_ongoing r.status

module _ {D : Type 0} (ride : Ride D) (fare : FareResult D) where
  -- The payment of the ride that is open after the settlement.
  abbrev pub IsDue : Payment D → Type 0
  IsDue p =
      (p.ride_id ≡ ride.id)
      × (p.status ≡ pending)
      × (p.amount ≡ fare.total)
      × (p.net_amount ≡ some fare.subtotal)
      × (p.tax_amount ≡ some fare.tax)

module _ {D : Type 0} (ride : Ride D) (fare : FareResult D) (id now : ℕ) where
  pub upserted-IsDue :
      (ps : List (Payment D))
      → let p = upserted_row ride fare id now ps in
        IsDue ride fare p × Memᴰ p (upserted ride fare id now ps)
  upserted-IsDue ps = elim (Option-cases (find (payment_of ride.id) ps)) [
    | inl e ↦ rw e ((refl, refl, refl, refl, refl), mem-append_right ps (Memᴰ.head refl))
    | inr (p, e) ↦ rw e (
      (ground (arith, find_sound (payment_of ride.id) ps e), refl, refl, refl, refl),
      mem-update_many (payment_of ride.id) (reopen_payment fare now) (find_sound _ ps e)
          (mem-find _ ps e),
    )
  ]

  pub upserted-OnePayment :
      (ps : List (Payment D)) → OnePayment ps → OnePayment (upserted ride fare id now ps)
  upserted-OnePayment ps h r = elim (Option-cases (find (payment_of ride.id) ps)) [
    | inl e ↦ rw e (grind (arith, count-append, h r, count-of-find-none (payment_of ride.id) ps e))
    | inr (p, e) ↦ rw e (
        omega (
          arith,
          h r,
          count-update_many (payment_of ride.id) (payment_of r) (reopen_payment fare now)
              (λ x _. refl) ps,
        ))
  ]

module _ (dec : Decimals) (q : Queries) (cal : Calendar) (tax_env : Option String)
    (dto : EndRideDto dec.Number) (user tenant payment_id : Uuid) (now : Time) where
  open dec use {Decimal, Number, minutes_of}
  open q use {find_first, find_first_mem, find_first_matches}

  abbrev run : Store Decimal → Result (EndRideResponse Decimal) × Store Decimal
  run = end_ride dec q cal tax_env dto user tenant payment_id now

  -- `endRide` keeps one open ride at most for each driver.
  pub end_ride-OneOpenRide : (s : Store Decimal) → OneOpenRide s.rides → OneOpenRide (run s).1.rides
  end_ride-OneOpenRide s h d =
      elim (end_ride-Outcome dec q cal tax_env dto user tenant payment_id now s) [
        | refused e r ↦ rw r (h d)
        | finished ride fare f ↦ rw (f.store) (
            omega (
              arith,
              h d,
              count-update_many-le (ride_id_is ride.id) (open_ride_of d)
                  (closing dec q cal tax_env dto user tenant payment_id now ride fare)
                  (λ x. ground arith) s.rides,
            ))
      ]

  pub end_ride-UniqueRides : (s : Store Decimal) → UniqueRides s.rides → UniqueRides (run s).1.rides
  end_ride-UniqueRides s h d =
      elim (end_ride-Outcome dec q cal tax_env dto user tenant payment_id now s) [
        | refused e r ↦ rw r (h d)
        | finished ride fare f ↦ rw (f.store) (
            omega (
              arith,
              h d,
              count-update_many (ride_id_is ride.id) (ride_id_is d)
                  (closing dec q cal tax_env dto user tenant payment_id now ride fare) (λ x _. refl)
                  s.rides,
            ))
      ]

  pub end_ride-IsPriced :
      (s : Store Decimal) → All (IsPriced dec q) s.rides → All (IsPriced dec q) (run s).1.rides
  end_ride-IsPriced s h =
      elim (end_ride-Outcome dec q cal tax_env dto user tenant payment_id now s) [
        | refused e r ↦ rw r h
        | finished ride fare f ↦ rw (f.store) (
            All-update_many (IsPriced dec q) (ride_id_is ride.id)
              (closing dec q cal tax_env dto user tenant payment_id now ride fare) (λ x _ k. k)
              s.rides h)
      ]

  -- `endRide` keeps one payment at most for each ride.
  pub end_ride-OnePayment :
      (s : Store Decimal) → OnePayment s.payments → OnePayment (run s).1.payments
  end_ride-OnePayment s h =
      elim (end_ride-Outcome dec q cal tax_env dto user tenant payment_id now s) [
        | refused e r ↦ rw r h
        | finished ride fare f ↦
            rw (f.store) (upserted-OnePayment ride fare payment_id now s.payments h)
      ]

  ended_gone :
      (s : Store Decimal) (ride : Ride Decimal) (fare : FareResult Decimal)
      → IsFinished dec q cal tax_env dto user tenant payment_id now s (run s) ride fare
      → count (still_ongoing dto.ride_id) (run s).1.rides ≡ 0
  ended_gone s ride fare f = rw (f.store) (
      count-update_many_within (ride_id_is ride.id) (still_ongoing dto.ride_id)
        (closing dec q cal tax_env dto user tenant payment_id now ride fare) (λ x. ground arith)
        (λ x. ground (arith, f.is_ride)) s.rides)

  -- Right after a ride has been ended, no `endRide` for it succeeds, whoever calls it, with
  -- whatever data and whenever.
  pub end_ride_once :
      (s : Store Decimal) (dto' : EndRideDto Number) (user' tenant' payment_id' : Uuid)
      (now' : Time)
      → is_ok (run s).0 ≡ true
      → dto'.ride_id ≡ dto.ride_id
      → is_ok (end_ride dec q cal tax_env dto' user' tenant' payment_id' now' (run s).1).0 ≡ false
  end_ride_once s dto' user' tenant' payment_id' now' h same =
      elim (end_ride-Outcome dec q cal tax_env dto user tenant payment_id now s) [
        | refused e r ↦ absurd (cc (h, r))
        | finished ride fare f ↦
            elim (end_ride-Outcome dec q cal tax_env dto' user' tenant' payment_id' now'
              (run s).1) [
                | refused e r ↦ rw r refl
                | finished ride' fare' f' ↦ absurd (
                    ground (
                      arith,
                      count-pos-of-mem (still_ongoing dto.ride_id) f'.listed,
                      f'.is_ride,
                      same,
                      ended_gone s ride fare f,
                    ))
              ]
      ]
