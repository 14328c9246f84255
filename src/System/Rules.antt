-- ===== src/System/Rules.antt =====
-- What the rules keep true of the two tables.
pub mod Steps
use typescript_version_taxi.Base.{
  ==_refl, All, Bool, List, Memᴰ, arith, count, count-update_many-le, true, update_many, ◌&&◌, ◌==◌,
  ◌≡◌, ◌≤◌,
}
use typescript_version_taxi.Base.Rows.{
  All-imp, count-update_many_of, count-update_many_within, unique_row,
}
use typescript_version_taxi.Payment.Safety.{UniquePayments}
use typescript_version_taxi.Ride.Fare.{FareResult}
use typescript_version_taxi.Ride.Finish.{complete_ride}
use typescript_version_taxi.Ride.Finish.Effects.{OnePayment}
use typescript_version_taxi.Ride.Guards.{begin_ride, is_open, ride_id_is}
use typescript_version_taxi.Ride.Start.Rules.{OneOpenRide, UniqueRides}
use typescript_version_taxi.Schema.{Payment, Ride, Time, Uuid}

-- The ride with this id, while it is open.
abbrev pub open_id : {D : Type 0} → Uuid → Ride D → Bool
open_id id r = r.id == id && is_open r.status

module _ {D : Type 0} (Priced : Ride D → Type 0) where
  -- Ids and rides of payments are unique, a driver has one open ride at most, every ride has what its
  -- pricing mode needs, and no open ride has a payment.
  pub record IsSound (rs : List (Ride D)) (ps : List (Payment D)) : Type 0 where
    pub unique_rides : UniqueRides rs
    pub one_open : OneOpenRide rs
    pub priced : All Priced rs
    pub unique_payments : UniquePayments ps
    pub one_payment : OnePayment ps
    pub none_open : All (λ p. count (open_id p.ride_id) rs ≡ 0) ps

module _ {D : Type 0} where
  -- An open ride, where its id is unique, is the only row that a write to its id reaches.
  pub only_row :
      (rs : List (Ride D)) (ride : Ride D)
      → UniqueRides rs
      → Memᴰ ride rs
      → All (λ x. ride_id_is ride.id x ≡ true → x ≡ ride) rs
  only_row rs ride u m = unique_row (ride_id_is ride.id) ride rs (u ride.id) m (==_refl ride.id)

  pub begun-count :
      (p : Ride D → Bool) (rs : List (Ride D)) (ride : Ride D) (now : Time)
      → UniqueRides rs
      → Memᴰ ride rs
      → p (begin_ride now ride) ≡ p ride
      → count p (update_many (ride_id_is ride.id) (begin_ride now) rs) ≡ count p rs
  begun-count p rs ride now u m h =
      count-update_many_of (ride_id_is ride.id) p (begin_ride now) rs
        (All-imp _ _ (λ x same k. rw (same k) h) rs (only_row rs ride u m))

  module _ (at : Time) (duration distance : D) (fare : FareResult D) where
    pub ended-le :
        (p : Ride D → Bool) (rs : List (Ride D)) (ride : Ride D)
        → ((x : Ride D) → p (complete_ride at duration distance fare x) ≡ true → p x ≡ true)
        → count p (update_many (ride_id_is ride.id) (complete_ride at duration distance fare) rs)
          ≤ count p rs
    ended-le p rs ride h =
        count-update_many-le (ride_id_is ride.id) p (complete_ride at duration distance fare)
          (λ x _ k. h x k) rs

    -- The ride that has ended is not open.
    pub ended-zero :
        (rs : List (Ride D)) (ride : Ride D)
        → count
            (open_id ride.id)
            (update_many (ride_id_is ride.id) (complete_ride at duration distance fare) rs)
          ≡ 0
    ended-zero rs ride =
        count-update_many_within (ride_id_is ride.id) (open_id ride.id)
          (complete_ride at duration distance fare) (λ x. ground arith) (λ x. ground arith) rs
