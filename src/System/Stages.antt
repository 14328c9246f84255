-- ===== src/System/Stages.antt =====
-- The abstract view of a ride: where it stands between nothing and a cleared payment. The view forgets
-- the order of the rows and all columns but the driver and the amount.
pub mod Moves
use typescript_version_taxi.Base.{List, Option, find, if◌then◌else◌, none, some, ◌≡◌}
use typescript_version_taxi.Payment.{is_paid}
use typescript_version_taxi.Ride.Finish.{payment_of}
use typescript_version_taxi.Ride.Guards.{is_open, ride_id_is}
use typescript_version_taxi.Schema.{Payment, Ride, Uuid, driver}

module _ (D : Type 0) where
  pub data Stage : Type 0 where
    absent : Stage
    riding : Uuid → Stage
    closed : Stage
    owed : D → Stage
    cleared : D → Stage

  -- The moves of a ride. A ride can be recorded as closed without ever having been open, since
  -- `startRide` takes the status from the request; then it never gets a payment.
  pub data Move (a b : Stage) : Type 0 where
    stay : b ≡ a → Move a b
    begin : (driver : Uuid) → a ≡ absent → b ≡ riding driver → Move a b
    record_closed : a ≡ absent → b ≡ closed → Move a b
    finish : (driver : Uuid) (amount : D) → a ≡ riding driver → b ≡ owed amount → Move a b
    pay : (amount : D) → a ≡ owed amount → b ≡ cleared amount → Move a b

module _ {D : Type 0} where
  abbrev pub payment_stage : Option (Payment D) → Stage D
  payment_stage none = closed
  payment_stage (some p) = if is_paid p.status then cleared p.amount else owed p.amount

  abbrev pub stage_of : Option (Ride D) → Option (Payment D) → Stage D
  stage_of none p = absent
  stage_of (some r) p = if is_open r.status then riding r.driver_profile_id else payment_stage p

  abbrev pub stage : List (Ride D) → List (Payment D) → Uuid → Stage D
  stage rs ps id = stage_of (find (ride_id_is id) rs) (find (payment_of id) ps)
