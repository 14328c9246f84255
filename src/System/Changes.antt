-- ===== src/System/Changes.antt =====
-- The rules that rides and payments obey, whichever of the nine requests is made: how the two
-- tables may change in one step.
use typescript_version_taxi.Base.{List, Memᴰ, [], count, false, true, update_many, ◌++◌, ◌∷◌, ◌≡◌}
use typescript_version_taxi.Payment.{is_paid, payment_id_is}
use typescript_version_taxi.Payment.Safety.{SameMoney}
use typescript_version_taxi.Ride.Fare.{FareResult}
use typescript_version_taxi.Ride.Finish.{complete_ride, payment_of}
use typescript_version_taxi.Ride.Finish.Outcome.{upserted}
use typescript_version_taxi.Ride.Guards.{begin_ride, is_open, open_ride_of, ride_id_is}
use typescript_version_taxi.Schema.{Payment, Ride, Time, Uuid, ongoing}

-- One step of both tables. A payment becomes due only when its ride ends, and is paid only while it is
-- not paid yet; nothing else happens to a payment.
module _ {D : Type 0} (Priced : Ride D → Type 0) (rs rs' : List (Ride D))
    (ps ps' : List (Payment D)) where
  pub data Change : Type 0 where
    idle_step : rs' ≡ rs → ps' ≡ ps → Change
    begin_step :
        (ride : Ride D) (now : Time)
        → Memᴰ ride rs
        → is_open ride.status ≡ true
        → rs' ≡ update_many (ride_id_is ride.id) (begin_ride now) rs
        → ps' ≡ ps
        → Change
    add_step :
        (ride : Ride D)
        → count (ride_id_is ride.id) rs ≡ 0
        → count (payment_of ride.id) ps ≡ 0
        → count (open_ride_of ride.driver_profile_id) rs ≡ 0
        → Priced ride
        → rs' ≡ rs ++ ride ∷ []
        → ps' ≡ ps
        → Change
    end_step :
        (ride : Ride D) (at : Time) (duration distance : D) (fare : FareResult D) (id : Uuid)
        (now : Time)
        → Memᴰ ride rs
        → ride.status ≡ ongoing
        → count (payment_id_is id) ps ≡ 0
        → rs' ≡ update_many (ride_id_is ride.id) (complete_ride at duration distance fare) rs
        → ps' ≡ upserted ride fare id now ps
        → Change
    pay_step :
        (p : Payment D) (f : Payment D → Payment D)
        → Memᴰ p ps
        → is_paid p.status ≡ false
        → ((x : Payment D) → SameMoney x (f x) × (is_paid (f x).status ≡ true))
        → rs' ≡ rs
        → ps' ≡ update_many (payment_id_is p.id) f ps
        → Change
