-- ===== src/Tests/Rides.antt =====
-- Rides and fares: the theorems at the small database. A driver ends a ride of 10 km after 30
-- minutes, at half past ten in the evening.
use typescript_version_taxi.Base.{
  Bool, Result, [], arith, false, is_ok, length, none, ok, refl, some, true, ℕ, ◌++◌, ◌∷◌, ◌≡◌, ◌≢◌,
}
use typescript_version_taxi.Ride.Answers.{EndRideResponse}
use typescript_version_taxi.Ride.Fare.{calculate_meter_fare}
use typescript_version_taxi.Ride.Finish.{
  EndRideDto, calculate_fare, end_ride, price_ride, settle_ride, upsert_payment,
}
use typescript_version_taxi.Ride.Finish.Effects.{end_ride_once}
use typescript_version_taxi.Ride.Finish.Settles.{IsSettled, end_ride_settles}
use typescript_version_taxi.Ride.Guards.Outcome.{IsAllowed}
use typescript_version_taxi.Ride.Night.{night_multiplier}
use typescript_version_taxi.Ride.Start.{
  StartRideDto, StartRideResponse, create_ride, new_ride, resume_or_create, start_response,
  start_ride, validate_meter_mode, validate_mode,
}
use typescript_version_taxi.Ride.Start.Safety.{start_ride-IsAllowed, start_ride_status}
use typescript_version_taxi.Schema.{DriverProfile, Ride, Store, Tenant, completed, meter}
use typescript_version_taxi.Tests.Database.{Amount, a_ride, database}
use typescript_version_taxi.Tests.Parameters.{cal, decimals, queries}

abbrev start_dto : StartRideDto
start_dto = record {
  ride_status = completed;
  pricing_mode = meter;
  fixed_pricing_policy_id = none;
  custom_fixed_fare = none;
}

-- The same database when the driver has no open ride.
abbrev idle_database : Store Amount
idle_database = record database { rides = a_ride 21 completed ∷ [] }

abbrev end_dto : EndRideDto (Bool × ℕ)
end_dto = record {
  ride_id = 20;
  distance_km = (false, 10000);
  duration_min = some (false, 30000);
  ended_at = some 81000000;
}

abbrev end_run : Result (EndRideResponse Amount) × Store Amount
end_run = end_ride decimals queries cal (some "24") end_dto 9 1 31 81000000 database

ended_ok : is_ok end_run.0 ≡ true
unfolding end_ride price_ride settle_ride calculate_fare calculate_meter_fare upsert_payment
    night_multiplier
ended_ok = refl

abbrev begun : Result (StartRideResponse Amount) × Store Amount
begun = start_ride decimals queries start_dto 9 1 22 7000 idle_database

begun_ok : is_ok begun.0 ≡ true
unfolding start_ride resume_or_create create_ride validate_mode validate_meter_mode
begun_ok = refl

begun_more : length begun.1.rides ≢ length idle_database.rides
unfolding start_ride resume_or_create create_ride validate_mode validate_meter_mode
begun_more = ground arith

abbrev begun_answer : StartRideResponse Amount
begun_answer = start_response decimals (
    new_ride decimals 1 5 start_dto
      (record { meter_id = some 2; fixed_id = none; custom_fare = none }) 22 7000)

begun_answers : begun.0 ≡ ok begun_answer
unfolding start_ride resume_or_create create_ride validate_mode validate_meter_mode
begun_answers = refl

start_ride-IsAllowed_example :
    (t : Tenant) × (p : DriverProfile) × IsAllowed queries idle_database 9 1 t p
    × (begun_answer.driver_profile_id ≡ p.id)
    × (begun.1 ≡ record idle_database { rides = begun.1.rides })
start_ride-IsAllowed_example =
    start_ride-IsAllowed decimals queries start_dto 9 1 22 7000 idle_database begun_answer
      begun_answers

start_ride_status_example :
    (ride : Ride Amount) × (begun.1.rides ≡ idle_database.rides ++ ride ∷ [])
    × (ride.status ≡ start_dto.ride_status)
    × (ride.fare_total ≡ none)
    × (begun.1.payments ≡ idle_database.payments)
start_ride_status_example =
    start_ride_status decimals queries start_dto 9 1 22 7000 idle_database begun_ok begun_more

end_ride_settles_example :
    IsSettled decimals queries cal (some "24") end_dto 9 1 31 81000000 database end_run.1
end_ride_settles_example =
    end_ride_settles decimals queries cal (some "24") end_dto 9 1 31 81000000 database ended_ok

end_ride_once_example :
    is_ok (end_ride decimals queries cal (some "24") end_dto 9 1 32 82000000 end_run.1).0 ≡ false
end_ride_once_example =
    end_ride_once decimals queries cal (some "24") end_dto 9 1 31 81000000 database end_dto 9 1 32
      82000000 ended_ok refl
