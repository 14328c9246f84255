-- ===== src/Ride.antt =====
-- The rides of a driver (src/drivers/rides/services/driver-ride.service.ts): `Night` reads the
-- surcharge windows, `Fare` computes a fare, `Start` and `Finish` are the two ends of a ride.
pub mod Night
pub mod Fare
pub mod Guards
pub mod Answers
pub mod Start
pub mod Finish
