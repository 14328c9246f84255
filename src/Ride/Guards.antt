-- ===== src/Ride/Guards.antt =====
-- What the operations on rides check first: the tenant, the driver's profile, the ride's status.
pub mod Outcome
use typescript_version_taxi.Base.{
  Action, Bool, Exception, List, arith, false, gets, is_some, modify, not, not_found, or_throw,
  pure, throw_if, true, ◌&&◌, ◌==◌, ◌>>=◌, ◌>>◌, ◌≡◌,
}
use typescript_version_taxi.External.Queries.{Queries}
use typescript_version_taxi.Schema.{
  DriverProfile, Ride, RideStatus, Store, Tenant, Time, Uuid, completed, draft, ongoing,
}

abbrev pub is_completed : RideStatus → Bool
is_completed completed = true
is_completed _ = false

pub completed_of : (status : RideStatus) → is_completed status ≡ true → status ≡ completed
completed_of status h = ground arith

abbrev pub is_draft : RideStatus → Bool
is_draft draft = true
is_draft _ = false

abbrev pub is_ongoing : RideStatus → Bool
is_ongoing ongoing = true
is_ongoing _ = false

-- `status: { in: [DRAFT, ONGOING] }`
abbrev pub is_open : RideStatus → Bool
is_open draft = true
is_open ongoing = true
is_open _ = false

-- `!tenant || tenant.deletedAt`, of a row that is there.
abbrev pub is_live : Tenant → Bool
is_live t = not (is_some t.deleted_at)

-- The user's active profile in this tenant.
abbrev pub is_profile_of : Uuid → Uuid → DriverProfile → Bool
is_profile_of user tenant p = p.user_id == user && p.tenant_id == tenant && p.is_active

module _ {D : Type 0} where
  abbrev pub open_ride_of : Uuid → Ride D → Bool
  open_ride_of profile r = r.driver_profile_id == profile && is_open r.status

  abbrev pub ride_id_is : Uuid → Ride D → Bool
  ride_id_is id r = r.id == id

  abbrev pub begin_ride : Time → Ride D → Ride D
  begin_ride now r = record r { status = ongoing; started_at = now }

  abbrev pub write_rides : (List (Ride D) → List (Ride D)) → Action (Store D) (Unit {0})
  write_rides f = modify (λ s. record s { rides = f s.rides })

module _ (q : Queries) {D : Type 0} where
  open q use {find_first}

  -- The tenant of the request: `findUnique({ where: { id } })`, and not deleted.
  abbrev pub require_tenant : Exception → Uuid → Action (Store D) Tenant
  require_tenant refusal id = do
    found ← gets (λ s. find_first (λ t. t.id == id) s.tenants)
    tenant ← or_throw found refusal
    throw_if (not (is_live tenant)) refusal
    pure tenant

  abbrev pub require_driver : Uuid → Uuid → Action (Store D) DriverProfile
  require_driver user tenant = do
    found ← gets (λ s. find_first (is_profile_of user tenant) s.driver_profiles)
    or_throw found (not_found "Driver profile not found or inactive")
