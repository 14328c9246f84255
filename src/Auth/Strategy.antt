-- ===== src/Auth/Strategy.antt =====
-- What an access token must pass at each request (src/auth/strategies/jwt-v1-strategy.ts).
use typescript_version_taxi.Base.{
  Action, Bool, Exception, Option, String, false, find, gets, if◌then◌else◌, is_some, none, not, ok,
  or_else, or_throw, pure, some, some_eq, str_eq, throw, throw_if, thrown, true, unauthorized, ℕ,
  ◌&&◌, ◌==◌, ◌>>=◌, ◌>>◌, ◌||◌,
}
use typescript_version_taxi.Auth.{user_id_is}
use typescript_version_taxi.Auth.Revocation.{
  is_token_revoked, is_user_revoked, revoke_all_user_tokens, revoke_token,
}
use typescript_version_taxi.External.Cache.{CacheManager}
use typescript_version_taxi.External.Queries.{Queries}
use typescript_version_taxi.External.Tokens.{JwtPayload, Tokens}
use typescript_version_taxi.Payment.{non_empty}
use typescript_version_taxi.Pricing.Options.{is_driver_role}
use typescript_version_taxi.Schema.{
  DriverProfile, Membership, Role, Store, Time, UserStatus, Uuid, active, admin, driver, manager,
  offline,
}

-- `request.user`; it has no `exp`.
pub record RequestUser : Type 0 where
  pub user_id : Uuid
  pub email : String
  pub role : Role
  pub tenant_id : Uuid
  pub tenant_name : Option String
  pub driver_profile_id : Option Uuid
  pub jti : Uuid

abbrev pub same_role : Role → Role → Bool
same_role admin admin = true
same_role driver driver = true
same_role manager manager = true
same_role _ _ = false

abbrev pub is_active_user : UserStatus → Bool
is_active_user active = true
is_active_user offline = false

abbrev pub has_profile : Role → Option Uuid → Bool
has_profile role profile = not (is_driver_role role) || is_some profile

abbrev pub profile_id_is : Uuid → DriverProfile → Bool
profile_id_is id p = p.id == id

abbrev pub has_membership : Uuid → Role → Uuid → Membership → Bool
has_membership user role tenant m =
    m.user_id == user && m.tenant_id == tenant && same_role m.role role

abbrev pub malformed : Exception
malformed = unauthorized "Invalid token structure"

module _ {D : Type 0} where
  -- `validatePayloadStructure`, with the claims that it has found to be there.
  unfoldable pub validate_payload_structure : JwtPayload → Action (Store D) RequestUser
  validate_payload_structure c = do
    throw_if (not (str_eq (or_else c.typ "") "access")) malformed
    throw_if (not (some_eq c.ver 1)) malformed
    role ← or_throw c.role malformed
    user ← or_throw c.sub malformed
    email ← or_throw (non_empty c.email) malformed
    tenant ← or_throw c.tenant_id malformed
    jti ← or_throw c.jti malformed
    throw_if (not (has_profile role c.driver_profile_id)) malformed
    pure (record {
      user_id = user;
      email = email;
      role = role;
      tenant_id = tenant;
      tenant_name = c.tenant_name;
      driver_profile_id = c.driver_profile_id;
      jti = jti;
    })

  -- Every error in the checks is logged and thrown anew as this one.
  abbrev pub rethrow_as : {A : Type 0} → Exception → Action (Store D) A → Action (Store D) A
  rethrow_as e m s = let (r, s') = m s in elim r [ ok a ↦ (ok a, s') | thrown d ↦ (thrown e, s') ]

  abbrev pub require_active_user : Uuid → Action (Store D) (Unit {0})
  require_active_user id = do
    found ← gets (λ s. find (user_id_is id) s.users)
    user ← or_throw found (unauthorized "User not found")
    throw_if (not (is_active_user user.status)) (unauthorized "User is not active")

  unfoldable pub validate_driver_status : Uuid → Uuid → Uuid → Action (Store D) (Unit {0})
  validate_driver_status user profile_id tenant = do
    require_active_user user
    found ← gets (λ s. find (profile_id_is profile_id) s.driver_profiles)
    p ← or_throw found (unauthorized "Driver profile not found")
    throw_if (not p.is_active) (unauthorized "Driver profile is not active")
    throw_if (not (p.tenant_id == tenant)) (unauthorized "Driver profile tenant mismatch")
    throw_if (not (p.user_id == user)) (unauthorized "Driver profile user mismatch")

module _ (q : Queries) {D : Type 0} where
  open q use {find_first}

  unfoldable pub validate_admin_manager_status : Uuid → Role → Uuid → Action (Store D) (Unit {0})
  validate_admin_manager_status user role tenant = do
    require_active_user user
    found ← gets (λ s. find_first (has_membership user role tenant) s.memberships)
    throw_if (not (is_some found)) (unauthorized "User membership not found")

  abbrev pub validate_status : RequestUser → Action (Store D) (Unit {0})
  validate_status u =
      if is_driver_role u.role
      then elim u.driver_profile_id [
        | none ↦ throw malformed
        | some profile ↦
            rethrow_as (unauthorized "Error validating driver status")
              (validate_driver_status u.user_id profile u.tenant_id)
      ]
      else rethrow_as (unauthorized "Error validating admin/manager status")
          (validate_admin_manager_status u.user_id u.role u.tenant_id)

module _ (cm : CacheManager) (q : Queries) {D : Type 0} where
  open cm use {Cache}

  unfoldable pub validate : Cache → Time → JwtPayload → Action (Store D) RequestUser
  validate c now payload = do
    user ← validate_payload_structure payload
    throw_if (is_token_revoked cm user.jti now c) (unauthorized "Token has been revoked")
    throw_if (is_user_revoked cm user.user_id payload.iat now c)
        (unauthorized "User tokens have been revoked")
    validate_status q user
    pure user

module _ (tok : Tokens) (cm : CacheManager) (q : Queries) {D : Type 0} where
  open tok use {Token, verify}
  open cm use {Cache}

  -- The strategy's options: the secret, the audience 'api', expiration not ignored.
  unfoldable pub authenticate : String → Cache → Time → Token → Action (Store D) RequestUser
  authenticate secret c now token = do
    payload ← or_throw (verify secret "api" token now) (unauthorized "Unauthorized")
    validate cm q c now payload

module _ (cm : CacheManager) where
  open cm use {Cache}

  -- `logoutDriver` takes `jti` and `exp` from the user of the request, which has no `exp`.
  pub logout_driver : RequestUser → Time → Cache → Cache
  logout_driver u now c = revoke_token cm u.jti none now c

  pub logout_all_devices : ℕ → RequestUser → Time → Cache → Cache
  logout_all_devices ttl_hours u now c = revoke_all_user_tokens cm ttl_hours u.user_id now c
