-- ===== src/Auth/Access.antt =====
-- Which access tokens the strategy accepts.
use typescript_version_taxi.Base.{
  ==_refl, All-mem, Memᴰ, Option, Option-cases, String, ap, arith, false, find, inl, inr, ok, pure,
  some, thrown, true, ◌+◌, ◌/◌, ◌<◌, ◌>>◌, ◌∙◌, ◌≡◌,
}
use typescript_version_taxi.Auth.{AuthConfig, access_payload, non_empty_or, user_id_is}
use typescript_version_taxi.Auth.Revocation.{is_token_revoked, is_user_revoked}
use typescript_version_taxi.Auth.Strategy.{
  RequestUser, authenticate, has_membership, has_profile, malformed, profile_id_is,
  require_active_user, validate, validate_admin_manager_status, validate_driver_status,
  validate_payload_structure, validate_status,
}
use typescript_version_taxi.External.Cache.{CacheManager}
use typescript_version_taxi.External.Queries.{Queries}
use typescript_version_taxi.External.Tokens.{Tokens}
use typescript_version_taxi.Numbering.Unique.{own}
use typescript_version_taxi.Payment.{non_empty}
use typescript_version_taxi.Pricing.Options.{is_driver_role}
use typescript_version_taxi.Schema.{
  DriverProfile, Membership, Role, Store, Time, User, Uuid, active, driver,
}

-- The user of the request that an access token stands for.
abbrev pub request_user : User → Role → Uuid → String → Option Uuid → Uuid → RequestUser
request_user user role tenant name profile jti = record {
  user_id = user.id;
  email = user.email;
  role = role;
  tenant_id = tenant;
  tenant_name = some name;
  driver_profile_id = profile;
  jti = jti;
}

module _ (tok : Tokens) (config : AuthConfig) where
  open tok use {Token, sign}

  abbrev pub issued_token : String → Uuid → Time → User → Role → Uuid → String → Option Uuid → Token
  issued_token secret jti now user role tenant name profile =
      sign secret (access_payload config user.id user.email role tenant name profile jti now)

module _ (tok : Tokens) (cm : CacheManager) (q : Queries) (config : AuthConfig) {D : Type 0}
    (secret : String) (c : cm.Cache) (now later : Time) (jti : Uuid) where
  open tok use {Token, sign, verify, verify-sign, verify_signed}
  open q use {find_first, find_first_mem, find_first_matches, find_first_none}

  -- The token is read within its time to live, its user is active, and neither is revoked.
  pub record IsCurrent (s : Store D) (user : User) : Type 0 where
    pub for_api : non_empty_or config.jwt_audience "api" ≡ "api"
    pub in_time : later / 1000 < now / 1000 + config.access_ttl
    pub row : find (user_id_is user.id) s.users ≡ some user
    pub is_active : user.status ≡ active
    pub has_email : non_empty (some user.email) ≡ some user.email
    pub not_revoked : is_token_revoked cm jti later c ≡ false
    pub user_not_revoked : is_user_revoked cm user.id (now / 1000) later c ≡ false

  module _ (s : Store D) (user : User) (role : Role) (tenant : Uuid) (name : String)
      (profile : Option Uuid) where
    authenticate_issued :
        IsCurrent s user
        → authenticate tok cm q secret c later
            (issued_token tok config secret jti now user role tenant name profile)
            s
          ≡ validate cm q c later
              (access_payload config user.id user.email role tenant name profile jti now)
              s
    unfolding authenticate
    authenticate_issued v =
        let payload = access_payload config user.id user.email role tenant name profile jti now in
        let seen = verify-sign secret "api" payload later (ap some v.for_api) v.in_time in
        ground (arith, seen)

    issued_structure :
        has_profile role profile ≡ true
        → non_empty (some user.email) ≡ some user.email
        → validate_payload_structure
            (access_payload config user.id user.email role tenant name profile jti now)
            s
          ≡ (ok (request_user user role tenant name profile jti), s)
    unfolding validate_payload_structure
    issued_structure h e = ground (arith, h, e)

    issued_malformed :
        has_profile role profile ≡ false
        → non_empty (some user.email) ≡ some user.email
        → validate_payload_structure
            (access_payload config user.id user.email role tenant name profile jti now)
            s
          ≡ (thrown malformed, s)
    unfolding validate_payload_structure
    issued_malformed h e = ground (arith, h, e)

    -- What is left is the state of the user's rights.
    pub issued_status :
        IsCurrent s user
        → has_profile role profile ≡ true
        → authenticate tok cm q secret c later
            (issued_token tok config secret jti now user role tenant name profile)
            s
          ≡ (validate_status q (request_user user role tenant name profile jti)
                >> pure (request_user user role tenant name profile jti))
              s
    unfolding validate
    issued_status v h =
        authenticate_issued v
        ∙ ground (arith, issued_structure h v.has_email, v.not_revoked, v.user_not_revoked)

    -- A driver's token without a profile is refused.
    pub issued_refused :
        IsCurrent s user
        → has_profile role profile ≡ false
        → authenticate tok cm q secret c later
            (issued_token tok config secret jti now user role tenant name profile)
            s
          ≡ (thrown malformed, s)
    unfolding validate
    issued_refused v h = authenticate_issued v ∙ ground (arith, issued_malformed h v.has_email)

module _ (q : Queries) {D : Type 0} (s : Store D) (u : RequestUser) (user : User)
    (row : find (user_id_is u.user_id) s.users ≡ some user) (on : user.status ≡ active) where
  open q use {find_first, find_first_none}

  active_status : require_active_user u.user_id s ≡ (ok tt, s)
  active_status = ground (arith, row, on)

  -- An admin or manager who is a member with that role.
  pub member_status :
      (m : Membership)
      → is_driver_role u.role ≡ false
      → Memᴰ m s.memberships
      → has_membership u.user_id u.role u.tenant_id m ≡ true
      → validate_status q u s ≡ (ok tt, s)
  unfolding validate_admin_manager_status
  member_status m h listed holds =
      elim (Option-cases (find_first (has_membership u.user_id u.role u.tenant_id) s.memberships)) [
        | inl e ↦
            absurd (ground (arith, holds, All-mem _ listed (find_first_none _ s.memberships e)))
        | inr (n, e) ↦ ground (arith, h, e, active_status)
      ]

  -- A driver with an active profile of that tenant.
  pub driver_status :
      (p : DriverProfile)
      → u.role ≡ driver
      → u.driver_profile_id ≡ some p.id
      → find (profile_id_is p.id) s.driver_profiles ≡ some p
      → p.is_active ≡ true
      → p.tenant_id ≡ u.tenant_id
      → p.user_id ≡ u.user_id
      → validate_status q u s ≡ (ok tt, s)
  unfolding validate_driver_status
  driver_status p h e found live home own =
      rw (h, e)
        (ground
          (arith, found, live, home, own, active_status, ==_refl u.tenant_id, ==_refl u.user_id))
