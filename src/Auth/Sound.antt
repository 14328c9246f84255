-- ===== src/Auth/Sound.antt =====
-- What an accepted token proves of its user.
use typescript_version_taxi.Base.{
  Bool-cases, Exception, Memᴰ, Option-cases, Result-cases, String, arith, false, find, find_sound,
  inl, inr, ok, some, thrown, true, unauthorized, ◌&&◌, ◌==◌, ◌≡◌, ◌⊎◌,
}
use typescript_version_taxi.Auth.{user_id_is}
use typescript_version_taxi.Auth.Revocation.{is_token_revoked, is_user_revoked}
use typescript_version_taxi.Auth.Strategy.{
  RequestUser, authenticate, has_membership, is_active_user, profile_id_is, require_active_user,
  validate, validate_admin_manager_status, validate_driver_status, validate_payload_structure,
  validate_status,
}
use typescript_version_taxi.Base.Rows.{mem-find}
use typescript_version_taxi.External.Cache.{CacheManager}
use typescript_version_taxi.External.Queries.{Queries}
use typescript_version_taxi.External.Tokens.{JwtPayload, Tokens}
use typescript_version_taxi.Pricing.Options.{is_driver_role}
use typescript_version_taxi.Schema.{
  DriverProfile, Membership, Store, Time, User, Uuid, active, driver,
}

-- The user of the request is what the claims say.
pub record Claimed (payload : JwtPayload) (u : RequestUser) : Type 0 where
  pub user_id : payload.sub ≡ some u.user_id
  pub tenant_id : payload.tenant_id ≡ some u.tenant_id
  pub role : payload.role ≡ some u.role
  pub profile : payload.driver_profile_id ≡ u.driver_profile_id
  pub jti : payload.jti ≡ some u.jti

module _ (tok : Tokens) (cm : CacheManager) (q : Queries) {D : Type 0} where
  open tok use {Token, verify}
  open q use {find_first, find_first_mem, find_first_matches}

  claimed :
      (payload : JwtPayload) (s : Store D) (u : RequestUser)
      → validate_payload_structure payload s ≡ (ok u, s)
      → Claimed payload u
  unfolding validate_payload_structure
  claimed payload s u h = record {
    user_id = ground arith;
    tenant_id = ground arith;
    role = ground arith;
    profile = ground arith;
    jti = ground arith;
  }

  -- The user's right: an active profile of the tenant, or the membership with the role.
  pub data IsEntitled (s : Store D) (u : RequestUser) : Type 0 where
    as_driver :
        (p : DriverProfile)
        → u.role ≡ driver
        → u.driver_profile_id ≡ some p.id
        → Memᴰ p s.driver_profiles
        → p.is_active ≡ true
        → p.tenant_id ≡ u.tenant_id
        → p.user_id ≡ u.user_id
        → IsEntitled s u
    as_member :
        (m : Membership)
        → is_driver_role u.role ≡ false
        → Memᴰ m s.memberships
        → m.user_id ≡ u.user_id
        → m.tenant_id ≡ u.tenant_id
        → m.role ≡ u.role
        → IsEntitled s u

  pub record IsAuthenticated (secret : String) (c : cm.Cache) (now : Time) (token : Token)
      (s : Store D) (u : RequestUser) : Type 0 where
    pub payload : JwtPayload
    pub user : User
    pub signed : verify secret "api" token now ≡ some payload
    pub claims : Claimed payload u
    pub not_revoked : is_token_revoked cm u.jti now c ≡ false
    pub user_not_revoked : is_user_revoked cm u.user_id payload.iat now c ≡ false
    pub row : find (user_id_is u.user_id) s.users ≡ some user
    pub is_active : user.status ≡ active
    pub entitled : IsEntitled s u

  active_user-cases :
      (id : Uuid) (s : Store D)
      → ((e : Exception) × (require_active_user id s ≡ (thrown e, s)))
        ⊎ ((user : User) × (find (user_id_is id) s.users ≡ some user)
            × (user.status ≡ active)
            × (require_active_user id s ≡ (ok tt, s)))
  active_user-cases id s = elim (Option-cases (find (user_id_is id) s.users)) [
    | inl e ↦ inl (unauthorized "User not found", ground (arith, e))
    | inr (user, e) ↦ elim (Bool-cases (is_active_user user.status)) [
      | inl on ↦ inr (user, e, ground (arith, on), ground (arith, e, on))
      | inr off ↦ inl (unauthorized "User is not active", ground (arith, e, off))
    ]
  ]

  member-IsEntitled :
      (u : RequestUser) (s : Store D) (user : User)
      → is_driver_role u.role ≡ false
      → require_active_user u.user_id s ≡ (ok tt, s)
      → (validate_status q u s).0 ≡ ok tt
      → IsEntitled s u
  unfolding validate_admin_manager_status
  member-IsEntitled u s user h live r =
      elim (Option-cases (find_first (has_membership u.user_id u.role u.tenant_id) s.memberships)) [
        | inl e ↦ absurd (ground (arith, h, live, e, r))
        | inr (m, e) ↦
            let fits = find_first_matches _ s.memberships m e in
            as_member m h (find_first_mem _ s.memberships m e) (ground (arith, fits))
              (ground (arith, fits)) (ground (arith, fits))
      ]

  driver-IsEntitled :
      (u : RequestUser) (s : Store D)
      → is_driver_role u.role ≡ true
      → require_active_user u.user_id s ≡ (ok tt, s)
      → (validate_status q u s).0 ≡ ok tt
      → IsEntitled s u
  unfolding validate_driver_status
  driver-IsEntitled u s h live r = elim (Option-cases u.driver_profile_id) [
    | inl e ↦ absurd (ground (arith, h, live, e, r))
    | inr (id, e) ↦ elim (Option-cases (find (profile_id_is id) s.driver_profiles)) [
      | inl f ↦ absurd (ground (arith, h, live, e, f, r))
      | inr (p, f) ↦
          elim (Bool-cases (p.is_active && p.tenant_id == u.tenant_id && p.user_id == u.user_id)) [
            | inr g ↦ absurd (ground (arith, h, live, e, f, g, r))
            | inl g ↦
                as_driver p (ground (arith, h))
                  (ground (arith, e, find_sound (profile_id_is id) s.driver_profiles f))
                  (mem-find (profile_id_is id) s.driver_profiles f) (ground (arith, g))
                  (ground (arith, g)) (ground (arith, g))
          ]
    ]
  ]

  structure_keeps : (c : JwtPayload) (s : Store D) → (validate_payload_structure c s).1 ≡ s
  unfolding validate_payload_structure
  structure_keeps c s = ground arith

  status_keeps : (u : RequestUser) (s : Store D) → (validate_status q u s).1 ≡ s
  unfolding validate_driver_status validate_admin_manager_status
  status_keeps u s = ground arith

  status-IsEntitled :
      (u : RequestUser) (s : Store D)
      → (validate_status q u s).0 ≡ ok tt
      → (user : User) × (find (user_id_is u.user_id) s.users ≡ some user)
        × (user.status ≡ active)
        × IsEntitled s u
  unfolding validate_driver_status validate_admin_manager_status
  status-IsEntitled u s r = elim (active_user-cases u.user_id s) [
    | inl (e, h) ↦ absurd (ground (arith, h, r))
    | inr (user, row, on, live) ↦ elim (Bool-cases (is_driver_role u.role)) [
      | inl h ↦ (user, row, on, driver-IsEntitled u s h live r)
      | inr h ↦ (user, row, on, member-IsEntitled u s user h live r)
    ]
  ]

  validated :
      (secret : String) (c : cm.Cache) (now : Time) (token : Token) (s : Store D)
      (u v : RequestUser) (payload : JwtPayload)
      → verify secret "api" token now ≡ some payload
      → validate_payload_structure payload s ≡ (ok v, s)
      → (validate cm q c now payload s).0 ≡ ok u
      → IsAuthenticated secret c now token s u
  unfolding validate
  validated secret c now token s u v payload signed shape r =
      elim (Bool-cases (is_token_revoked cm v.jti now c)) [
        | inl e ↦ absurd (ground (arith, shape, e, r))
        | inr e ↦ elim (Bool-cases (is_user_revoked cm v.user_id payload.iat now c)) [
          | inl f ↦ absurd (ground (arith, shape, e, f, r))
          | inr f ↦ elim (Result-cases (validate_status q v s).0) [
            | inr (d, g) ↦ absurd (ground (arith, shape, e, f, g, r))
            | inl (_, g) ↦
                let same : u ≡ v = ground (arith, shape, e, f, g, r) in
                let (user, row, on, entitled) = status-IsEntitled v s g in
                rw same (record {
                  payload = payload;
                  user = user;
                  signed = signed;
                  claims = claimed payload s v shape;
                  not_revoked = e;
                  user_not_revoked = f;
                  row = row;
                  is_active = on;
                  entitled = entitled;
                })
          ]
        ]
      ]

  -- A request that passes carries a token with a valid signature that is not revoked; its user is
  -- the one of the claims, is active, and has, at that moment, the active profile in the claimed
  -- tenant (as a driver) or a membership of that user with the claimed role and tenant.
  pub authenticate_sound :
      (secret : String) (c : cm.Cache) (now : Time) (token : Token) (s : Store D) (u : RequestUser)
      → (authenticate tok cm q secret c now token s).0 ≡ ok u
      → IsAuthenticated secret c now token s u
  unfolding authenticate validate
  authenticate_sound secret c now token s u r =
      elim (Option-cases (verify secret "api" token now)) [
        | inl e ↦ absurd (ground (arith, e, r))
        | inr (payload, e) ↦ elim (Result-cases (validate_payload_structure payload s).0) [
          | inr (d, f) ↦ absurd (ground (arith, e, f, r))
          | inl (v, f) ↦
              let shape : validate_payload_structure payload s ≡ (ok v, s) =
                λ i. (f i, structure_keeps payload s i) in
              validated secret c now token s u v payload e shape (ground (arith, e, r))
        ]
      ]
