-- ===== src/Auth/Drivers.antt =====
-- The tokens of drivers.
use typescript_version_taxi.Base.{
  ==_refl, Bool-cases, List, Memᴰ, Option-cases, String, arith, count, count-le-of, filter, find,
  find_sound, inl, inr, length, ok, refl, some, true, ◌==◌, ◌∙◌, ◌≡◌, ◌≤◌,
}
use typescript_version_taxi.Auth.{
  AuthConfig, LoginAnswer, LoginDto, access, active_profile_of, email_is,
  generate_unified_access_token, is_user, tenant_name,
}
use typescript_version_taxi.Auth.Access.{
  IsCurrent, driver_status, issued_status, issued_token, request_user,
}
use typescript_version_taxi.Auth.SignIn.{grant_driver, login_driver_v1, validate_user}
use typescript_version_taxi.Auth.Strategy.{authenticate, profile_id_is}
use typescript_version_taxi.Base.Members.{List-cases, mem-filter}
use typescript_version_taxi.Base.Rows.{find_unique, length-filter, mem-find}
use typescript_version_taxi.External.Cache.{CacheManager}
use typescript_version_taxi.External.Passwords.{Passwords}
use typescript_version_taxi.External.Queries.{Queries}
use typescript_version_taxi.External.Tokens.{Tokens}
use typescript_version_taxi.Payment.{non_empty}
use typescript_version_taxi.Schema.{DriverProfile, Store, Time, User, Uuid, driver}

module _ (tok : Tokens) (pw : Passwords) (cm : CacheManager) (q : Queries) (config : AuthConfig)
    {D : Type 0} (dto : LoginDto) (jti : Uuid) (now later : Time) (secret : String)
    (c : cm.Cache) where
  open tok use {Token}

  -- The answer is a token for an active profile of the user, and the strategy accepts it.
  pub record IsDriverToken (s t : Store D) (user : User) (answer : LoginAnswer Token) : Type 0 where
    pub p : DriverProfile
    pub name : String
    pub listed : Memᴰ p s.driver_profiles
    pub own : p.user_id ≡ user.id
    pub live : p.is_active ≡ true
    pub chosen : is_user dto.tenant_id p.tenant_id ≡ true
    pub result :
        answer
        ≡ access
            (issued_token tok config secret jti now user driver p.tenant_id name (some p.id))
            config.access_ttl
    pub accepted :
        authenticate tok cm q secret c later
          (issued_token tok config secret jti now user driver p.tenant_id name (some p.id))
          t
        ≡ (ok (request_user user driver p.tenant_id name (some p.id) jti), t)

  -- The keys of the profiles: the id, and the user.
  pub record UniqueProfiles (s : Store D) : Type 0 where
    pub ids : (id : Uuid) → count (profile_id_is id) s.driver_profiles ≤ 1
    pub users : (id : Uuid) → count (λ p. p.user_id == id) s.driver_profiles ≤ 1

  abbrev own_profiles : Store D → User → List DriverProfile
  own_profiles s user = filter (active_profile_of (some user.id)) s.driver_profiles

  driver_granted :
      (s t : Store D) (user : User) (p : DriverProfile) (answer : LoginAnswer Token)
      → UniqueProfiles s
      → non_empty config.jwt_secret ≡ some secret
      → IsCurrent tok cm q config secret c now later jti t user
      → t.driver_profiles ≡ s.driver_profiles
      → Memᴰ p (own_profiles s user)
      → is_user dto.tenant_id p.tenant_id ≡ true
      → (grant_driver tok pw config user jti now p s).0 ≡ ok answer
      → IsDriverToken s t user answer
  unfolding generate_unified_access_token
  driver_granted s t user p answer u known v same m chosen r =
      let (listed, holds) = mem-filter (active_profile_of (some user.id)) s.driver_profiles p m in
      let own : p.user_id ≡ user.id = ground (arith, holds) in
      let live : p.is_active ≡ true = ground (arith, holds) in
      elim (Option-cases (tenant_name s p.tenant_id)) [
        | inl e ↦ absurd (ground (arith, e, r))
        | inr (name, e) ↦
            let found =
              find_unique (profile_id_is p.id) p s.driver_profiles (u.ids p.id) listed
                (==_refl p.id) in
            record {
              p = p;
              name = name;
              listed = listed;
              own = own;
              live = live;
              chosen = chosen;
              result = ground (arith, e, known, r);
              accepted =
                  let status =
                    driver_status q t (request_user user driver p.tenant_id name (some p.id) jti)
                      user v.row v.is_active p refl refl (rw same found) live refl own in
                  issued_status tok cm q config secret c now later jti t user driver p.tenant_id
                    name (some p.id) v refl
                  ∙ ground (arith, status);
            }
      ]

  -- One user has no two profiles.
  one_profile : (s : Store D) (user : User) → UniqueProfiles s → length (own_profiles s user) ≤ 1
  one_profile s user u = omega (
    arith,
    length-filter (active_profile_of (some user.id)) s.driver_profiles,
    count-le-of (active_profile_of (some user.id)) (λ p. p.user_id == user.id) (λ x. ground arith)
        s.driver_profiles,
    u.users user.id,
  )

  -- Where ids of profiles are unique and a user has one profile, every successful `loginDriverV1`
  -- answers with a token, never with a selection: a token for an active profile of the user, in
  -- the tenant that was asked for if one was; until it expires it is accepted on every later
  -- database that has the same driver profiles, while the user is active, the audience is 'api'
  -- and nothing is revoked.
  pub login_driver_accepted :
      (s t : Store D) (user : User) (answer : LoginAnswer Token)
      → UniqueProfiles s
      → find (email_is dto.email) s.users ≡ some user
      → non_empty config.jwt_secret ≡ some secret
      → IsCurrent tok cm q config secret c now later jti t user
      → t.driver_profiles ≡ s.driver_profiles
      → (login_driver_v1 tok pw config dto jti now s).0 ≡ ok answer
      → IsDriverToken s t user answer
  unfolding login_driver_v1 validate_user
  login_driver_accepted s t user answer u row known v same r =
      elim (Bool-cases (pw.compare dto.password user.password_hash)) [
        | inr e ↦ absurd (ground (arith, row, e, r))
        | inl e ↦ elim (List-cases (own_profiles s user)) [
          | inl f ↦ absurd (ground (arith, row, e, f, r))
          | inr (p, ps, f) ↦
              let first : Memᴰ p (own_profiles s user) = rw f (Memᴰ.head refl) in
              elim (Option-cases dto.tenant_id) [
                | inr (tenant, g) ↦
                    elim (Option-cases (find (λ x. x.tenant_id == tenant) (own_profiles s user))) [
                      | inl h ↦ absurd (ground (arith, row, e, f, g, h, r))
                      | inr (n, h) ↦
                          driver_granted s t user n answer u known v same
                            (mem-find _ (own_profiles s user) h)
                            (rw g (find_sound _ (own_profiles s user) h))
                            (ground (arith, row, e, f, g, h, r))
                    ]
                | inl g ↦ elim (List-cases ps) [
                  | inl h ↦
                      driver_granted s t user p answer u known v same first (rw g refl)
                        (ground (arith, row, e, f, g, h, r))
                  | inr (n, rest, h) ↦ absurd (ground (arith, f, h, one_profile s user u))
                ]
              ]
        ]
      ]
