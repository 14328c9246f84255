-- ===== src/Auth/Login.antt =====
-- The tokens of admins and managers.
use typescript_version_taxi.Base.{
  ==_refl, Bool-cases, Memᴰ, String, ap, arith, find, if◌then◌else◌, inl, inr, none, ok, refl, some,
  thrown, true, ℕ, ◌∙◌, ◌≡◌,
}
use typescript_version_taxi.Auth.{AuthConfig, LoginDto, access, email_is, is_user}
use typescript_version_taxi.Auth.Access.{
  IsCurrent, issued_refused, issued_status, issued_token, member_status, request_user,
}
use typescript_version_taxi.Auth.Members.{login-IsMemberToken}
use typescript_version_taxi.Auth.SignIn.{login}
use typescript_version_taxi.Auth.Strategy.{authenticate, has_membership, malformed, same_role}
use typescript_version_taxi.External.Cache.{CacheManager}
use typescript_version_taxi.External.Passwords.{Passwords}
use typescript_version_taxi.External.Queries.{Queries}
use typescript_version_taxi.External.Tokens.{Tokens}
use typescript_version_taxi.Payment.{non_empty}
use typescript_version_taxi.Pricing.Options.{is_driver_role}
use typescript_version_taxi.Schema.{
  Membership, Role, Store, Time, User, Uuid, admin, driver, manager,
}

same_role_refl : (role : Role) → same_role role role ≡ true
same_role_refl admin = refl
same_role_refl driver = refl
same_role_refl manager = refl

module _ (tok : Tokens) (pw : Passwords) (cm : CacheManager) (q : Queries) (config : AuthConfig)
    {D : Type 0} where
  open tok use {Token}

  -- A token for a membership stands for its user, unless the member is a driver.
  pub member_token :
      (jti : Uuid) (now later : Time) (s : Store D) (user : User) (secret : String) (c : cm.Cache)
      (m : Membership) (name : String)
      → Memᴰ m s.memberships
      → m.user_id ≡ user.id
      → IsCurrent tok cm q config secret c now later jti s user
      → authenticate tok cm q secret c later
          (issued_token tok config secret jti now user m.role m.tenant_id name none)
          s
        ≡ (
          if is_driver_role m.role
              then thrown malformed
              else ok (request_user user m.role m.tenant_id name none jti),
          s,
        )
  member_token jti now later s user secret c m name listed own v =
      elim (Bool-cases (is_driver_role m.role)) [
        | inl e ↦ rw e (
            issued_refused tok cm q config secret c now later jti s user m.role m.tenant_id name
              none v (rw e refl))
        | inr e ↦
            let u = request_user user m.role m.tenant_id name none jti in
            let has : has_membership user.id m.role m.tenant_id m ≡ true =
              ground (arith, own, ==_refl user.id, ==_refl m.tenant_id, same_role_refl m.role) in
            let status = member_status q s u user v.row v.is_active m e listed has in
            rw e (
              issued_status tok cm q config secret c now later jti s user m.role m.tenant_id name
                none v (rw e refl)
              ∙ ground (arith, status))
      ]

  -- The token that `login` returns is for a membership of the user, in the tenant that was asked
  -- for if one was; until it expires, while the user is active, the audience is 'api' and nothing
  -- is revoked, each request with it runs as that user with the role and tenant of the membership,
  -- except that a member with the role of a driver is refused.
  pub login_token_accepted :
      (dto : LoginDto) (jti : Uuid) (now later : Time) (s : Store D) (user : User) (secret : String)
      (c : cm.Cache) (token : Token) (ttl : ℕ)
      → find (email_is dto.email) s.users ≡ some user
      → non_empty config.jwt_secret ≡ some secret
      → IsCurrent tok cm q config secret c now later jti s user
      → (login tok pw config dto jti now s).0 ≡ ok (access token ttl)
      → (m : Membership) × (name : String) × Memᴰ m s.memberships
        × (m.user_id ≡ user.id)
        × (is_user dto.tenant_id m.tenant_id ≡ true)
        × (authenticate tok cm q secret c later token s ≡ (
          if is_driver_role m.role
              then thrown malformed
              else ok (request_user user m.role m.tenant_id name none jti),
          s,
        ))
  login_token_accepted dto jti now later s user secret c token ttl row known v r =
      let (u, is_u, g) = login-IsMemberToken tok pw config dto jti now s token ttl r in
      let same : u ≡ user = ground (arith, is_u.row, row) in
      let same_secret : g.secret ≡ secret = ground (arith, known, g.has_secret) in
      let own : g.m.user_id ≡ user.id = g.own ∙ ap (λ (x : User). x.id) same in
      let issued : token
          ≡ issued_token tok config secret jti now user g.m.role g.m.tenant_id g.name none =
        g.issued ∙ rw (same, same_secret) refl in
      (
        g.m,
        g.name,
        g.listed,
        own,
        g.chosen,
        ap (λ t. authenticate tok cm q secret c later t s) issued
            ∙ member_token jti now later s user secret c g.m g.name g.listed own v,
      )
