-- ===== src/Auth/Members.antt =====
-- What the sign-in of admins, managers and drivers gives.
use typescript_version_taxi.Base.{
  Bool-cases, List, Memᴰ, Option-cases, String, arith, filter, find, find_sound, inl, inr, none, ok,
  refl, some, true, ℕ, ◌==◌, ◌≡◌, ◌⊎◌,
}
use typescript_version_taxi.Auth.{
  AuthConfig, LoginDto, access, email_is, generate_unified_access_token, is_user, membership_of,
  tenant_name,
}
use typescript_version_taxi.Auth.Access.{issued_token}
use typescript_version_taxi.Auth.SignIn.{grant_member, login, validate_user}
use typescript_version_taxi.Base.Members.{List-cases, mem-filter}
use typescript_version_taxi.Base.Rows.{mem-find}
use typescript_version_taxi.External.Passwords.{Passwords}
use typescript_version_taxi.External.Tokens.{Tokens}
use typescript_version_taxi.Payment.{non_empty}
use typescript_version_taxi.Schema.{Membership, Store, Time, User, Uuid}

module _ (tok : Tokens) (pw : Passwords) (config : AuthConfig) {D : Type 0} (dto : LoginDto)
    (jti : Uuid) (now : Time) where
  open tok use {Token}
  open pw use {compare}

  -- The email and the password are the user's.
  pub record IsUser (s : Store D) (user : User) : Type 0 where
    pub row : find (email_is dto.email) s.users ≡ some user
    pub password : compare dto.password user.password_hash ≡ true

  pub validate_user-cases :
      (s : Store D)
      → (validate_user pw dto.email dto.password s ≡ none)
        ⊎ ((user : User) × IsUser s user × (validate_user pw dto.email dto.password s ≡ some user))
  unfolding validate_user
  validate_user-cases s = elim (Option-cases (find (email_is dto.email) s.users)) [
    | inl e ↦ inl (ground (arith, e))
    | inr (u, e) ↦ elim (Bool-cases (compare dto.password u.password_hash)) [
      | inl k ↦ inr (u, record { row = e; password = k }, ground (arith, e, k))
      | inr k ↦ inl (ground (arith, e, k))
    ]
  ]

  -- The answer is a token for a membership of the user.
  pub record IsMemberToken (s : Store D) (user : User) (token : Token) (ttl : ℕ) : Type 0 where
    pub m : Membership
    pub secret : String
    pub name : String
    pub listed : Memᴰ m s.memberships
    pub own : m.user_id ≡ user.id
    pub chosen : is_user dto.tenant_id m.tenant_id ≡ true
    pub has_secret : non_empty config.jwt_secret ≡ some secret
    pub lasts : ttl ≡ config.access_ttl
    pub issued : token ≡ issued_token tok config secret jti now user m.role m.tenant_id name none

  granted :
      (s : Store D) (user : User) (m : Membership) (token : Token) (ttl : ℕ)
      → Memᴰ m s.memberships
      → m.user_id ≡ user.id
      → is_user dto.tenant_id m.tenant_id ≡ true
      → (grant_member tok pw config user jti now m s).0 ≡ ok (access token ttl)
      → IsMemberToken s user token ttl
  unfolding generate_unified_access_token
  granted s user m token ttl listed own chosen r = elim (Option-cases (tenant_name s m.tenant_id)) [
    | inl e ↦ absurd (ground (arith, e, r))
    | inr (name, e) ↦ elim (Option-cases (non_empty config.jwt_secret)) [
      | inl f ↦ absurd (ground (arith, e, f, r))
      | inr (secret, f) ↦ record {
        m = m;
        secret = secret;
        name = name;
        listed = listed;
        own = own;
        chosen = chosen;
        has_secret = f;
        lasts = ground (arith, e, f, r);
        issued = ground (arith, e, f, r);
      }
    ]
  ]

  abbrev own_memberships : Store D → User → List Membership
  own_memberships s user = filter (membership_of (some user.id)) s.memberships

  granted_of :
      (s : Store D) (user : User) (m : Membership) (token : Token) (ttl : ℕ)
      → Memᴰ m (own_memberships s user)
      → is_user dto.tenant_id m.tenant_id ≡ true
      → (grant_member tok pw config user jti now m s).0 ≡ ok (access token ttl)
      → IsMemberToken s user token ttl
  granted_of s user m token ttl member chosen r =
      let (listed, own) = mem-filter (membership_of (some user.id)) s.memberships m member in
      granted s user m token ttl listed (ground (arith, own)) chosen r

  pub login-IsMemberToken :
      (s : Store D) (token : Token) (ttl : ℕ)
      → (login tok pw config dto jti now s).0 ≡ ok (access token ttl)
      → (user : User) × IsUser s user × IsMemberToken s user token ttl
  unfolding login
  login-IsMemberToken s token ttl r = elim (validate_user-cases s) [
    | inl e ↦ absurd (ground (arith, e, r))
    | inr (user, v, e) ↦ elim (List-cases (own_memberships s user)) [
      | inl f ↦ absurd (ground (arith, e, f, r))
      | inr (m, ns, f) ↦
          let first : Memᴰ m (own_memberships s user) = rw f (Memᴰ.head refl) in
          elim (Option-cases dto.tenant_id) [
            | inr (tenant, g) ↦
                elim (Option-cases (find (λ x. x.tenant_id == tenant) (own_memberships s user))) [
                  | inl h ↦ absurd (ground (arith, e, f, g, h, r))
                  | inr (n, h) ↦ (
                    user,
                    v,
                    granted_of s user n token ttl (mem-find _ (own_memberships s user) h)
                        (rw g (find_sound _ (own_memberships s user) h))
                        (ground (arith, e, f, g, h, r)),
                  )
                ]
            | inl g ↦ elim (List-cases ns) [
              | inl h ↦ (
                user,
                v,
                granted_of s user m token ttl first (rw g refl) (ground (arith, e, f, g, h, r)),
              )
              | inr (n, rest, h) ↦ absurd (ground (arith, e, f, g, h, r))
            ]
          ]
    ]
  ]
