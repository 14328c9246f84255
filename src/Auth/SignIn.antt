-- ===== src/Auth/SignIn.antt =====
-- The sign-in itself (src/auth/auth.service.ts): by password, by a login ticket, by registration.
use typescript_version_taxi.Base.{
  Action, List, Option, String, [], conflict, filter, find, forbidden, gets, if◌then◌else◌, is_some,
  length, map, modify, none, or_throw, plain_error, pure, some, throw, throw_if, unauthorized, ℕ,
  ◌&&◌, ◌++◌, ◌==◌, ◌>>=◌, ◌>>◌, ◌∷◌,
}
use typescript_version_taxi.Auth.{
  AuthConfig, LoginAnswer, LoginDto, RegisterDto, access, active_profile_of, email_is,
  generate_unified_access_token, login_ticket, membership_choice, membership_of, profile_choice,
  read_ticket, register_payload, require_name, require_user, selection,
}
use typescript_version_taxi.External.Passwords.{Passwords}
use typescript_version_taxi.External.Queries.{Queries}
use typescript_version_taxi.External.Tokens.{Tokens}
use typescript_version_taxi.Payment.{non_empty}
use typescript_version_taxi.Schema.{
  DriverProfile, Membership, Store, Time, User, Uuid, active, admin, driver,
}

module _ (pw : Passwords) {D : Type 0} where
  open pw use {compare}

  -- The user with this email, if the password is the user's.
  unfoldable pub validate_user : String → String → Store D → Option User
  validate_user email pass s = elim (find (email_is email) s.users) [
    | none ↦ none
    | some u ↦ if compare pass u.password_hash then some u else none
  ]

module _ (tok : Tokens) (pw : Passwords) (config : AuthConfig) {D : Type 0} where
  open tok use {Token, sign}
  open pw use {hash}

  abbrev pub grant_driver :
      User → Uuid → Time → DriverProfile → Action (Store D) (LoginAnswer Token)
  grant_driver user jti now p = do
    name ← require_name p.tenant_id
    generate_unified_access_token tok config user.id user.email driver p.tenant_id name (some p.id)
        jti now

  -- Of several profiles without a choice: the selection; of one: that one.
  abbrev pub choose_profile :
      User → List DriverProfile → Uuid → Time → Action (Store D) (LoginAnswer Token)
  choose_profile user [] jti now = throw (unauthorized "Driver profile not found or inactive")
  choose_profile user (p ∷ []) jti now = grant_driver user jti now p
  choose_profile user (p ∷ r ∷ ps) jti now = do
    choices ← gets (λ s. map (profile_choice s) (p ∷ r ∷ ps))
    pure (selection choices (login_ticket tok config user.id now))

  -- `findMany` asks for no order: the rows come as the table has them.
  unfoldable pub login_driver_v1 : LoginDto → Uuid → Time → Action (Store D) (LoginAnswer Token)
  login_driver_v1 dto jti now = do
    valid ← gets (validate_user pw dto.email dto.password)
    user ← or_throw valid (unauthorized "Invalid credentials")
    profiles ← gets (λ s. filter (active_profile_of (some user.id)) s.driver_profiles)
    throw_if (length profiles == 0) (unauthorized "Driver profile not found or inactive")
    elim dto.tenant_id [
      | none ↦ choose_profile user profiles jti now
      | some tenant ↦ do
        p ←
            or_throw (find (λ p. p.tenant_id == tenant) profiles)
              (forbidden "Not a driver in the selected tenant")
        grant_driver user jti now p
    ]

  abbrev pub grant_member : User → Uuid → Time → Membership → Action (Store D) (LoginAnswer Token)
  grant_member user jti now m = do
    name ← require_name m.tenant_id
    generate_unified_access_token tok config user.id user.email m.role m.tenant_id name none jti now

  abbrev pub choose_membership :
      User → List Membership → Uuid → Time → Action (Store D) (LoginAnswer Token)
  choose_membership user [] jti now = throw (forbidden "No tenant memberships")
  choose_membership user (m ∷ []) jti now = grant_member user jti now m
  choose_membership user (m ∷ n ∷ ms) jti now = do
    choices ← gets (λ s. map (membership_choice s) (m ∷ n ∷ ms))
    pure (selection choices (login_ticket tok config user.id now))

  unfoldable pub login : LoginDto → Uuid → Time → Action (Store D) (LoginAnswer Token)
  login dto jti now = do
    valid ← gets (validate_user pw dto.email dto.password)
    user ← or_throw valid (unauthorized "Invalid credentials")
    memberships ← gets (λ s. filter (membership_of (some user.id)) s.memberships)
    throw_if (length memberships == 0) (forbidden "No tenant memberships")
    elim dto.tenant_id [
      | none ↦ choose_membership user memberships jti now
      | some tenant ↦ do
        m ←
            or_throw (find (λ m. m.tenant_id == tenant) memberships)
              (forbidden "User does not have access to this tenant")
        grant_member user jti now m
    ]

  -- Three inserts, not in a transaction; `id`s are the database's.
  unfoldable pub register :
      RegisterDto → Uuid → Uuid → ℕ → Time → Action (Store D) (LoginAnswer Token)
  register dto user_id tenant_id salt now = do
    existing ← gets (λ s. find (email_is dto.email) s.users)
    throw_if (is_some existing) (conflict "Email already registered")
    modify (λ s. record s {
      users =
          s.users
          ++ record {
            id = user_id;
            email = dto.email;
            password_hash = hash dto.password salt;
            status = active;
          }
            ∷ [];
    })
    modify (λ s. record s {
      tenants =
          s.tenants
          ++ record {
            id = tenant_id;
            name = dto.tenant_name;
            business_id = dto.business_id;
            surcharges = none;
            deleted_at = none;
          }
            ∷ [];
    })
    modify (λ s. record s {
      memberships =
          s.memberships ++ record { user_id = user_id; tenant_id = tenant_id; role = admin } ∷ [];
    })
    secret ←
        or_throw (non_empty config.jwt_secret) (plain_error "secretOrPrivateKey must have a value")
    pure (
        access
          (sign secret (register_payload config user_id dto.email tenant_id dto.tenant_name now))
          config.expires_in)

module _ (tok : Tokens) (q : Queries) (config : AuthConfig) {D : Type 0} where
  open tok use {Token}
  open q use {find_first}

  pub select_tenant_driver_v1 : Token → Uuid → Uuid → Time → Action (Store D) (LoginAnswer Token)
  select_tenant_driver_v1 ticket tenant jti now = do
    decoded ← read_ticket tok config ticket now
    found ← gets (λ s.
        find_first (λ p. active_profile_of decoded.sub p && p.tenant_id == tenant)
          s.driver_profiles)
    p ← or_throw found (forbidden "Not a driver in the selected tenant")
    user ← require_user p.user_id
    name ← require_name p.tenant_id
    generate_unified_access_token tok config user.id user.email driver p.tenant_id name (some p.id)
        jti now

  unfoldable pub select_tenant : Token → Uuid → Uuid → Time → Action (Store D) (LoginAnswer Token)
  select_tenant ticket tenant jti now = do
    decoded ← read_ticket tok config ticket now
    found ←
        gets (λ s.
          find_first (λ m. membership_of decoded.sub m && m.tenant_id == tenant) s.memberships)
    m ← or_throw found (forbidden "Not a member of this tenant")
    user ← require_user m.user_id
    name ← require_name m.tenant_id
    generate_unified_access_token tok config user.id user.email m.role m.tenant_id name none jti now
