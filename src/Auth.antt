-- ===== src/Auth.antt =====
-- Signing in (src/auth/auth.service.ts): passwords, login tickets, access tokens, registration.
pub mod SignIn
pub mod Revocation
pub mod Strategy
pub mod Sound
pub mod Revoked
pub mod Tickets
pub mod Access
pub mod Members
pub mod Login
pub mod Drivers
pub mod Registration
use typescript_version_taxi.Base.{
  Action, Bool, List, Option, String, find, gets, none, not, or_else, or_throw, plain_error,
  prisma_error, pure, some, str_eq, throw_if, true, unauthorized, ℕ, ◌&&◌, ◌+◌, ◌/◌, ◌==◌, ◌>>=◌,
  ◌>>◌,
}
use typescript_version_taxi.External.Tokens.{JwtPayload, Tokens}
use typescript_version_taxi.Payment.{non_empty}
use typescript_version_taxi.Schema.{
  DriverProfile, Membership, Role, Store, Tenant, Time, User, Uuid, admin,
}

-- What the services read of the environment; a time to live is in seconds, as it is parsed.
pub record AuthConfig : Type 0 where
  pub jwt_secret : Option String
  pub ticket_secret : String
  pub access_ttl : ℕ
  pub ticket_ttl : ℕ
  pub jwt_audience : Option String
  pub jwt_issuer : Option String
  -- `JWT_EXPIRES_IN ?? '3600s'`
  pub expires_in : ℕ

-- Admins may name a tenant too.
pub record LoginDto : Type 0 where
  pub email : String
  pub password : String
  pub tenant_id : Option Uuid

pub record RegisterDto : Type 0 where
  pub email : String
  pub password : String
  pub tenant_name : String
  pub business_id : String

-- A line of the selection; drivers get no role. The name is joined from the tenant.
pub record TenantChoice : Type 0 where
  pub tenant_id : Uuid
  pub tenant_name : Option String
  pub role : Option Role

-- `token_type` is always 'Bearer'; the copies of the user, the tenant and the role that `selectTenant`
-- adds are left out, and the text of the environment that two answers name as `expires_in`.
pub data LoginAnswer (Token : Type 0) : Type 0 where
  selection : List TenantChoice → Token → LoginAnswer Token
  access : Token → ℕ → LoginAnswer Token

-- `text || default`
abbrev pub non_empty_or : Option String → String → String
non_empty_or text default = or_else (non_empty text) default

abbrev pub email_is : String → User → Bool
email_is email u = str_eq u.email email

abbrev pub user_id_is : Uuid → User → Bool
user_id_is id u = u.id == id

abbrev pub tenant_id_is : Uuid → Tenant → Bool
tenant_id_is id t = t.id == id

-- `where: { userId }`; a claim that is missing is no condition.
abbrev pub is_user : Option Uuid → Uuid → Bool
is_user none id = true
is_user (some user) id = id == user

-- `where: { userId, status: 'ACTIVE' }`
abbrev pub active_profile_of : Option Uuid → DriverProfile → Bool
active_profile_of user p = is_user user p.user_id && p.is_active

abbrev pub membership_of : Option Uuid → Membership → Bool
membership_of user m = is_user user m.user_id

abbrev pub access_payload :
    AuthConfig → Uuid → String → Role → Uuid → String → Option Uuid → Uuid → Time → JwtPayload
access_payload config user email role tenant tenant_name profile jti now = record {
  sub = some user;
  email = some email;
  tenant_id = some tenant;
  tenant_name = some tenant_name;
  driver_profile_id = profile;
  role = some role;
  typ = some "access";
  aud = some (non_empty_or config.jwt_audience "api");
  iss = some (non_empty_or config.jwt_issuer "taxi-meter-api");
  iat = now / 1000;
  exp = now / 1000 + config.access_ttl;
  jti = some jti;
  ver = some 1;
  purpose = none;
}

-- `iat`, `exp` and `aud` come from the options of `signAsync`.
abbrev pub ticket_payload : AuthConfig → Uuid → Time → JwtPayload
ticket_payload config user now = record {
  sub = some user;
  email = none;
  tenant_id = none;
  tenant_name = none;
  driver_profile_id = none;
  role = none;
  typ = none;
  aud = some "tenant-selection";
  iss = none;
  iat = now / 1000;
  exp = now / 1000 + config.ticket_ttl;
  jti = none;
  ver = none;
  purpose = some "tenant_selection";
}

abbrev pub register_payload : AuthConfig → Uuid → String → Uuid → String → Time → JwtPayload
register_payload config user email tenant tenant_name now = record {
  sub = some user;
  email = some email;
  tenant_id = some tenant;
  tenant_name = some tenant_name;
  driver_profile_id = none;
  role = some admin;
  typ = some "access";
  aud = some "api";
  iss = none;
  iat = now / 1000;
  exp = now / 1000 + config.expires_in;
  jti = none;
  ver = none;
  purpose = none;
}

module _ {D : Type 0} where
  -- The joined name of a tenant; its foreign key says that it is there.
  abbrev pub tenant_name : Store D → Uuid → Option String
  tenant_name s id = elim (find (tenant_id_is id) s.tenants) [ none ↦ none | some t ↦ some t.name ]

  abbrev pub require_name : Uuid → Action (Store D) String
  require_name id = do
    name ← gets (λ s. tenant_name s id)
    or_throw name (prisma_error "Inconsistent query result")

  abbrev pub require_user : Uuid → Action (Store D) User
  require_user id = do
    joined ← gets (λ s. find (user_id_is id) s.users)
    or_throw joined (prisma_error "Inconsistent query result")

  abbrev pub profile_choice : Store D → DriverProfile → TenantChoice
  profile_choice s p = record {
    tenant_id = p.tenant_id;
    tenant_name = tenant_name s p.tenant_id;
    role = none;
  }

  abbrev pub membership_choice : Store D → Membership → TenantChoice
  membership_choice s m = record {
    tenant_id = m.tenant_id;
    tenant_name = tenant_name s m.tenant_id;
    role = some m.role;
  }

module _ (tok : Tokens) (config : AuthConfig) where
  open tok use {Token, sign}

  abbrev pub login_ticket : Uuid → Time → Token
  login_ticket user now = sign config.ticket_secret (ticket_payload config user now)

module _ (tok : Tokens) (config : AuthConfig) {D : Type 0} where
  open tok use {Token, sign, verify}

  unfoldable pub generate_unified_access_token :
      Uuid
      → String
      → Role
      → Uuid
      → String
      → Option Uuid
      → Uuid
      → Time
      → Action (Store D) (LoginAnswer Token)
  generate_unified_access_token user email role tenant name profile jti now = do
    secret ← or_throw (non_empty config.jwt_secret) (plain_error "JWT_SECRET is not configured")
    let payload = access_payload config user email role tenant name profile jti now
    pure (access (sign secret payload) config.access_ttl)

  -- The package throws on a ticket that it does not accept.
  abbrev pub read_ticket : Token → Time → Action (Store D) JwtPayload
  read_ticket ticket now = do
    decoded ←
        or_throw (verify config.ticket_secret "tenant-selection" ticket now)
          (plain_error "jwt malformed, expired or with an invalid signature")
    throw_if (not (str_eq (or_else decoded.purpose "") "tenant_selection"))
        (unauthorized "Invalid ticket purpose")
    pure decoded
