-- ===== src/Tests/Accounts.antt =====
-- One instance of the tokens, the password hashes and the cache, and a database of two users: an admin
-- of two companies, and a driver.
use typescript_version_taxi.Base.{
  Bool, Bool-cases, List, Option, String, [], ap, arith, false, if◌then◌else◌, inl, inr, ltb, none,
  or_else, refl, some, str_eq, str_eq_iff, sym, true, ℕ, ◌&&◌, ◌+◌, ◌/◌, ◌<◌, ◌==◌, ◌∷◌, ◌≡◌, ◌≢◌,
}
use typescript_version_taxi.Auth.{AuthConfig, LoginDto}
use typescript_version_taxi.External.Cache.{CacheManager, Key, revoked, user_revoked}
use typescript_version_taxi.External.Passwords.{Passwords}
use typescript_version_taxi.External.Tokens.{JwtPayload, Tokens}
use typescript_version_taxi.Schema.{Store, Time, User, Uuid, active, admin, manager}
use typescript_version_taxi.Tests.Database.{Amount, company, database}

pub str_eq_refl : (text : String) → str_eq text text ≡ true
str_eq_refl text = (str_eq_iff text text).1 refl

-- A token carries its claims and the secret.
abbrev accept : String → String → String × JwtPayload → Time → Option JwtPayload
accept secret audience (signed, c) now =
    if str_eq secret signed && str_eq (or_else c.aud "") audience && ltb (now / 1000) c.exp
    then some c
    else none

pub accept-sign :
    (secret audience : String) (c : JwtPayload) (now : Time)
    → c.aud ≡ some audience
    → now / 1000 < c.exp
    → accept secret audience (secret, c) now ≡ some c
accept-sign secret audience c now h k =
    ground (arith, h, k, str_eq_refl secret, str_eq_refl audience)

pub accept_signed :
    (secret audience : String) (c d : JwtPayload) (now : Time)
    → accept secret audience (secret, c) now ≡ some d
    → d ≡ c
accept_signed secret audience c d now h = ground (arith, h)

pub accept_in_time :
    (secret audience : String) (token : String × JwtPayload) (c : JwtPayload) (now : Time)
    → accept secret audience token now ≡ some c
    → now / 1000 < c.exp
accept_in_time secret audience token c now h = ground (arith, h)

abbrev pub signed_tokens : Tokens
signed_tokens = record {
  Token = String × JwtPayload;
  sign = λ secret c. (secret, c);
  verify = accept;
  verify-sign = accept-sign;
  verify_signed = accept_signed;
  verify_in_time = accept_in_time;
}

-- A hash that is the password.
abbrev pub passwords : Passwords
passwords = record {
  hash = λ password salt. password;
  compare = str_eq;
  compare-hash = λ password salt. str_eq_refl password;
}

abbrev same_key : Key → Key → Bool
same_key (revoked a) (revoked b) = a == b
same_key (user_revoked a) (user_revoked b) = a == b
same_key _ _ = false

-- The entries, each with the time at which it ends.
abbrev look_up : Key → Time → List (Key × ℕ × Time) → Option ℕ
look_up k now [] = none
look_up k now ((key, v, end) ∷ c) =
    let rest = look_up k now c in
    if same_key key k then (if ltb now end then some v else none) else rest

same_key_refl : (k : Key) → same_key k k ≡ true
same_key_refl (revoked a) = ground arith
same_key_refl (user_revoked a) = ground arith

same_key_sound : (j k : Key) → same_key j k ≡ true → j ≡ k
same_key_sound (revoked a) (revoked b) h = ap revoked (ground arith)
same_key_sound (revoked a) (user_revoked b) h = cc
same_key_sound (user_revoked a) (revoked b) h = cc
same_key_sound (user_revoked a) (user_revoked b) h = ap user_revoked (ground arith)

pub look_up_here :
    (k : Key) (v ttl : ℕ) (now later : Time) (c : List (Key × ℕ × Time))
    → later < now + ttl
    → look_up k later ((k, v, now + ttl) ∷ c) ≡ some v
look_up_here k v ttl now later c h = ground (arith, same_key_refl k, h)

pub look_up_other :
    (j k : Key) (v ttl : ℕ) (now later : Time) (c : List (Key × ℕ × Time))
    → j ≢ k
    → look_up j later ((k, v, now + ttl) ∷ c) ≡ look_up j later c
look_up_other j k v ttl now later c h = elim (Bool-cases (same_key k j)) [
  | inl e ↦ absurd (h (sym (same_key_sound k j e)))
  | inr e ↦ rw e refl
]

abbrev pub cache : CacheManager
cache = record {
  Cache = List (Key × ℕ × Time);
  get = look_up;
  set = λ k v ttl now c. (k, v, now + ttl) ∷ c;
  get-set = look_up_here;
  get-set_other = look_up_other;
}

abbrev pub config : AuthConfig
config = record {
  jwt_secret = some "secret";
  ticket_secret = "ticket";
  access_ttl = 28800;
  ticket_ttl = 300;
  jwt_audience = none;
  jwt_issuer = none;
  expires_in = 3600;
}

abbrev pub user : Uuid → String → User
user id email = record { id = id; email = email; password_hash = "pass"; status = active }

abbrev pub credentials : String → Option Uuid → LoginDto
credentials email tenant = record { email = email; password = "pass"; tenant_id = tenant }

-- The admin is a member of two companies.
abbrev pub staffed : Store Amount
staffed = record database {
  tenants = company ∷ record company { id = 7; name = "Cab" } ∷ [];
  users = user 9 "driver" ∷ user 8 "admin" ∷ [];
  memberships =
      record { user_id = 8; tenant_id = 1; role = admin }
      ∷ record { user_id = 8; tenant_id = 7; role = manager }
      ∷ [];
}
