-- ===== src/External/Tokens.antt =====
-- The signed tokens of the `jsonwebtoken` package, as the sign-in uses them: the secret and the
-- audience are arguments, the claims `iat` and `exp` are whole seconds.
use typescript_version_taxi.Base.{Option, String, some, ℕ, ◌/◌, ◌<◌, ◌≡◌}
use typescript_version_taxi.Schema.{Role, Time, Uuid}

-- Every claim of an access token or a login ticket; a missing one is `none`.
pub record JwtPayload : Type 0 where
  pub sub : Option Uuid
  pub email : Option String
  pub tenant_id : Option Uuid
  pub tenant_name : Option String
  pub driver_profile_id : Option Uuid
  pub role : Option Role
  pub typ : Option String
  pub aud : Option String
  pub iss : Option String
  pub iat : ℕ
  pub exp : ℕ
  pub jti : Option Uuid
  pub ver : Option ℕ
  pub purpose : Option String

-- `verify` gives `none` where the package throws. A token is accepted for its audience until the
-- second in which it expires, and what is read from it is what was signed.
pub record Tokens : Type 1 where
  pub Token : Type 0
  pub sign : String → JwtPayload → Token
  -- the secret, the audience, the token, the clock
  pub verify : String → String → Token → Time → Option JwtPayload
  pub verify-sign :
      (secret audience : String) (c : JwtPayload) (now : Time)
      → c.aud ≡ some audience
      → now / 1000 < c.exp
      → verify secret audience (sign secret c) now ≡ some c
  pub verify_signed :
      (secret audience : String) (c d : JwtPayload) (now : Time)
      → verify secret audience (sign secret c) now ≡ some d
      → d ≡ c
  pub verify_in_time :
      (secret audience : String) (token : Token) (c : JwtPayload) (now : Time)
      → verify secret audience token now ≡ some c
      → now / 1000 < c.exp
