-- ===== src/External/Jwt.antt =====
-- The signed tokens of the `jsonwebtoken` package, with the secret fixed.
use typescript_version_taxi.Base.{Option, String, some, ℕ, ◌*◌, ◌+◌, ◌≡◌, ◌≤◌}
use typescript_version_taxi.Schema.{Time, Uuid}

pub record Claims : Type 0 where
  pub public_id : String
  pub tenant_id : Option Uuid
  pub typ : Option String

-- `verify` gives `none` where the package throws. A token is accepted until it expires; the package
-- counts whole seconds, so its last second is left open here.
pub record Jwt : Type 1 where
  pub Token : Type 0
  -- the claims, `expiresIn` in minutes, and the clock
  pub sign : Claims → ℕ → Time → Token
  pub verify : Token → Time → Option Claims
  pub verify-sign :
      (c : Claims) (minutes : ℕ) (now later : Time)
      → later + 1000 ≤ now + minutes * 60000
      → verify (sign c minutes now) later ≡ some c
