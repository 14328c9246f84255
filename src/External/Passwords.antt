-- ===== src/External/Passwords.antt =====
-- The `bcrypt` package.
use typescript_version_taxi.Base.{Bool, String, true, ℕ, ◌≡◌}

pub record Passwords : Type 0 where
  -- the password and the salt that the package draws
  pub hash : String → ℕ → String
  pub compare : String → String → Bool
  pub compare-hash : (password : String) (salt : ℕ) → compare password (hash password salt) ≡ true
