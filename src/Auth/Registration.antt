-- ===== src/Auth/Registration.antt =====
-- The token that a registration returns.
use typescript_version_taxi.Base.{
  Bool-cases, Option-cases, String, [], ap, arith, conflict, false, find, if◌then◌else◌, inl, inr,
  is_ok, is_some, none, ok, refl, some, thrown, ℕ, ◌++◌, ◌∙◌, ◌∷◌, ◌≡◌,
}
use typescript_version_taxi.Auth.{AuthConfig, RegisterDto, access, email_is, register_payload}
use typescript_version_taxi.Auth.SignIn.{register}
use typescript_version_taxi.Auth.Strategy.{
  authenticate, malformed, validate, validate_payload_structure,
}
use typescript_version_taxi.External.Cache.{CacheManager}
use typescript_version_taxi.External.Passwords.{Passwords}
use typescript_version_taxi.External.Queries.{Queries}
use typescript_version_taxi.External.Tokens.{Tokens}
use typescript_version_taxi.Payment.{non_empty}
use typescript_version_taxi.Schema.{Store, Time, Uuid, active, admin}

module _ (tok : Tokens) (pw : Passwords) (cm : CacheManager) (q : Queries) (config : AuthConfig)
    {D : Type 0} where
  open tok use {Token, sign, verify, verify_signed}
  open pw use {hash}

  -- What a registration adds.
  abbrev pub registered : RegisterDto → Uuid → Uuid → ℕ → Store D → Store D
  registered dto user tenant salt s = record s {
    users =
        s.users
        ++ record {
          id = user;
          email = dto.email;
          password_hash = hash dto.password salt;
          status = active;
        }
          ∷ [];
    tenants =
        s.tenants
        ++ record {
          id = tenant;
          name = dto.tenant_name;
          business_id = dto.business_id;
          surcharges = none;
          deleted_at = none;
        }
          ∷ [];
    memberships = s.memberships ++ record { user_id = user; tenant_id = tenant; role = admin } ∷ [];
  }

  register_eq :
      (dto : RegisterDto) (user tenant : Uuid) (salt : ℕ) (now : Time) (s : Store D)
      (secret : String)
      → non_empty config.jwt_secret ≡ some secret
      → register tok pw config dto user tenant salt now s ≡ (
          if is_some (find (email_is dto.email) s.users)
          then (thrown (conflict "Email already registered"), s)
          else (
            ok (
                access
                  (sign secret (register_payload config user dto.email tenant dto.tenant_name now))
                  config.expires_in),
            registered dto user tenant salt s,
          ))
  unfolding register
  register_eq dto user tenant salt now s secret known =
      elim (Bool-cases (is_some (find (email_is dto.email) s.users))) [
        | inl e ↦ ground (arith, e)
        | inr e ↦ ground (arith, e, known)
      ]

  -- The claims of a registration have no version.
  register_payload-malformed :
      (user tenant : Uuid) (email name : String) (now : Time) (s : Store D)
      → validate_payload_structure (register_payload config user email tenant name now) s
        ≡ (thrown malformed, s)
  unfolding validate_payload_structure
  register_payload-malformed user tenant email name now s = refl

  -- The token that `register` returns is refused by the strategy at all times, on every database,
  -- where the secret is configured.
  pub register_token_refused :
      (dto : RegisterDto) (user tenant : Uuid) (salt : ℕ) (now : Time) (s : Store D)
      (secret : String) (token : Token) (ttl : ℕ) (c : cm.Cache) (later : Time) (t : Store D)
      → non_empty config.jwt_secret ≡ some secret
      → (register tok pw config dto user tenant salt now s).0 ≡ ok (access token ttl)
      → is_ok (authenticate tok cm q secret c later token t).0 ≡ false
  unfolding authenticate validate
  register_token_refused dto user tenant salt now s secret token ttl c later t known r =
      let payload = register_payload config user dto.email tenant dto.tenant_name now in
      let signed : token ≡ sign secret payload =
        ground (arith, register_eq dto user tenant salt now s secret known, r) in
      elim (Option-cases (verify secret "api" token later)) [
        | inl e ↦ ground (arith, e)
        | inr (d, e) ↦
            let same : d ≡ payload = verify_signed secret "api" payload d later (rw (← signed) e) in
            let wrong = register_payload-malformed user tenant dto.email dto.tenant_name now t in
            ground (arith, e ∙ ap some same, wrong)
      ]
