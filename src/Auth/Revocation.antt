-- ===== src/Auth/Revocation.antt =====
-- Revoked tokens (src/auth/services/jwt-revocation.service.ts): a token until it expires, a user's
-- tokens for some hours.
use typescript_version_taxi.Base.{
  All, Bool, Bool-cases, List, Option, [], arith, false, if◌then◌else◌, inl, inr, ltb, none, refl,
  some, some_eq, true, ℕ, ◌*◌, ◌-◌, ◌/◌, ◌<◌, ◌==◌, ◌∷◌, ◌≡◌,
}
use typescript_version_taxi.External.Cache.{CacheManager, revoked, user_revoked}
use typescript_version_taxi.Schema.{Time, Uuid}

module _ (cm : CacheManager) where
  open cm use {Cache, get, set, get-set, get-set_other}

  -- Without `exp` the time to live is NaN, which is not positive.
  pub revoke_token : Uuid → Option ℕ → Time → Cache → Cache
  revoke_token jti none now c = c
  revoke_token jti (some exp) now c =
      let ttl = exp - now / 1000 in if ltb 0 ttl then set (revoked jti) 1 (ttl * 1000) now c else c

  unfoldable pub is_token_revoked : Uuid → Time → Cache → Bool
  is_token_revoked jti now c = some_eq (get (revoked jti) now c) 1

  -- `ttl_hours` is REDIS_TTL_HOURS; the value is the clock.
  pub revoke_all_user_tokens : ℕ → Uuid → Time → Cache → Cache
  revoke_all_user_tokens ttl_hours user now c =
      set (user_revoked user) now (ttl_hours * 3600 * 1000) now c

  -- `iat < revokedAt / 1000`, without rounding
  unfoldable pub is_user_revoked : Uuid → ℕ → Time → Cache → Bool
  is_user_revoked user iat now c = elim (get (user_revoked user) now c) [
    | none ↦ false
    | some at ↦ ltb (iat * 1000) at
  ]

-- The requests that revoke.
pub data Revoke : Type 0 where
  one_token : Uuid → Option ℕ → Time → Revoke
  all_tokens : Uuid → Time → Revoke

module _ (cm : CacheManager) (ttl_hours : ℕ) where
  open cm use {Cache, get, set, get-set, get-set_other}

  abbrev pub revoke : Revoke → Cache → Cache
  revoke (one_token jti exp now) c = revoke_token cm jti exp now c
  revoke (all_tokens user now) c = revoke_all_user_tokens cm ttl_hours user now c

  abbrev pub revoke_each : List Revoke → Cache → Cache
  revoke_each [] c = c
  revoke_each (r ∷ rs) c = revoke_each rs (revoke r c)

  -- An id of a token belongs to one token, which has one `exp`.
  abbrev pub SameToken : Uuid → ℕ → Revoke → Type 0
  SameToken jti exp (one_token j e now) = j ≡ jti → e ≡ some exp
  SameToken jti exp (all_tokens user now) = Unit

  -- Until it expires, the token is found among the revoked ones.
  abbrev pub StaysRevoked : Uuid → ℕ → Cache → Type 0
  StaysRevoked jti exp c =
      (later : Time) → later / 1000 < exp → is_token_revoked cm jti later c ≡ true

  revoke_token-StaysRevoked :
      (jti : Uuid) (exp : ℕ) (now : Time) (c : Cache)
      → now / 1000 < exp
      → StaysRevoked jti exp (revoke_token cm jti (some exp) now c)
  unfolding revoke_token is_token_revoked
  revoke_token-StaysRevoked jti exp now c h later k =
      let there = get-set (revoked jti) 1 ((exp - now / 1000) * 1000) now later c (omega arith) in
      ground (arith, there)

  revoke-StaysRevoked :
      (jti : Uuid) (exp : ℕ) (r : Revoke) (c : Cache)
      → SameToken jti exp r
      → StaysRevoked jti exp c
      → StaysRevoked jti exp (revoke r c)
  unfolding revoke_token is_token_revoked revoke_all_user_tokens
  revoke-StaysRevoked jti exp (one_token j none now) c same h later k = h later k
  revoke-StaysRevoked jti exp (one_token j (some e) now) c same h later k =
      elim (Bool-cases (ltb 0 (e - now / 1000))) [
        | inr past ↦ ground (arith, past, h later k)
        | inl ahead ↦ elim (Bool-cases (j == jti)) [
          | inl mine ↦
              let whole : e ≡ exp = ground (arith, same (ground (arith, mine))) in
              let there : get (revoked j) later (set (revoked j) 1 ((e - now / 1000) * 1000) now c)
                  ≡ some 1 =
                get-set (revoked j) 1 ((e - now / 1000) * 1000) now later c
                  (omega (arith, whole, k)) in
              let name : jti ≡ j = ground (arith, mine) in rw (ahead, name, there) refl
          | inr other ↦
              let apart =
                get-set_other (revoked jti) (revoked j) 1 ((e - now / 1000) * 1000) now later c
                  (λ p. absurd (ground (arith, other, p))) in
              ground (arith, ahead, apart, h later k)
        ]
      ]
  revoke-StaysRevoked jti exp (all_tokens user now) c same h later k =
      let apart =
        get-set_other (revoked jti) (user_revoked user) now (ttl_hours * 3600 * 1000) now later c
          (λ e. cc e) in
      ground (arith, apart, h later k)

  revoke_each-StaysRevoked :
      (jti : Uuid) (exp : ℕ) (rs : List Revoke) (c : Cache)
      → All (SameToken jti exp) rs
      → StaysRevoked jti exp c
      → StaysRevoked jti exp (revoke_each rs c)
  revoke_each-StaysRevoked jti exp [] c same h = h
  revoke_each-StaysRevoked jti exp (r ∷ rs) c same h =
      revoke_each-StaysRevoked jti exp rs (revoke r c) same.1
        (revoke-StaysRevoked jti exp r c same.0 h)

  -- A token that is revoked before its expiry stays revoked until then, whatever else is revoked
  -- meanwhile, where the id belongs to one token.
  pub revoked_for_good :
      (jti : Uuid) (exp : ℕ) (now : Time) (c : Cache) (rs : List Revoke) (later : Time)
      → All (SameToken jti exp) rs
      → later / 1000 < exp
      → now / 1000 < exp
      → is_token_revoked cm jti later (revoke_each rs (revoke_token cm jti (some exp) now c)) ≡ true
  revoked_for_good jti exp now c rs later same k h =
      revoke_each-StaysRevoked jti exp rs (revoke_token cm jti (some exp) now c) same
        (revoke_token-StaysRevoked jti exp now c h) later k
