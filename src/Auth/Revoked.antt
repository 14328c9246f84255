-- ===== src/Auth/Revoked.antt =====
-- A revoked token is refused.
use typescript_version_taxi.Base.{
  All, List, Result-cases, String, ap, arith, false, inl, inr, is_ok, refl, some, ℕ, ◌/◌, ◌<◌, ◌≡◌,
}
use typescript_version_taxi.Auth.Revocation.{
  Revoke, SameToken, is_token_revoked, revoke_each, revoke_token, revoked_for_good,
}
use typescript_version_taxi.Auth.Sound.{authenticate_sound}
use typescript_version_taxi.Auth.Strategy.{authenticate}
use typescript_version_taxi.External.Cache.{CacheManager}
use typescript_version_taxi.External.Queries.{Queries}
use typescript_version_taxi.External.Tokens.{JwtPayload, Tokens}
use typescript_version_taxi.Numbering.Unique.{own}
use typescript_version_taxi.Schema.{Store, Time, Uuid}

module _ (tok : Tokens) (cm : CacheManager) (q : Queries) {D : Type 0} where
  open tok use {sign, verify_signed, verify_in_time}

  -- A token that was revoked before its expiry is refused at every later time, whatever else has
  -- been revoked in between, where its id belongs to it alone.
  pub revoked_token_refused :
      (secret : String) (c : cm.Cache) (now later : Time) (ttl_hours : ℕ) (payload : JwtPayload)
      (jti : Uuid) (rs : List Revoke) (s : Store D)
      → payload.jti ≡ some jti
      → now / 1000 < payload.exp
      → All (SameToken cm ttl_hours jti payload.exp) rs
      → is_ok
          (authenticate tok cm q secret
            (revoke_each cm ttl_hours rs (revoke_token cm jti (some payload.exp) now c))
            later
            (sign secret payload)
            s).0
        ≡ false
  revoked_token_refused secret c now later ttl_hours payload jti rs s own h same =
      let gone = revoke_each cm ttl_hours rs (revoke_token cm jti (some payload.exp) now c) in
      let token = sign secret payload in
      elim (Result-cases (authenticate tok cm q secret gone later token s).0) [
        | inr (e, r) ↦ rw r refl
        | inl (u, r) ↦
            let a = authenticate_sound tok cm q secret gone later token s u r in
            let read : a.payload ≡ payload =
              verify_signed secret "api" payload a.payload later a.signed in
            let in_time : later / 1000 < payload.exp =
              rw (← read) (verify_in_time secret "api" token a.payload later a.signed) in
            let mine : u.jti ≡ jti =
              ground (arith, own, a.claims.jti, ap (λ (p : JwtPayload). p.jti) read) in
            let revoked_for =
              revoked_for_good cm ttl_hours jti payload.exp now c rs later same in_time h in
            absurd
              (cc (a.not_revoked, ap (λ j. is_token_revoked cm j later gone) mine, revoked_for))
      ]
