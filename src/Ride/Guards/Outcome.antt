-- ===== src/Ride/Guards/Outcome.antt =====
-- How the checks of the tenant and of the driver end.
use typescript_version_taxi.Base.{
  Action, Bool-cases, Exception, Option-cases, arith, inl, inr, none, not_found, some, thrown, true,
  ◌==◌, ◌>>=◌, ◌≡◌, ◌⊎◌,
}
use typescript_version_taxi.External.Queries.{Queries}
use typescript_version_taxi.Ride.Guards.{is_live, is_profile_of, require_driver, require_tenant}
use typescript_version_taxi.Schema.{DriverProfile, Store, Tenant, Uuid}

module _ (q : Queries) {D : Type 0} where
  open q use {find_first, find_first_matches}

  -- The tenant is there and not deleted, and the user has an active profile in it.
  pub record IsAllowed (s : Store D) (user tenant_id : Uuid) (tenant : Tenant)
      (profile : DriverProfile) : Type 0 where
    pub tenant_row : find_first (λ (t : Tenant). t.id == tenant_id) s.tenants ≡ some tenant
    pub profile_row : find_first (is_profile_of user tenant_id) s.driver_profiles ≡ some profile
    pub same_tenant : tenant.id ≡ tenant_id
    pub live : tenant.deleted_at ≡ none
    pub user_is : profile.user_id ≡ user
    pub tenant_is : profile.tenant_id ≡ tenant_id
    pub active : profile.is_active ≡ true

  -- Both checks pass, or the call throws and has written nothing.
  pub checks_cases :
      {A : Type 0} (s : Store D) (user tenant_id : Uuid) (refusal : Exception)
      (next : Tenant → DriverProfile → Action (Store D) A)
      → let run =
          (require_tenant q refusal tenant_id >>= λ t.
          require_driver q user tenant_id >>= λ p. next t p)
            s in
        ((e : Exception) × (run ≡ (thrown e, s)))
        ⊎ ((t : Tenant) × (p : DriverProfile) × IsAllowed s user tenant_id t p × (run ≡ next t p s))
  checks_cases s user tenant_id refusal next =
      elim (Option-cases (find_first (λ (t : Tenant). t.id == tenant_id) s.tenants)) [
        | inl e ↦ inl (refusal, ground arith)
        | inr (t, e) ↦ elim (Bool-cases (is_live t)) [
          | inr dead ↦ inl (refusal, ground arith)
          | inl live ↦
              elim (Option-cases (find_first (is_profile_of user tenant_id) s.driver_profiles)) [
                | inl f ↦ inl (not_found "Driver profile not found or inactive", ground arith)
                | inr (p, f) ↦ inr (
                  t,
                  p,
                  record {
                    tenant_row = e;
                    profile_row = f;
                    same_tenant = ground (arith, find_first_matches _ _ t e);
                    live = ground arith;
                    user_is = ground (arith, find_first_matches _ _ p f);
                    tenant_is = ground (arith, find_first_matches _ _ p f);
                    active = ground (arith, find_first_matches _ _ p f);
                  },
                  ground arith,
                )
              ]
        ]
      ]
