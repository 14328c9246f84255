-- ===== src/Pricing/Effects.antt =====
-- What the meter policy operations change, and what they leave alone.
use typescript_version_taxi.Base.{
  All, Bool, Bool-cases, List, Option-cases, [], arith, count, count-update_many, false, filter,
  filter-update_many, inl, inr, is_ok, not, refl, some, true, update_many, ◌==◌, ◌∷◌, ◌≡◌, ◌≤◌,
}
use typescript_version_taxi.Base.Rows.{All-imp, filter-update_many_of, unique_row}
use typescript_version_taxi.External.Decimals.{Decimals}
use typescript_version_taxi.External.Queries.{Queries}
use typescript_version_taxi.Pricing.{
  UpdatePricingPolicyDto, activate, active_in, has_id, owned, set_active, update, updated_policy,
}
use typescript_version_taxi.Pricing.Single.{
  AtMostOneActive, UniqueIds, deactivated, found_only, ids_owned,
}
use typescript_version_taxi.Schema.{PricingPolicy, Store, Time, Uuid}

module _ {D : Type 0} where
  -- The rows of the other tenants.
  abbrev pub foreign : Uuid → PricingPolicy D → Bool
  foreign tenant p = not (p.tenant_id == tenant)

  flags-deactivated :
      (tenant : Uuid) (now : Time) (ps : List (PricingPolicy D))
      → filter (foreign tenant) (deactivated tenant now ps) ≡ filter (foreign tenant) ps
  flags-deactivated tenant now ps =
      filter-update_many (active_in tenant) (foreign tenant) (set_active false now)
        (λ x. ground arith) (λ x. ground arith) ps

module _ (q : Queries) {D : Type 0} (tenant id : Uuid) (now : Time) where
  open q use {find_first, find_first_mem, find_first_matches}

  owned_deactivated :
      (ps : List (PricingPolicy D))
      → All (λ x. has_id id x ≡ true → x.tenant_id ≡ tenant) ps
      → All (λ x. has_id id x ≡ true → foreign tenant x ≡ false) (deactivated tenant now ps)
  owned_deactivated [] h = tt
  owned_deactivated (x ∷ ps) h = (ground (arith, h.0), owned_deactivated ps h.1)

  only_target :
      (ps : List (PricingPolicy D))
      → All (λ x. has_id id x ≡ true → x.tenant_id ≡ tenant) ps
      → All
          (λ x. active_in tenant x ≡ has_id id x)
          (update_many (has_id id) (set_active true now) (deactivated tenant now ps))
  only_target [] h = tt
  only_target (x ∷ ps) h = (ground (arith, h.0), only_target ps h.1)

  already_target :
      (p : PricingPolicy D) (ps : List (PricingPolicy D))
      → has_id id p ≡ true
      → active_in tenant p ≡ true
      → All (λ x. has_id id x ≡ true → x ≡ p) ps
      → All (λ x. active_in tenant x ≡ true → x ≡ p) ps
      → All (λ x. active_in tenant x ≡ has_id id x) ps
  already_target p [] i a h k = tt
  already_target p (x ∷ ps) i a h k = (
    (elim (Bool-cases (has_id id x)) [
      | inl e ↦ rw (e, h.0 e) a
      | inr e ↦ elim (Bool-cases (active_in tenant x)) [
        | inl c ↦ absurd (cc (k.0 c, i, e))
        | inr c ↦ rw (e, c) refl
      ]
    ]),
    already_target p ps i a h.1 k.1,
  )

  -- After a successful `activate` the target is the tenant's only active policy, where ids are
  -- unique and each tenant had one active policy at most.
  pub activate_only_target :
      (s : Store D)
      → UniqueIds s
      → AtMostOneActive s
      → is_ok (activate q tenant id now s).0 ≡ true
      → All (λ x. active_in tenant x ≡ has_id id x) (activate q tenant id now s).1.pricing_policies
  unfolding activate
  activate_only_target s u h k =
      elim (Option-cases (find_first (owned tenant id) s.pricing_policies)) [
        | inl e ↦ absurd (cc (rw (e) at k))
        | inr (p, e) ↦ elim (Bool-cases p.is_active) [
          | inl a ↦
              let m = find_first_matches _ _ p e in
              rw (e, a)
                (already_target p s.pricing_policies (ground (arith, m)) (ground (arith, m))
                  (found_only q tenant id now s.pricing_policies p (u id) e)
                  (unique_row (active_in tenant) p s.pricing_policies (h tenant)
                    (find_first_mem _ _ p e) (ground (arith, m))))
          | inr a ↦
              rw (e, a)
                (only_target s.pricing_policies
                  (ids_owned q tenant id now s.pricing_policies p (u id) e))
        ]
      ]

  -- `activate` leaves the policies of every other tenant as they are, where ids are unique.
  pub activate_isolated :
      (s : Store D)
      → UniqueIds s
      → filter (foreign tenant) (activate q tenant id now s).1.pricing_policies
        ≡ filter (foreign tenant) s.pricing_policies
  unfolding activate
  activate_isolated s u = elim (Option-cases (find_first (owned tenant id) s.pricing_policies)) [
    | inl e ↦ rw e refl
    | inr (p, e) ↦ grind (
      arith,
      flags-deactivated tenant now s.pricing_policies,
      filter-update_many_of (has_id id) (foreign tenant) (set_active true now)
          (deactivated tenant now s.pricing_policies)
          (owned_deactivated s.pricing_policies
            (ids_owned q tenant id now s.pricing_policies p (u id) e))
          (owned_deactivated s.pricing_policies
            (ids_owned q tenant id now s.pricing_policies p (u id) e)),
    )
  ]

module _ (dec : Decimals) (q : Queries) (tenant id : Uuid) (dto : UpdatePricingPolicyDto)
    (now : Time) where
  open dec use {Decimal}
  open q use {find_first, find_first_mem, find_first_matches}

  count-updated :
      (p : PricingPolicy Decimal → Bool)
      → ((x : PricingPolicy Decimal) (b k : Decimal) → p (updated_policy dto now b k x) ≡ p x)
      → (base_fare per_km : Decimal) (ps : List (PricingPolicy Decimal))
      → count p (update_many (has_id id) (updated_policy dto now base_fare per_km) ps) ≡ count p ps
  count-updated p h base_fare per_km ps =
      count-update_many (has_id id) p (updated_policy dto now base_fare per_km)
        (λ x _. h x base_fare per_km) ps

  -- `update` activates and deactivates nothing, of any tenant.
  pub update_keeps_active :
      (s : Store Decimal) (t : Uuid)
      → count (active_in t) (update dec q tenant id dto now s).1.pricing_policies
        ≡ count (active_in t) s.pricing_policies
  unfolding update
  update_keeps_active s t = grind (arith, count-updated (active_in t) (λ x b k. refl))

  pub update-UniqueIds :
      (s : Store Decimal) → UniqueIds s → UniqueIds (update dec q tenant id dto now s).1
  unfolding update
  update-UniqueIds s u i = grind (arith, u i, count-updated (has_id i) (λ x b k. refl))

  foreign_updated :
      (base_fare per_km : Decimal) (p : PricingPolicy Decimal) (ps : List (PricingPolicy Decimal))
      → count (has_id id) ps ≤ 1
      → find_first (owned tenant id) ps ≡ some p
      → filter
          (foreign tenant)
          (update_many (has_id id) (updated_policy dto now base_fare per_km) ps)
        ≡ filter (foreign tenant) ps
  foreign_updated base_fare per_km p ps u e =
      let own = ids_owned q tenant id now ps p u e in
      filter-update_many_of (has_id id) (foreign tenant) (updated_policy dto now base_fare per_km)
        ps (All-imp _ _ (λ x h k. ground (arith, h k)) ps own)
        (All-imp _ _ (λ x h k. ground (arith, h k)) ps own)

  -- `update` leaves the policies of every other tenant as they are, where ids are unique.
  pub update_isolated :
      (s : Store Decimal)
      → UniqueIds s
      → filter (foreign tenant) (update dec q tenant id dto now s).1.pricing_policies
        ≡ filter (foreign tenant) s.pricing_policies
  unfolding update
  update_isolated s u = elim (Option-cases (find_first (owned tenant id) s.pricing_policies)) [
    | inl e ↦ rw e refl
    | inr (p, e) ↦
        grind (arith, λ (b k : Decimal). foreign_updated b k p s.pricing_policies (u id) e)
  ]
