-- ===== src/Pricing/Single.antt =====
-- At most one meter policy of a tenant is active, whatever the administrators do.
use typescript_version_taxi.Base.{
  ==_iff, All, All-update_many, Bool-cases, List, Option-cases, ap, arith, count, count-append,
  count-update_many, count-update_many-le, false, inl, inr, is_ok, refl, some, true, update_many,
  ◌==◌, ◌∙◌, ◌≡◌, ◌≤◌,
}
use typescript_version_taxi.Base.Rows.{
  All-imp, count-update_many-add, count-update_many_of, count-update_many_zero, unique_row,
}
use typescript_version_taxi.External.Decimals.{Decimals}
use typescript_version_taxi.External.Queries.{Queries}
use typescript_version_taxi.Pricing.{
  CreatePricingPolicyDto, activate, active_in, create, has_id, owned, set_active,
}
use typescript_version_taxi.Schema.{PricingPolicy, Store, Time, Uuid}

-- No two policies share an id.
abbrev pub UniqueIds : {D : Type 0} → Store D → Type 0
UniqueIds s = (id : Uuid) → count (has_id id) s.pricing_policies ≤ 1

abbrev pub AtMostOneActive : {D : Type 0} → Store D → Type 0
AtMostOneActive s = (t : Uuid) → count (active_in t) s.pricing_policies ≤ 1

module _ {D : Type 0} (tenant : Uuid) (now : Time) where
  abbrev pub deactivated : List (PricingPolicy D) → List (PricingPolicy D)
  deactivated = update_many (active_in tenant) (set_active false now)

  pub count-deactivated_self :
      (ps : List (PricingPolicy D)) → count (active_in tenant) (deactivated ps) ≡ 0
  count-deactivated_self ps =
      count-update_many_zero (active_in tenant) (set_active false now) (λ x. ground arith) ps

  pub count-deactivated-le :
      (t : Uuid) (ps : List (PricingPolicy D))
      → count (active_in t) (deactivated ps) ≤ count (active_in t) ps
  count-deactivated-le t ps =
      count-update_many-le (active_in tenant) (active_in t) (set_active false now)
        (λ x. ground arith) ps

  pub count-deactivated-has_id :
      (id : Uuid) (ps : List (PricingPolicy D))
      → count (has_id id) (deactivated ps) ≡ count (has_id id) ps
  count-deactivated-has_id id ps =
      count-update_many (active_in tenant) (has_id id) (set_active false now) (λ x _. refl) ps

module _ (dec : Decimals) (tenant : Uuid) (dto : CreatePricingPolicyDto) (id : Uuid)
    (now : Time) where
  open dec use {Decimal}

  -- `create` keeps at most one active policy of each tenant.
  pub create-AtMostOneActive :
      (s : Store Decimal) → AtMostOneActive s → AtMostOneActive (create dec tenant dto id now s).1
  unfolding create
  create-AtMostOneActive s h t = grind (
    arith,
    h t,
    h tenant,
    count-deactivated_self tenant now s.pricing_policies,
    count-deactivated-le tenant now t s.pricing_policies,
    count-append,
  )

  -- After a successful `create` the tenant has exactly one active policy, if each tenant had one
  -- at most.
  pub create_one_active :
      (s : Store Decimal)
      → AtMostOneActive s
      → is_ok (create dec tenant dto id now s).0 ≡ true
      → count (active_in tenant) (create dec tenant dto id now s).1.pricing_policies ≡ 1
  unfolding create
  create_one_active s h e =
      grind (arith, h tenant, count-deactivated_self tenant now s.pricing_policies, count-append)

  pub create-UniqueIds :
      (s : Store Decimal)
      → UniqueIds s
      → count (has_id id) s.pricing_policies ≡ 0
      → UniqueIds (create dec tenant dto id now s).1
  unfolding create
  create-UniqueIds s u fresh i =
      grind
        (arith, u i, fresh, count-deactivated-has_id tenant now i s.pricing_policies, count-append)

module _ (q : Queries) {D : Type 0} (tenant id : Uuid) (now : Time) where
  open q use {find_first, find_first_mem, find_first_matches}

  -- The row that a lookup by id and tenant finds is the only row with that id.
  pub found_only :
      (ps : List (PricingPolicy D)) (p : PricingPolicy D)
      → count (has_id id) ps ≤ 1
      → find_first (owned tenant id) ps ≡ some p
      → All (λ x. has_id id x ≡ true → x ≡ p) ps
  found_only ps p u e =
      unique_row (has_id id) p ps u (find_first_mem _ ps p e)
        (ground (arith, find_first_matches (owned tenant id) ps p e))

  found_tenant :
      (ps : List (PricingPolicy D)) (p : PricingPolicy D)
      → find_first (owned tenant id) ps ≡ some p
      → p.tenant_id ≡ tenant
  found_tenant ps p e = ground (arith, find_first_matches (owned tenant id) ps p e)

  -- The rows with the id are the tenant's own.
  pub ids_owned :
      (ps : List (PricingPolicy D)) (p : PricingPolicy D)
      → count (has_id id) ps ≤ 1
      → find_first (owned tenant id) ps ≡ some p
      → All (λ x. has_id id x ≡ true → x.tenant_id ≡ tenant) ps
  ids_owned ps p u e =
      All-imp _ _ (λ x h k. ap (λ (r : PricingPolicy D). r.tenant_id) (h k) ∙ found_tenant ps p e)
        ps (found_only ps p u e)

  All-deactivated :
      (ps : List (PricingPolicy D))
      → All (λ x. has_id id x ≡ true → x.tenant_id ≡ tenant) ps
      → All (λ x. has_id id x ≡ true → x.tenant_id ≡ tenant) (deactivated tenant now ps)
  All-deactivated ps = All-update_many _ (active_in tenant) (set_active false now) (λ x _ h. h) ps

  activated-le :
      (t : Uuid) (ps : List (PricingPolicy D))
      → ((t : Uuid) → count (active_in t) ps ≤ 1)
      → count (has_id id) ps ≤ 1
      → All (λ x. has_id id x ≡ true → x.tenant_id ≡ tenant) ps
      → count
          (active_in t)
          (update_many (has_id id) (set_active true now) (deactivated tenant now ps))
        ≤ 1
  activated-le t ps h u own = elim (Bool-cases (t == tenant)) [
    | inl same ↦
        let e : t ≡ tenant = (==_iff t tenant).0 same in
        rw e (
          omega (
            arith,
            count-update_many-add (has_id id) (active_in tenant) (set_active true now)
                (deactivated tenant now ps),
            count-deactivated_self tenant now ps,
            count-deactivated-has_id tenant now id ps,
          ))
    | inr other ↦ omega (
      arith,
      h t,
      count-deactivated-le tenant now t ps,
      count-update_many_of (has_id id) (active_in t) (set_active true now)
          (deactivated tenant now ps)
          (All-imp _ _ (λ x k m. ground (arith, k m)) _ (All-deactivated ps own)),
    )
  ]

  -- `activate` keeps at most one active policy of each tenant, where ids are unique.
  pub activate-AtMostOneActive :
      (s : Store D)
      → UniqueIds s
      → AtMostOneActive s
      → AtMostOneActive (activate q tenant id now s).1
  unfolding activate
  activate-AtMostOneActive s u h t =
      elim (Option-cases (find_first (owned tenant id) s.pricing_policies)) [
        | inl e ↦ rw e (h t)
        | inr (p, e) ↦ elim (Bool-cases p.is_active) [
          | inl a ↦ rw (e, a) (h t)
          | inr a ↦
              rw (e, a)
                (activated-le t s.pricing_policies h (u id)
                  (ids_owned s.pricing_policies p (u id) e))
        ]
      ]

  pub activate-UniqueIds : (s : Store D) → UniqueIds s → UniqueIds (activate q tenant id now s).1
  unfolding activate
  activate-UniqueIds s u i = grind (
    arith,
    u i,
    count-deactivated-has_id tenant now i s.pricing_policies,
    count-update_many (has_id id) (has_id i) (set_active true now) (λ x _. refl)
        (deactivated tenant now s.pricing_policies),
  )
