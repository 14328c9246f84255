-- ===== src/Pricing/Options.antt =====
-- The other half of src/pricings/pricing.service.ts: fixed price policies, the active meter policy,
-- and the two listings of policies, for the administration and for a driver who starts a ride.
pub mod Startable
use typescript_version_taxi.Base.{
  Action, Bool, List, Option, String, [], false, filter, forbidden, gets, is_some, leb, map, modify,
  none, not, not_found, or_throw, prisma_error, pure, some, throw_if, true, ◌&&◌, ◌++◌, ◌==◌, ◌>>=◌,
  ◌>>◌, ◌∷◌,
}
use typescript_version_taxi.External.Decimals.{Decimals}
use typescript_version_taxi.External.Queries.{Queries}
use typescript_version_taxi.Pricing.{active_in}
use typescript_version_taxi.Pricing.Responses.{
  AllPolicies, AvailablePricingOptions, CreateFixedPricePolicyDto, FixedPricePolicyResponse,
  custom_option, fixed_info, fixed_option, meter_info, meter_option,
}
use typescript_version_taxi.Ride.Guards.{require_tenant}
use typescript_version_taxi.Schema.{
  FixedPricePolicy, Membership, PricingPolicy, Role, Store, Tenant, Time, Uuid, driver,
}

abbrev pub is_driver_role : Role → Bool
is_driver_role driver = true
is_driver_role _ = false

-- `where: { userId, tenantId, role: { in: [...] } }` with every role, and with the driver's.
abbrev pub is_member : Uuid → Uuid → Membership → Bool
is_member user tenant m = m.user_id == user && m.tenant_id == tenant

abbrev pub is_driver_member : Uuid → Uuid → Membership → Bool
is_driver_member user tenant m = is_member user tenant m && is_driver_role m.role

module _ {D : Type 0} where
  -- `where: { tenantId }`
  abbrev pub meter_in : Uuid → PricingPolicy D → Bool
  meter_in tenant p = p.tenant_id == tenant

  abbrev pub fixed_in : Uuid → FixedPricePolicy D → Bool
  fixed_in tenant p = p.tenant_id == tenant

-- The row that comes first.
abbrev pub first : {A : Type 0} → List A → Option A
first [] = none
first (x ∷ xs) = some x

module _ (dec : Decimals) where
  open dec use {Decimal, of_string, to_string}

  -- The row that `createFixedByAdmin` inserts: active, and the whole tenant's, by the defaults.
  abbrev pub new_fixed_policy : Uuid → String → Decimal → Uuid → Time → FixedPricePolicy Decimal
  new_fixed_policy tenant name amount id now = record {
    id = id;
    tenant_id = tenant;
    driver_profile_id = none;
    name = name;
    amount = amount;
    is_active = true;
    created_at = now;
  }

  module _ (q : Queries) where
    open q use {find_first, order_by}

    -- The rows of `findMany` without `orderBy` come in any order; the tenant that the rows are joined
    -- with is the tenant found before, by its key.
    abbrev pub find_many : {A : Type 0} → (A → Bool) → List A → List A
    find_many p xs = order_by (λ _ _. true) (filter p xs)

    -- `getActive`: of the active policies, the one written last.
    pub get_active : Uuid → Action (Store Decimal) (Option (PricingPolicy Decimal))
    get_active tenant = gets (λ s. first (
        order_by (λ x y. leb y.updated_at x.updated_at)
          (filter (active_in tenant) s.pricing_policies)))

    -- The tenant is a foreign key.
    pub create_fixed_by_admin :
        Uuid
        → CreateFixedPricePolicyDto
        → Uuid
        → Time
        → Action (Store Decimal) FixedPricePolicyResponse
    create_fixed_by_admin tenant dto id now = do
      amount ← or_throw (of_string dto.amount) (prisma_error "Invalid value for amount")
      found ← gets (λ s. find_first (λ (t : Tenant). t.id == tenant) s.tenants)
      t ← or_throw found (prisma_error "Foreign key constraint failed")
      let created = new_fixed_policy tenant dto.name amount id now
      modify (λ s. record s { fixed_price_policies = s.fixed_price_policies ++ created ∷ [] })
      pure (record {
        id = id;
        tenant_id = tenant;
        tenant_name = t.name;
        name = dto.name;
        amount = to_string amount;
        created_at = now;
      })

    -- Each of the three roles may list.
    unfoldable pub list_all_policies : Uuid → Uuid → Action (Store Decimal) AllPolicies
    list_all_policies tenant user = do
      t ← require_tenant q (not_found "Tenant not found") tenant
      member ← gets (λ s. find_first (is_member user tenant) s.memberships)
      throw_if (not (is_some member)) (forbidden "No membership for this tenant")
      meters ← gets (λ s. find_many (meter_in tenant) s.pricing_policies)
      fixed ← gets (λ s. find_many (fixed_in t.id) s.fixed_price_policies)
      pure (record {
        meter_policies = map (meter_info dec t) meters;
        fixed_price_policies = map (fixed_info dec t) fixed;
      })

    unfoldable pub list_available_policies_for_ride :
        Uuid → Uuid → Role → Action (Store Decimal) AvailablePricingOptions
    list_available_policies_for_ride tenant user role = do
      throw_if (not (is_driver_role role)) (forbidden "Access denied")
      t ← require_tenant q (not_found "Tenant not found") tenant
      member ← gets (λ s. find_first (is_driver_member user tenant) s.memberships)
      throw_if (not (is_some member)) (forbidden "No membership for this tenant")
      found ← gets (λ s. find_first (active_in tenant) s.pricing_policies)
      active ← or_throw found (not_found "No active meter pricing policy found")
      fixed ← gets (λ s. find_many (fixed_in tenant) s.fixed_price_policies)
      pure (record {
        meter_policy = meter_option dec t active;
        fixed_price_policies = map (fixed_option dec t) fixed;
        custom_fixed_option = custom_option dec;
      })
