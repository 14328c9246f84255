-- ===== src/Pricing.antt =====
-- Meter pricing policies of a tenant (src/pricings/pricing.service.ts): creating, updating and
-- activating one. The tenant comes from the request's token.
pub mod Single
pub mod Effects
pub mod Responses
pub mod Options
use typescript_version_taxi.Base.{
  Action, Bool, List, Option, String, [], count, false, gets, if◌then◌else◌, in_transaction, modify,
  none, not_found, or_else, or_throw, prisma_error, pure, some, true, update_many, ◌&&◌, ◌++◌, ◌==◌,
  ◌>>=◌, ◌>>◌, ◌||◌, ◌∷◌,
}
use typescript_version_taxi.External.Decimals.{Decimals}
use typescript_version_taxi.External.Queries.{Queries}
use typescript_version_taxi.Schema.{PricingPolicy, Store, Time, Uuid}

pub record CreatePricingPolicyDto : Type 0 where
  pub name : String
  pub base_fare : String
  pub per_km : String
  pub per_min : String
  pub is_active : Option Bool

pub record UpdatePricingPolicyDto : Type 0 where
  pub name : Option String
  pub base_fare : Option String
  pub per_km : Option String

-- What `create` and `update` return: the row, its decimals as text.
pub record PolicyResponse : Type 0 where
  pub id : Uuid
  pub name : String
  pub is_active : Bool
  pub base_fare : String
  pub per_km : String
  pub created_at : Time
  pub updated_at : Time

module _ {D : Type 0} where
  -- `where: { tenantId, isActive: true }`
  abbrev pub active_in : Uuid → PricingPolicy D → Bool
  active_in tenant p = p.tenant_id == tenant && p.is_active

  -- `where: { id }`
  abbrev pub has_id : Uuid → PricingPolicy D → Bool
  has_id id p = p.id == id

  -- `where: { id, tenantId }`
  abbrev pub owned : Uuid → Uuid → PricingPolicy D → Bool
  owned tenant id p = p.id == id && p.tenant_id == tenant

  -- A write stamps `updatedAt` (`@updatedAt`).
  abbrev pub set_active : Bool → Time → PricingPolicy D → PricingPolicy D
  set_active b now p = record p { is_active = b; updated_at = now }

  -- The `data` of `update`: an absent name leaves the column alone.
  abbrev pub updated_policy :
      UpdatePricingPolicyDto → Time → D → D → PricingPolicy D → PricingPolicy D
  updated_policy dto now base_fare per_km p = record p {
    name = or_else dto.name p.name;
    base_fare = base_fare;
    per_km = per_km;
    updated_at = now;
  }

  abbrev pub write_policies :
      (List (PricingPolicy D) → List (PricingPolicy D)) → Action (Store D) (Unit {0})
  write_policies f = modify (λ s. record s { pricing_policies = f s.pricing_policies })

  -- `updateMany({ where: { tenantId, isActive: true }, data: { isActive: false } })`
  abbrev pub deactivate_all : Uuid → Time → Action (Store D) (Unit {0})
  deactivate_all tenant now = write_policies (update_many (active_in tenant) (set_active false now))

module _ (dec : Decimals) where
  open dec use {Decimal, units, of_string, to_string}

  abbrev pub respond : PricingPolicy Decimal → PolicyResponse
  respond p = record {
    id = p.id;
    name = p.name;
    is_active = p.is_active;
    base_fare = to_string p.base_fare;
    per_km = to_string p.per_km;
    created_at = p.created_at;
    updated_at = p.updated_at;
  }

  -- The row that `create` inserts; `perMin` is left to the column's default, 0.000.
  abbrev pub new_policy :
      Uuid → CreatePricingPolicyDto → Bool → Uuid → Time → Decimal → Decimal → PricingPolicy Decimal
  new_policy tenant dto active id now base_fare per_km = record {
    id = id;
    tenant_id = tenant;
    name = dto.name;
    base_fare = base_fare;
    per_km = per_km;
    per_min = units 3 0;
    is_active = active;
    created_at = now;
    updated_at = now;
  }

  -- `id` is the uuid that the database picks, `now` its clock.
  unfoldable pub create :
      Uuid → CreatePricingPolicyDto → Uuid → Time → Action (Store Decimal) PolicyResponse
  create tenant dto id now = do
    active_count ← gets (λ s. count (active_in tenant) s.pricing_policies)
    let should_activate = or_else dto.is_active false || active_count == 0
    in_transaction (do
      if should_activate then deactivate_all tenant now else pure tt
      base_fare ← or_throw (of_string dto.base_fare) (prisma_error "Invalid value for baseFare")
      per_km ← or_throw (of_string dto.per_km) (prisma_error "Invalid value for perKm")
      let created = new_policy tenant dto should_activate id now base_fare per_km
      write_policies (λ ps. ps ++ created ∷ [])
      pure (respond created))

  -- `dto.x ?? undefined`: an absent decimal leaves the column alone, a malformed one is refused.
  abbrev pub decimal_or : Option String → Decimal → Option Decimal
  decimal_or none old = some old
  decimal_or (some text) old = of_string text

module _ (q : Queries) {D : Type 0} where
  open q use {find_first}

  -- `activate`: the policy and its new state.
  unfoldable pub activate : Uuid → Uuid → Time → Action (Store D) (Uuid × Bool)
  activate tenant id now = do
    found ← gets (λ s. find_first (owned tenant id) s.pricing_policies)
    target ← or_throw found (not_found "Pricing policy not found")
    if target.is_active then pure (id, true) else (do
      deactivate_all tenant now
      write_policies (update_many (has_id id) (set_active true now))
      pure (id, true))

module _ (dec : Decimals) (q : Queries) where
  open dec use {Decimal}
  open q use {find_first}

  unfoldable pub update :
      Uuid → Uuid → UpdatePricingPolicyDto → Time → Action (Store Decimal) PolicyResponse
  update tenant id dto now = do
    found ← gets (λ s. find_first (owned tenant id) s.pricing_policies)
    existing ← or_throw found (not_found "Pricing policy not found")
    base_fare ←
        or_throw (decimal_or dec dto.base_fare existing.base_fare)
          (prisma_error "Invalid value for baseFare")
    per_km ←
        or_throw (decimal_or dec dto.per_km existing.per_km)
          (prisma_error "Invalid value for perKm")
    write_policies (update_many (has_id id) (updated_policy dto now base_fare per_km))
    pure (respond dec (updated_policy dto now base_fare per_km existing))
