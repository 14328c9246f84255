-- ===== src/Pricing/Responses.antt =====
-- The answers about policies, and how a row becomes one.
use typescript_version_taxi.Base.{Bool, List, String}
use typescript_version_taxi.External.Decimals.{Decimals}
use typescript_version_taxi.Schema.{
  FixedPricePolicy, PricingPolicy, RidePricingMode, Tenant, Time, Uuid, custom_fixed, fixed_price,
  meter,
}

-- What an answer says of the tenant of a policy.
pub record TenantInfo : Type 0 where
  pub id : Uuid
  pub name : String
  pub business_id : String

pub record CreateFixedPricePolicyDto : Type 0 where
  pub name : String
  pub amount : String

pub record FixedPricePolicyResponse : Type 0 where
  pub id : Uuid
  pub tenant_id : Uuid
  pub tenant_name : String
  pub name : String
  pub amount : String
  pub created_at : Time

pub record MeterPolicyInfo : Type 0 where
  pub id : Uuid
  pub tenant_id : Uuid
  pub name : String
  pub per_km : String
  pub per_min : String
  pub base_fare : String
  pub is_active : Bool
  pub created_at : Time
  pub updated_at : Time
  pub tenant : TenantInfo

pub record FixedPolicyInfo : Type 0 where
  pub id : Uuid
  pub tenant_id : Uuid
  pub name : String
  pub amount : String
  pub created_at : Time
  pub tenant : TenantInfo

-- The two lists; the third member of the answer is a constant text.
pub record AllPolicies : Type 0 where
  pub meter_policies : List MeterPolicyInfo
  pub fixed_price_policies : List FixedPolicyInfo

pub record MeterOption : Type 0 where
  pub id : Uuid
  pub name : String
  pub is_active : Bool
  pub base_fare : String
  pub per_km : String
  pub per_min : String
  pub mode : RidePricingMode
  pub tenant : TenantInfo

pub record FixedOption : Type 0 where
  pub id : Uuid
  pub name : String
  pub amount : String
  pub mode : RidePricingMode
  pub tenant : TenantInfo

pub record CustomFixedOption : Type 0 where
  pub min_amount : String
  pub max_amount : String
  pub description : String
  pub mode : RidePricingMode

pub record AvailablePricingOptions : Type 0 where
  pub meter_policy : MeterOption
  pub fixed_price_policies : List FixedOption
  pub custom_fixed_option : CustomFixedOption

abbrev tenant_info : Tenant → TenantInfo
tenant_info t = record { id = t.id; name = t.name; business_id = t.business_id }

module _ (dec : Decimals) where
  open dec use {Decimal, to_string}

  abbrev pub meter_info : Tenant → PricingPolicy Decimal → MeterPolicyInfo
  meter_info t p = record {
    id = p.id;
    tenant_id = p.tenant_id;
    name = p.name;
    per_km = to_string p.per_km;
    per_min = to_string p.per_min;
    base_fare = to_string p.base_fare;
    is_active = p.is_active;
    created_at = p.created_at;
    updated_at = p.updated_at;
    tenant = tenant_info t;
  }

  abbrev pub fixed_info : Tenant → FixedPricePolicy Decimal → FixedPolicyInfo
  fixed_info t p = record {
    id = p.id;
    tenant_id = p.tenant_id;
    name = p.name;
    amount = to_string p.amount;
    created_at = p.created_at;
    tenant = tenant_info t;
  }

  abbrev pub meter_option : Tenant → PricingPolicy Decimal → MeterOption
  meter_option t p = record {
    id = p.id;
    name = p.name;
    is_active = p.is_active;
    base_fare = to_string p.base_fare;
    per_km = to_string p.per_km;
    per_min = to_string p.per_min;
    mode = meter;
    tenant = tenant_info t;
  }

  abbrev pub fixed_option : Tenant → FixedPricePolicy Decimal → FixedOption
  fixed_option t p = record {
    id = p.id;
    name = p.name;
    amount = to_string p.amount;
    mode = fixed_price;
    tenant = tenant_info t;
  }

  abbrev pub custom_option : CustomFixedOption
  custom_option = record {
    min_amount = "5.00";
    max_amount = "999.99";
    description = "Set your own fare amount";
    mode = custom_fixed;
  }
