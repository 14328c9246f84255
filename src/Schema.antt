-- ===== src/Schema.antt =====
-- The stored data (prisma/schema.prisma): one record for each table that the services modelled here
-- read or write, with the columns that they use. Decimals are those of the parameter `D`; times are
-- milliseconds; a uuid is only compared, so it is a number.
use typescript_version_taxi.Base.{Bool, List, Option, String, ℕ}

abbrev pub Uuid : Type 0
Uuid = ℕ

abbrev pub Time : Type 0
Time = ℕ

pub data Role : Type 0 where
  admin driver manager : Role

pub data UserStatus : Type 0 where
  active offline : UserStatus

pub data RideStatus : Type 0 where
  draft ongoing completed cancelled : RideStatus

pub data PaymentProvider : Type 0 where
  cash viva : PaymentProvider

pub data PaymentStatus : Type 0 where
  requires_action pending paid failed refunded submitted : PaymentStatus

pub data RidePricingMode : Type 0 where
  meter fixed_price custom_fixed : RidePricingMode

-- One entry of `settingsJson.surcharges`; a missing member is `none`.
pub record Surcharge : Type 0 where
  pub start : Option (List ℕ)
  pub end : Option (List ℕ)
  pub multiplier : Option String

-- `surcharges` is `none` where `settingsJson` is null or holds no array of that name.
pub record Tenant : Type 0 where
  pub id : Uuid
  pub name : String
  pub business_id : String
  pub surcharges : Option (List Surcharge)
  pub deleted_at : Option Time

-- `password_hash` is the text that bcrypt makes.
pub record User : Type 0 where
  pub id : Uuid
  pub email : String
  pub password_hash : String
  pub status : UserStatus

pub record Membership : Type 0 where
  pub user_id : Uuid
  pub tenant_id : Uuid
  pub role : Role

-- `is_active` is `status === 'ACTIVE'`.
pub record DriverProfile : Type 0 where
  pub id : Uuid
  pub tenant_id : Uuid
  pub user_id : Uuid
  pub first_name : String
  pub last_name : String
  pub is_active : Bool

pub record Invitation : Type 0 where
  pub id : Uuid
  pub tenant_id : Uuid
  pub email : String
  pub role : Role
  pub token : String
  pub expires_at : Time
  pub accepted_at : Option Time
  pub invited_by_user_id : Option Uuid
  pub driver_profile_id : Option Uuid

module _ (D : Type 0) where
  pub record PricingPolicy : Type 0 where
    pub id : Uuid
    pub tenant_id : Uuid
    pub name : String
    pub base_fare : D
    pub per_km : D
    pub per_min : D
    pub is_active : Bool
    pub created_at : Time
    pub updated_at : Time

  pub record FixedPricePolicy : Type 0 where
    pub id : Uuid
    pub tenant_id : Uuid
    pub driver_profile_id : Option Uuid
    pub name : String
    pub amount : D
    pub is_active : Bool
    pub created_at : Time

  pub record Ride : Type 0 where
    pub id : Uuid
    pub status : RideStatus
    pub tenant_id : Uuid
    pub driver_profile_id : Uuid
    pub started_at : Time
    pub ended_at : Option Time
    pub distance_km : Option D
    pub duration_min : Option D
    pub fare_subtotal : Option D
    pub tax_amount : Option D
    pub fare_total : Option D
    pub pricing_mode : RidePricingMode
    pub pricing_policy_id : Option Uuid
    pub fixed_price_policy_id : Option Uuid
    pub custom_fixed_fare : Option D

  pub record Payment : Type 0 where
    pub id : Uuid
    pub ride_id : Uuid
    pub tenant_id : Uuid
    pub provider : PaymentProvider
    pub amount : D
    pub tax_amount : Option D
    pub net_amount : Option D
    pub currency : String
    pub status : PaymentStatus
    pub created_at : Time
    pub authorized_at : Option Time
    pub captured_at : Option Time
    pub failure_code : Option String
    pub external_payment_id : Option String
    pub number_period : Option (List ℕ)
    pub receipt_number : Option (List ℕ)
    pub approval_code : Option String

-- What a receipt shows, fixed when it is issued (`SnapshotJson`).
module _ (D : Type 0) where
  pub record Snapshot : Type 0 where
    pub tenant_name : String
    pub tenant_id : Uuid
    pub business_id : String
    pub ride_id : Uuid
    pub started_at : Time
    pub ended_at : Option Time
    pub distance_km : Option D
    pub duration_min : Option D
    pub payment_id : Uuid
    pub payment_status : PaymentStatus
    pub provider : PaymentProvider
    pub external_payment_id : Option String
    pub captured_at : Option Time
    pub subtotal : D
    pub currency : String
    pub issued_at : Time

  pub record Receipt : Type 0 where
    pub id : Uuid
    pub tenant_id : Uuid
    pub ride_id : Uuid
    pub payment_id : Uuid
    pub public_id : String
    pub is_issued : Bool
    pub issued_at : Time
    pub expires_at : Option Time
    pub data_json : Snapshot

pub record NumberSequence : Type 0 where
  pub tenant_id : Uuid
  pub period : List ℕ
  pub current : ℕ

-- The texts that `errorMessage` holds, with what they interpolate.
pub data WebhookFailure : Type 0 where
  unsupported_event_type : Option ℕ → WebhookFailure
  event_data_missing missing_required_fields : WebhookFailure
  merchant_mismatch : String → String → WebhookFailure
  payment_not_found : Uuid → WebhookFailure
  amount_mismatch : ℕ → ℕ → WebhookFailure

pub record WebhookEvent : Type 0 where
  pub id : Uuid
  pub external_id : String
  pub received_at : Time
  pub processed_at : Option Time
  pub attempt_count : ℕ
  pub payment_id : Option Uuid
  pub ride_id : Option Uuid
  pub error_message : Option WebhookFailure

module _ (D : Type 0) where
  -- The whole database.
  pub record Store : Type 0 where
    pub tenants : List Tenant
    pub users : List User
    pub memberships : List Membership
    pub invitations : List Invitation
    pub driver_profiles : List DriverProfile
    pub pricing_policies : List (PricingPolicy D)
    pub fixed_price_policies : List (FixedPricePolicy D)
    pub rides : List (Ride D)
    pub payments : List (Payment D)
    pub receipts : List (Receipt D)
    pub number_sequences : List NumberSequence
    pub webhook_events : List WebhookEvent
