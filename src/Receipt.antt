-- ===== src/Receipt.antt =====
-- Receipts (src/drivers/receipts): issuing one for a paid ride, the link to it, and what the link
-- shows.
pub mod Escape
pub mod Issue
pub mod Certified
pub mod Link
use typescript_version_taxi.Base.{
  Action, Bool, List, Option, String, [], conflict, false, find, gets, ltb, modify, none, not,
  not_found, or_throw, plain_error, pure, some, str_eq, throw_if, true, unauthorized, update_many,
  ℕ, ◌&&◌, ◌*◌, ◌++◌, ◌+◌, ◌==◌, ◌>>=◌, ◌>>◌, ◌∷◌,
}
use typescript_version_taxi.External.Jwt.{Claims, Jwt}
use typescript_version_taxi.External.Queries.{Queries}
use typescript_version_taxi.Payment.{is_paid}
use typescript_version_taxi.Ride.Guards.{is_completed, require_driver, require_tenant}
use typescript_version_taxi.Schema.{
  DriverProfile, Payment, PaymentStatus, Receipt, Ride, Snapshot, Store, Tenant, Time, Uuid,
}

-- The answer of `generateReceipt`; its `receiptUrl` is the public id with the token.
module _ (D Token : Type 0) where
  pub record GenerateReceiptResponse : Type 0 where
    pub token : Token
    pub receipt_id : Uuid
    pub public_id : String
    pub expires_at : Option Time
    pub issued_at : Time
    pub is_issued : Bool
    pub ride_id : Uuid
    pub payment_id : Uuid
    pub payment_status : PaymentStatus
    pub amount : D
    pub currency : String

abbrev pub day : ℕ
day = 1000 * 60 * 60 * 24

module _ {D : Type 0} where
  -- `where: { id, tenantId, driverProfileId }`
  abbrev pub own_ride : Uuid → Uuid → Uuid → Ride D → Bool
  own_ride id tenant profile r =
      r.id == id && r.tenant_id == tenant && r.driver_profile_id == profile

  -- `where: { rideId, tenantId }`
  abbrev pub payment_in : Uuid → Uuid → Payment D → Bool
  payment_in ride tenant p = p.ride_id == ride && p.tenant_id == tenant

  abbrev pub receipt_of : Uuid → Receipt D → Bool
  receipt_of ride r = r.ride_id == ride

  abbrev pub receipt_id_is : Uuid → Receipt D → Bool
  receipt_id_is id r = r.id == id

  abbrev pub published : String → Receipt D → Bool
  published public_id r = str_eq r.public_id public_id

  abbrev pub write_receipts : (List (Receipt D) → List (Receipt D)) → Action (Store D) (Unit {0})
  write_receipts f = modify (λ s. record s { receipts = f s.receipts })

  abbrev pub snapshot : Tenant → Ride D → Payment D → Time → Snapshot D
  snapshot t ride p now = record {
    tenant_name = t.name;
    tenant_id = t.id;
    business_id = t.business_id;
    ride_id = ride.id;
    started_at = ride.started_at;
    ended_at = ride.ended_at;
    distance_km = ride.distance_km;
    duration_min = ride.duration_min;
    payment_id = p.id;
    payment_status = p.status;
    provider = p.provider;
    external_payment_id = p.external_payment_id;
    captured_at = p.captured_at;
    subtotal = p.amount;
    currency = p.currency;
    issued_at = now;
  }

  -- The `data` of the update: the public id stays.
  abbrev pub reissued : Payment D → Snapshot D → Time → Receipt D → Receipt D
  reissued p shown now r = record r {
    expires_at = some (now + day);
    is_issued = true;
    issued_at = now;
    payment_id = p.id;
    data_json = shown;
  }

  abbrev pub new_receipt : Uuid → Uuid → Payment D → Snapshot D → Uuid → String → Time → Receipt D
  new_receipt tenant ride p shown id public_id now = record {
    id = id;
    tenant_id = tenant;
    ride_id = ride;
    payment_id = p.id;
    public_id = public_id;
    is_issued = true;
    issued_at = now;
    expires_at = some (now + day);
    data_json = shown;
  }

-- `ReceiptLinkTokenService.sign`
abbrev pub link_claims : String → Uuid → Claims
link_claims public_id tenant = record {
  public_id = public_id;
  tenant_id = some tenant;
  typ = some "receipt-link";
}

abbrev pub has_expired : Option Time → Time → Bool
has_expired none now = false
has_expired (some at) now = ltb at now

-- `payload.tenantId && receipt.tenantId !== payload.tenantId`
abbrev pub is_foreign : Uuid → Option Uuid → Bool
is_foreign tenant none = false
is_foreign tenant (some claimed) = not (tenant == claimed)

abbrev pub is_receipt_link : Option String → Bool
is_receipt_link none = false
is_receipt_link (some typ) = str_eq typ "receipt-link"

module _ (q : Queries) (jwt : Jwt) {D : Type 0} where
  open q use {find_first}
  open jwt use {Token, sign, verify}

  -- The receipt of the ride is written anew, or inserted under a random public id.
  unfoldable pub upsert_receipt :
      Tenant → Uuid → Ride D → Payment D → Uuid → String → Time → Action (Store D) (Receipt D)
  upsert_receipt t tenant ride p id public_id now = do
    existing ← gets (λ s. find_first (receipt_of ride.id) s.receipts)
    let shown = snapshot t ride p now
    elim existing [
      | none ↦
          write_receipts (λ rs. rs ++ new_receipt tenant ride.id p shown id public_id now ∷ [])
          >> pure (new_receipt tenant ride.id p shown id public_id now)
      | some r ↦
          write_receipts (update_many (receipt_id_is r.id) (reissued p shown now))
          >> pure (reissued p shown now r)
    ]

  abbrev pub receipt_response :
      Uuid → Ride D → Payment D → Time → Receipt D → GenerateReceiptResponse D Token
  receipt_response tenant ride p now r = record {
    token = sign (link_claims r.public_id tenant) (60 * 24 * 7) now;
    receipt_id = r.id;
    public_id = r.public_id;
    expires_at = r.expires_at;
    issued_at = r.issued_at;
    is_issued = r.is_issued;
    ride_id = ride.id;
    payment_id = p.id;
    payment_status = p.status;
    amount = p.amount;
    currency = p.currency;
  }

  -- What follows the checks of the tenant and of the driver.
  unfoldable pub issue_receipt :
      Uuid
      → Uuid
      → Uuid
      → String
      → Time
      → Tenant
      → DriverProfile
      → Action (Store D) (GenerateReceiptResponse D Token)
  issue_receipt ride_id tenant id public_id now t profile = do
    found ← gets (λ s. find_first (own_ride ride_id tenant profile.id) s.rides)
    ride ← or_throw found (not_found "Ride not found for this driver")
    throw_if (not (is_completed ride.status))
        (conflict "Cannot generate receipt for incomplete ride")
    found_payment ← gets (λ s. find_first (payment_in ride.id tenant) s.payments)
    payment ← or_throw found_payment (not_found "No paid payment found for this ride")
    throw_if (not (is_paid payment.status)) (conflict "Cannot generate receipt for unpaid ride")
    receipt ← upsert_receipt t tenant ride payment id public_id now
    pure (receipt_response tenant ride payment now receipt)

  -- `id` is the uuid of a new receipt, `public_id` the random text for it, `now` the clock.
  unfoldable pub generate_receipt :
      Uuid → Uuid → Uuid → Uuid → String → Time → Action (Store D) (GenerateReceiptResponse D Token)
  generate_receipt ride_id tenant user id public_id now = do
    t ← require_tenant q (plain_error "Tenant not found or deleted") tenant
    profile ← require_driver q user tenant
    issue_receipt ride_id tenant id public_id now t profile

  -- The public id and the data that `buildHtml` prints.
  unfoldable pub render_receipt_html :
      String → Token → Time → Action (Store D) (String × Snapshot D)
  render_receipt_html public_id token now = do
    payload ← or_throw (verify token now) (unauthorized "Invalid or expired token")
    throw_if (not (str_eq payload.public_id public_id))
        (unauthorized "Token does not match receipt")
    throw_if (not (is_receipt_link payload.typ)) (unauthorized "Invalid token type")
    found ← gets (λ s. find (published public_id) s.receipts)
    receipt ← or_throw found (not_found "Receipt not found")
    throw_if (has_expired receipt.expires_at now) (unauthorized "Receipt has expired")
    throw_if (is_foreign receipt.tenant_id payload.tenant_id)
        (unauthorized "Token tenant does not match receipt tenant")
    pure (receipt.public_id, receipt.data_json)
