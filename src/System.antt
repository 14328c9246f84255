-- ===== src/System.antt =====
-- The services together: nine of the requests that write, in any order, on one database. The
-- administration's writes to rides, payments and drivers (src/admin/services) are not among them.
pub mod Changes
pub mod Refines
pub mod Rules
pub mod Stages
pub mod Prices
pub mod History
use typescript_version_taxi.Base.{Option, String, count, ◌≡◌}
use typescript_version_taxi.External.Calendar.{Calendar}
use typescript_version_taxi.External.Decimals.{Decimals}
use typescript_version_taxi.External.Jwt.{Jwt}
use typescript_version_taxi.External.Queries.{Queries}
use typescript_version_taxi.Payment.{
  Caller, ConfirmPaymentDto, cash_payment, confirm_payment, payment_id_is,
}
use typescript_version_taxi.Pricing.{
  CreatePricingPolicyDto, UpdatePricingPolicyDto, activate, create, has_id, update,
}
use typescript_version_taxi.Receipt.{generate_receipt}
use typescript_version_taxi.Ride.Finish.{EndRideDto, end_ride, payment_of}
use typescript_version_taxi.Ride.Guards.{ride_id_is}
use typescript_version_taxi.Ride.Start.{StartRideDto, start_ride}
use typescript_version_taxi.Schema.{Store, Time, Uuid}
use typescript_version_taxi.Webhook.{VivaWebhookPayload, process_payment_created_event}

module _ (dec : Decimals) where
  open dec use {Decimal, Number}

  -- One of the nine requests with all its arguments: who calls, the ids of new rows, the clock.
  pub data Call : Type 0 where
    start_call : StartRideDto → Uuid → Uuid → Uuid → Time → Call
    end_call : EndRideDto Number → Uuid → Uuid → Uuid → Time → Call
    confirm_call : Uuid → Caller → ConfirmPaymentDto → Time → Call
    cash_call : Uuid → Caller → Time → Call
    notify_call : VivaWebhookPayload → Uuid → Time → Call
    create_call : Uuid → CreatePricingPolicyDto → Uuid → Time → Call
    update_call : Uuid → Uuid → UpdatePricingPolicyDto → Time → Call
    activate_call : Uuid → Uuid → Time → Call
    receipt_call : Uuid → Uuid → Uuid → Uuid → String → Time → Call

  -- The ids that the database picks for new rows are new.
  abbrev pub Fresh : Call → Store Decimal → Type 0
  Fresh (start_call dto user tenant id now) s =
      (count (ride_id_is id) s.rides ≡ 0) × (count (payment_of id) s.payments ≡ 0)
  Fresh (end_call dto user tenant payment_id now) s =
      count (payment_id_is payment_id) s.payments ≡ 0
  Fresh (create_call tenant dto id now) s = count (has_id id) s.pricing_policies ≡ 0
  Fresh _ s = Unit

  module _ (q : Queries) (cal : Calendar) (jwt : Jwt) (tax_env merchant_env : Option String) where
    -- The database after one of them, whether it throws or not.
    pub after : Call → Store Decimal → Store Decimal
    after (start_call dto user tenant id now) s = (start_ride dec q dto user tenant id now s).1
    after (end_call dto user tenant payment_id now) s =
        (end_ride dec q cal tax_env dto user tenant payment_id now s).1
    after (confirm_call id user dto now) s = (confirm_payment dec id user dto now s).1
    after (cash_call id user now) s = (cash_payment dec id user now s).1
    after (notify_call payload id now) s =
        (process_payment_created_event dec merchant_env payload id now s).1
    after (create_call tenant dto id now) s = (create dec tenant dto id now s).1
    after (update_call tenant id dto now) s = (update dec q tenant id dto now s).1
    after (activate_call tenant id now) s = (activate q tenant id now s).1
    after (receipt_call ride_id tenant user id public_id now) s =
        (generate_receipt q jwt ride_id tenant user id public_id now s).1

    -- The databases that a sequence of them leads to.
    pub data Reach (s : Store Decimal) : Store Decimal → Type 0 where
      here : Reach s s
      next : {t : Store Decimal} → Reach s t → (c : Call) → Fresh c t → Reach s (after c t)
