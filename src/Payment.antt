-- ===== src/Payment.antt =====
-- The payment of a ride in the driver's app (src/drivers/payments/payments-service.ts): confirming
-- a card payment, taking cash, and who may do so. A row that a primary key selects is found by a
-- plain search.
pub mod Outcome
pub mod Safety
use typescript_version_taxi.Base.{
  Action, Bool, Option, String, false, find, forbidden, gets, if◌then◌else◌, none, not, not_found,
  or_throw, prisma_error, pure, some, some_eq, str_eq, throw_if, true, update_many, ◌==◌, ◌>>=◌,
  ◌>>◌,
}
use typescript_version_taxi.External.Decimals.{Decimals}
use typescript_version_taxi.Ride.Finish.{write_payments}
use typescript_version_taxi.Ride.Guards.{ride_id_is}
use typescript_version_taxi.Schema.{
  Payment, PaymentProvider, PaymentStatus, Store, Time, Uuid, cash, paid, pending,
}

-- The parts of `JwtValidationResult` that the service reads.
pub record Caller : Type 0 where
  pub tenant_id : Uuid
  pub driver_profile_id : Option Uuid

-- In JavaScript a missing `externalPaymentId` falls back to the stored one.
pub record ConfirmPaymentDto : Type 0 where
  pub external_payment_id : Option String
  pub approval_code : Option String

pub record PaymentResponse : Type 0 where
  pub payment_id : Uuid
  pub ride_id : Uuid
  pub amount : String
  pub currency : Option String
  pub status : PaymentStatus
  pub external_payment_id : Option String
  pub captured_at : Option Time
  pub failure_code : Option String
  pub message : Option String
  pub provider : Option PaymentProvider

abbrev pub is_paid : PaymentStatus → Bool
is_paid paid = true
is_paid _ = false

abbrev pub is_pending : PaymentStatus → Bool
is_pending pending = true
is_pending _ = false

-- `text || undefined`
abbrev pub non_empty : Option String → Option String
non_empty none = none
non_empty (some text) = if str_eq text "" then none else some text

-- `a ?? b`
abbrev pub first_of_two : {A : Type 0} → Option A → Option A → Option A
first_of_two none b = b
first_of_two (some a) b = some a

module _ {D : Type 0} where
  abbrev pub payment_id_is : Uuid → Payment D → Bool
  payment_id_is id p = p.id == id

  -- The `data` of the update in `confirmPayment`.
  abbrev pub confirmed : ConfirmPaymentDto → Option String → Time → Payment D → Payment D
  confirmed dto external now p = record p {
    status = paid;
    captured_at = some now;
    external_payment_id = first_of_two dto.external_payment_id external;
    approval_code = first_of_two dto.approval_code p.approval_code;
  }

  -- The `data` of the update in `cashPayment`.
  abbrev pub paid_in_cash : Time → Payment D → Payment D
  paid_in_cash now p = record p {
    status = paid;
    authorized_at = some now;
    captured_at = some now;
    provider = cash;
  }

  -- `findUnique({ where: { id } })`, or `NotFoundException`.
  abbrev pub require_payment : Uuid → Action (Store D) (Payment D)
  require_payment id = do
    found ← gets (λ s. find (payment_id_is id) s.payments)
    or_throw found (not_found "Payment not found")

  -- `update({ where: { id }, data })`, which returns the row; the client throws where there is none.
  abbrev pub update_payment : Uuid → (Payment D → Payment D) → Action (Store D) (Payment D)
  update_payment id f = do
    found ← gets (λ s. find (payment_id_is id) s.payments)
    row ← or_throw found (prisma_error "Record to update not found")
    write_payments (update_many (payment_id_is id) f)
    pure (f row)

  -- The ride is joined to the payment; its foreign key says that it is there.
  unfoldable pub validate_payment_access : Uuid → Caller → Action (Store D) (Unit {0})
  validate_payment_access id user = do
    payment ← require_payment id
    joined ← gets (λ s. find (ride_id_is payment.ride_id) s.rides)
    ride ← or_throw joined (prisma_error "Inconsistent query result")
    throw_if (not (some_eq user.driver_profile_id ride.driver_profile_id))
        (forbidden "you can only access payments for your own rides")
    throw_if (not (payment.tenant_id == user.tenant_id)) (forbidden "Access denied")

module _ (dec : Decimals) where
  open dec use {Decimal, to_string}

  pub get_payment_by_id : Uuid → Action (Store Decimal) PaymentResponse
  get_payment_by_id id = do
    p ← require_payment id
    pure (record {
      payment_id = p.id;
      ride_id = p.ride_id;
      amount = to_string p.amount;
      currency = some p.currency;
      status = p.status;
      external_payment_id = non_empty p.external_payment_id;
      captured_at = p.captured_at;
      failure_code = non_empty p.failure_code;
      message = none;
      provider = none;
    })

  abbrev pub confirm_response : String → Option PaymentProvider → Payment Decimal → PaymentResponse
  confirm_response message provider p = record {
    payment_id = p.id;
    ride_id = p.ride_id;
    amount = to_string p.amount;
    currency = some p.currency;
    status = p.status;
    external_payment_id = non_empty p.external_payment_id;
    captured_at = p.captured_at;
    failure_code = none;
    message = some message;
    provider = provider;
  }

  abbrev pub cash_response : Payment Decimal → PaymentResponse
  cash_response p = record {
    payment_id = p.id;
    ride_id = p.ride_id;
    amount = to_string p.amount;
    currency = none;
    status = p.status;
    external_payment_id = none;
    captured_at = p.captured_at;
    failure_code = none;
    message = none;
    provider = some p.provider;
  }

  -- `now` is the clock.
  unfoldable pub confirm_payment :
      Uuid → Caller → ConfirmPaymentDto → Time → Action (Store Decimal) PaymentResponse
  confirm_payment id user dto now = do
    validate_payment_access id user
    current ← require_payment id
    if is_paid current.status
        then pure (confirm_response "Payment already confirmed" (some current.provider) current)
        else (do
          throw_if (not (is_pending current.status))
              (forbidden "Cannot confirm payment with status")
          row ← update_payment id (confirmed dto current.external_payment_id now)
          pure (confirm_response "Payment confirmed successfully" none row))

  pub cash_payment : Uuid → Caller → Time → Action (Store Decimal) PaymentResponse
  cash_payment id user now = do
    validate_payment_access id user
    payment ← require_payment id
    if is_paid payment.status
        then pure (cash_response payment)
        else (do row ← update_payment id (paid_in_cash now); pure (cash_response row))
