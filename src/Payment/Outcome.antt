-- ===== src/Payment/Outcome.antt =====
-- How `confirmPayment` and `cashPayment` end.
use typescript_version_taxi.Base.{
  Bool-cases, Exception, Option-cases, Result, arith, false, find, forbidden, inl, inr, is_ok, none,
  not_found, ok, prisma_error, some, some_eq, thrown, true, update_many, ◌==◌, ◌≡◌, ◌⊎◌,
}
use typescript_version_taxi.External.Decimals.{Decimals}
use typescript_version_taxi.Payment.{
  Caller, ConfirmPaymentDto, PaymentResponse, cash_payment, cash_response, confirm_payment,
  confirm_response, confirmed, is_paid, is_pending, paid_in_cash, payment_id_is,
  validate_payment_access,
}
use typescript_version_taxi.Ride.Guards.{ride_id_is}
use typescript_version_taxi.Schema.{Payment, PaymentStatus, Ride, Store, Time, Uuid, paid, pending}

pub paid_of : (status : PaymentStatus) → is_paid status ≡ true → status ≡ paid
paid_of status h = ground arith

pending_of : (status : PaymentStatus) → is_pending status ≡ true → status ≡ pending
pending_of status h = ground arith

module _ {D : Type 0} where
  -- The caller drives the ride of the payment, in the payment's tenant.
  pub record MayPay (s : Store D) (id : Uuid) (user : Caller) (p : Payment D) : Type 0 where
    pub payment_row : find (payment_id_is id) s.payments ≡ some p
    pub ride : Ride D
    pub ride_row : find (ride_id_is p.ride_id) s.rides ≡ some ride
    pub own_ride : user.driver_profile_id ≡ some ride.driver_profile_id
    pub own_tenant : p.tenant_id ≡ user.tenant_id

  -- The check passes, or throws; it reads only.
  access_cases :
      (s : Store D) (id : Uuid) (user : Caller)
      → ((e : Exception) × (validate_payment_access id user s ≡ (thrown e, s)))
        ⊎ ((p : Payment D) × MayPay s id user p × (validate_payment_access id user s ≡ (ok tt, s)))
  unfolding validate_payment_access
  access_cases s id user = elim (Option-cases (find (payment_id_is id) s.payments)) [
    | inl e ↦ inl (not_found "Payment not found", ground arith)
    | inr (p, e) ↦ elim (Option-cases (find (ride_id_is p.ride_id) s.rides)) [
      | inl f ↦ inl (prisma_error "Inconsistent query result", ground arith)
      | inr (r, f) ↦ elim (Bool-cases (some_eq user.driver_profile_id r.driver_profile_id)) [
        | inr other ↦
            inl (forbidden "you can only access payments for your own rides", ground arith)
        | inl own ↦ elim (Bool-cases (p.tenant_id == user.tenant_id)) [
          | inr away ↦ inl (forbidden "Access denied", ground arith)
          | inl home ↦ inr (
            p,
            record {
              payment_row = e;
              ride = r;
              ride_row = f;
              own_ride = ground arith;
              own_tenant = ground arith;
            },
            ground arith,
          )
        ]
      ]
    ]
  ]

module _ {D : Type 0} where
  access_ok :
      (s : Store D) (id : Uuid) (user : Caller) (p : Payment D)
      → MayPay s id user p
      → validate_payment_access id user s ≡ (ok tt, s)
  unfolding validate_payment_access
  access_ok s id user p may =
      ground (arith, may.payment_row, may.ride_row, may.own_ride, may.own_tenant)

-- The three ways in which a call ends: refused, nothing to do, or the payment's row written by `f`.
module _ {D : Type 0} (s : Store D) (id : Uuid) (user : Caller) (Payable : PaymentStatus → Type 0)
    (f : Payment D → Payment D → Payment D) where
  pub data Outcome (r : Result PaymentResponse × Store D) : Type 0 where
    refused : (e : Exception) → r ≡ (thrown e, s) → Outcome r
    already :
        (p : Payment D) (answer : PaymentResponse)
        → MayPay s id user p
        → p.status ≡ paid
        → r ≡ (ok answer, s)
        → Outcome r
    written :
        (p : Payment D) (answer : PaymentResponse)
        → MayPay s id user p
        → Payable p.status
        → r ≡ (ok answer, record s { payments = update_many (payment_id_is id) (f p) s.payments })
        → Outcome r

module _ (dec : Decimals) (id : Uuid) (user : Caller) (now : Time) where
  open dec use {Decimal}

  pub confirm_payment-Outcome :
      (dto : ConfirmPaymentDto) (s : Store Decimal)
      → Outcome s id user
          (λ status. status ≡ pending)
          (λ p. confirmed dto p.external_payment_id now)
          (confirm_payment dec id user dto now s)
  unfolding confirm_payment
  confirm_payment-Outcome dto s = elim (access_cases s id user) [
    | inl (e, h) ↦ refused e (ground arith)
    | inr (p, may, h) ↦ elim (Bool-cases (is_paid p.status)) [
      | inl yet ↦
          already p (confirm_response dec "Payment already confirmed" (some p.provider) p) may
            (paid_of p.status yet) (ground (arith, may.payment_row))
      | inr unpaid ↦ elim (Bool-cases (is_pending p.status)) [
        | inl due ↦
            written p
              (confirm_response dec "Payment confirmed successfully" none
                (confirmed dto p.external_payment_id now p))
              may (pending_of p.status due) (ground (arith, may.payment_row))
        | inr odd ↦
            refused (forbidden "Cannot confirm payment with status")
              (ground (arith, may.payment_row))
      ]
    ]
  ]

  pub cash_payment-Outcome :
      (s : Store Decimal)
      → Outcome s id user
          (λ status. is_paid status ≡ false)
          (λ p. paid_in_cash now)
          (cash_payment dec id user now s)
  unfolding cash_payment
  cash_payment-Outcome s = elim (access_cases s id user) [
    | inl (e, h) ↦ refused e (ground arith)
    | inr (p, may, h) ↦ elim (Bool-cases (is_paid p.status)) [
      | inl yet ↦
          already p (cash_response dec p) may (paid_of p.status yet)
            (ground (arith, may.payment_row))
      | inr unpaid ↦
          written p (cash_response dec (paid_in_cash now p)) may unpaid
            (ground (arith, may.payment_row))
    ]
  ]

  -- Whoever may pay a paid payment is answered, and nothing is written.
  pub confirm_payment_again :
      (dto : ConfirmPaymentDto) (s : Store Decimal) (p : Payment Decimal)
      → MayPay s id user p
      → p.status ≡ paid
      → confirm_payment dec id user dto now s
        ≡ (ok (confirm_response dec "Payment already confirmed" (some p.provider) p), s)
  unfolding confirm_payment
  confirm_payment_again dto s p may e =
      ground (arith, access_ok s id user p may, may.payment_row, e)

  -- Whoever may pay is not refused.
  pub cash_payment_ok :
      (s : Store Decimal) (p : Payment Decimal)
      → MayPay s id user p
      → is_ok (cash_payment dec id user now s).0 ≡ true
  unfolding cash_payment
  cash_payment_ok s p may = ground (arith, access_ok s id user p may, may.payment_row)
