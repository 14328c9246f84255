-- ===== src/Tests/Payments.antt =====
-- Paying: the theorems at the small database.
use typescript_version_taxi.Base.{
  Result, arith, false, find, is_ok, none, refl, some, true, ◌≡◌, ◌⊎◌,
}
use typescript_version_taxi.Payment.{
  Caller, ConfirmPaymentDto, PaymentResponse, confirm_payment, payment_id_is,
  validate_payment_access,
}
use typescript_version_taxi.Payment.Outcome.{MayPay}
use typescript_version_taxi.Payment.Safety.{
  SameMoney, UniquePayments, confirm_payment_authorized, confirm_payment_idempotent,
}
use typescript_version_taxi.Schema.{Payment, Store, paid}
use typescript_version_taxi.Tests.Database.{Amount, database}
use typescript_version_taxi.Tests.Parameters.{decimals}

abbrev caller : Caller
caller = record { tenant_id = 1; driver_profile_id = some 5 }

abbrev confirm_dto : ConfirmPaymentDto
confirm_dto = record { external_payment_id = some "ext"; approval_code = none }

abbrev confirmation : Result PaymentResponse × Store Amount
confirmation = confirm_payment decimals 30 caller confirm_dto 7000 database

confirmation_ok : is_ok confirmation.0 ≡ true
unfolding confirm_payment validate_payment_access
confirmation_ok = refl

database-UniquePayments : UniquePayments database.payments
database-UniquePayments id = ground arith

confirm_payment_authorized_example :
    ((is_ok confirmation.0 ≡ false) × (confirmation.1 ≡ database))
    ⊎ ((p : Payment Amount) × MayPay database 30 caller p
        × (p' : Payment Amount) × (find (payment_id_is 30) confirmation.1.payments ≡ some p')
        × (p'.status ≡ paid)
        × SameMoney p p')
confirm_payment_authorized_example =
    confirm_payment_authorized decimals 30 caller 7000 confirm_dto database

confirm_payment_idempotent_example :
    (is_ok (confirm_payment decimals 30 caller confirm_dto 8000 confirmation.1).0 ≡ true)
    × ((confirm_payment decimals 30 caller confirm_dto 8000 confirmation.1).1 ≡ confirmation.1)
confirm_payment_idempotent_example =
    confirm_payment_idempotent decimals 30 caller 7000 confirm_dto confirm_dto 8000 database
      confirmation_ok
