-- ===== src/Tests/Histories.antt =====
-- Sequences of requests: the theorems at the small database.
use typescript_version_taxi.Base.{arith, refl, some, ◌≡◌}
use typescript_version_taxi.Payment.{Caller, cash_payment}
use typescript_version_taxi.Payment.Outcome.{MayPay}
use typescript_version_taxi.Schema.{Store, completed, pending}
use typescript_version_taxi.System.{Call, Reach, after, cash_call, here, next}
use typescript_version_taxi.System.History.{
  Owes, Reach-IsSound, Reach-Owes, Tables, after-Move, cash_clears, stage_in,
}
use typescript_version_taxi.System.Prices.{IsPricing}
use typescript_version_taxi.System.Stages.{Move, cleared, owed}
use typescript_version_taxi.Tests.Database.{Amount, a_payment, a_ride, database}
use typescript_version_taxi.Tests.Parameters.{cal, decimals, queries, tokens}

abbrev cashier : Caller
cashier = record { tenant_id = 1; driver_profile_id = some 5 }

abbrev payment_call : Call decimals
payment_call = cash_call 30 cashier 7000

abbrev later : Call decimals → Store Amount
later c = after decimals queries cal tokens (some "24") (some "merchant") c database

database-Tables : Tables decimals queries cal tokens (some "24") (some "merchant") database
database-Tables = record {
  unique_rides = λ id. ground arith;
  one_open = λ p. ground arith;
  priced = (refl, (refl, tt));
  unique_payments = λ id. ground arith;
  one_payment = λ id. ground arith;
  none_open = (refl, tt);
}

database-IsPricing : IsPricing database
database-IsPricing = record { unique = λ id. ground arith; single = λ t. ground arith }

abbrev payment_MayPay : MayPay database 30 cashier (a_payment pending)
payment_MayPay = record {
  payment_row = refl;
  ride = a_ride 21 completed;
  ride_row = refl;
  own_ride = refl;
  own_tenant = refl;
}

abbrev history :
    Reach decimals queries cal tokens (some "24") (some "merchant") database (later payment_call)
history = next here payment_call tt

after-Move_example :
    Move Amount
      (stage_in decimals queries cal tokens (some "24") (some "merchant") database 21)
      (stage_in decimals queries cal tokens (some "24") (some "merchant") (later payment_call) 21)
after-Move_example =
    after-Move decimals queries cal tokens (some "24") (some "merchant") payment_call database 21 tt
      database-Tables

Reach-IsSound_example :
    Tables decimals queries cal tokens (some "24") (some "merchant") (later payment_call)
    × IsPricing (later payment_call)
Reach-IsSound_example =
    Reach-IsSound decimals queries cal tokens (some "24") (some "merchant") database
      (later payment_call) history database-Tables database-IsPricing

Reach-Owes_example :
    (stage_in decimals queries cal tokens (some "24") (some "merchant") database 21 ≡ owed (2, 4000)
      → Owes
          (2, 4000)
          (stage_in decimals queries cal tokens
            (some "24")
            (some "merchant")
            (later payment_call)
            21))
    × (stage_in decimals queries cal tokens (some "24") (some "merchant") database 21
          ≡ cleared (2, 4000)
        → stage_in decimals queries cal tokens (some "24") (some "merchant") (later payment_call) 21
          ≡ cleared (2, 4000))
Reach-Owes_example =
    Reach-Owes decimals queries cal tokens (some "24") (some "merchant") database
      (later payment_call) 21 (2, 4000) history database-Tables database-IsPricing

cash_clears_example :
    (stage_in decimals queries cal tokens (some "24") (some "merchant") database 21
      ≡ owed (2, 4000))
    × (stage_in decimals queries cal tokens
          (some "24")
          (some "merchant")
          (cash_payment decimals 30 cashier 7000 database).1
          21
        ≡ cleared (2, 4000))
cash_clears_example =
    cash_clears decimals queries cal tokens (some "24") (some "merchant") 30 cashier 7000 database
      (a_payment pending) database-Tables payment_MayPay refl
