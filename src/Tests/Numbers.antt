-- ===== src/Tests/Numbers.antt =====
-- Receipt numbers: the theorems at the small database.
use typescript_version_taxi.Base.{
  Result, [], arith, count, length, ok, refl, some, ◌+◌, ◌-◌, ◌∷◌, ◌≡◌, ◌⊎◌,
}
use typescript_version_taxi.Base.Digits.{before_dash, behind_dash, read}
use typescript_version_taxi.Numbering.{
  NumberingResult, all_assigned, assign_simplified_receipt_numbers, due_payments, format_number,
  last_number, nothing_assigned, yyyymm,
}
use typescript_version_taxi.Numbering.Assign.{
  assign_numbers_all, before_run, due_now, renumbered, run_assign, used,
}
use typescript_version_taxi.Numbering.Invariant.{UniqueNumbers, assign_numbers-UniqueNumbers}
use typescript_version_taxi.Numbering.Issue.{Distinct, Free, assigned_from}
use typescript_version_taxi.Numbering.Order.{IsOrdered, is_open_bill}
use typescript_version_taxi.Numbering.Rerun.{assign_numbers_again}
use typescript_version_taxi.Numbering.Texts.{format_number-read}
use typescript_version_taxi.Schema.{Payment, PaymentStatus, Store, Time, Uuid, paid, pending}
use typescript_version_taxi.Tests.Database.{Amount, a_payment, database}
use typescript_version_taxi.Tests.Parameters.{cal, queries}

abbrev bill : Uuid → PaymentStatus → Time → Payment Amount
bill id status at = record (a_payment status) { id = id; captured_at = some at }

-- Two paid payments of one month, in the order of their ids the later one first.
abbrev billed : Store Amount
billed = record database {
  payments = bill 30 paid 5000 ∷ bill 31 paid 4000 ∷ bill 32 pending 1 ∷ [];
}

billed-Distinct : Distinct billed.payments
billed-Distinct id = ground arith

billed-UniqueNumbers : UniqueNumbers cal billed
billed-UniqueNumbers = record {
  once = λ tenant t n. ground arith;
  unused = λ tenant t n late. ground arith;
}

billed-Free : Free cal 1 (yyyymm cal 1000) billed.payments (used 1 (yyyymm cal 1000) billed)
billed-Free n late = ground arith

one_month : yyyymm cal 1000 ≡ yyyymm cal (9000 - 1)
unfolding yyyymm
one_month = refl

format_number-read_example :
    (before_dash (format_number (yyyymm cal 1000) 12) ≡ yyyymm cal 1000)
    × (read (behind_dash (format_number (yyyymm cal 1000) 12)) ≡ 12)
format_number-read_example = format_number-read cal 1000 12

assign_numbers-UniqueNumbers_example :
    UniqueNumbers cal (assign_simplified_receipt_numbers queries cal (some 1) 1000 9000 billed).1
    × Distinct (assign_simplified_receipt_numbers queries cal (some 1) 1000 9000 billed).1.payments
assign_numbers-UniqueNumbers_example =
    assign_numbers-UniqueNumbers queries cal (some 1) 1000 9000 billed billed-Distinct
      billed-UniqueNumbers

abbrev months_run : Result NumberingResult × Store Amount
months_run = run_assign queries cal 1 1000 9000 billed

assign_numbers_again_example : run_assign queries cal 1 1000 9000 months_run.1 ≡ (
  ok (
      nothing_assigned 1
        (yyyymm cal 1000)
        (last_number 1 (yyyymm cal 1000) months_run.1)
        (length (due_payments queries cal 1 1000 9000 billed))),
  months_run.1,
)
assign_numbers_again_example =
    assign_numbers_again queries cal 1 1000 9000 billed billed-Distinct (omega arith) one_month refl
      billed-Free

assign_numbers_all_example :
    IsOrdered 1000 9000 1 billed.payments (due_now queries cal 1 1000 9000 billed)
    × (length (due_now queries cal 1 1000 9000 billed)
        ≡ count (is_open_bill 1 1000 9000) billed.payments)
    × (((due_now queries cal 1 1000 9000 billed ≡ [])
          × (months_run ≡ (
            ok (
                nothing_assigned 1
                  (yyyymm cal 1000)
                  (last_number 1 (yyyymm cal 1000) billed)
                  (before_run queries cal 1 1000 9000 billed)),
            billed,
          )))
        ⊎ (months_run ≡ (
          ok (
              all_assigned 1
                (yyyymm cal 1000)
                (
                  used 1 (yyyymm cal 1000) billed,
                  used 1 (yyyymm cal 1000) billed + length (due_now queries cal 1 1000 9000 billed),
                  assigned_from
                      (yyyymm cal 1000)
                      (used 1 (yyyymm cal 1000) billed)
                      (due_now queries cal 1 1000 9000 billed),
                )
                (before_run queries cal 1 1000 9000 billed)),
          renumbered 1 (yyyymm cal 1000) (due_now queries cal 1 1000 9000 billed) billed,
        )))
assign_numbers_all_example =
    assign_numbers_all queries cal 1 1000 9000 billed billed-Distinct (omega arith) one_month refl
      billed-Free
