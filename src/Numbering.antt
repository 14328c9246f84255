-- ===== src/Numbering.antt =====
-- Receipt numbers (src/admin/exports/numbering.service.ts): the paid payments of a month get
-- consecutive numbers. Texts are lists of character codes; dates are valid, since they are times.
pub mod Months
pub mod Texts
pub mod Issue
pub mod Window
pub mod Order
pub mod Assign
pub mod Rerun
pub mod Unique
pub mod Invariant
use typescript_version_taxi.Base.{
  Action, Bool, List, Option, [], bad_request, false, filter, find, forbidden, gets, if◌then◌else◌,
  in_transaction, is_some, leb, length, ltb, modify, none, not, or_else, or_throw, plain_error,
  prisma_error, pure, some, throw_if, true, update_many, ℕ, ◌&&◌, ◌++◌, ◌+◌, ◌-◌, ◌==◌, ◌>>=◌, ◌>>◌,
  ◌||◌, ◌∷◌,
}
use typescript_version_taxi.Base.Digits.{digits, pad_start, text_eq}
use typescript_version_taxi.External.Calendar.{Calendar}
use typescript_version_taxi.External.Queries.{Queries}
use typescript_version_taxi.Payment.{is_paid, payment_id_is, update_payment}
use typescript_version_taxi.Schema.{NumberSequence, Payment, Store, Time, Uuid}

pub record Assigned : Type 0 where
  pub payment_id : Uuid
  pub receipt_number : List ℕ

-- Its `type` is always 'simplified'.
pub record NumberingResult : Type 0 where
  pub tenant_id : Uuid
  pub period : List ℕ
  pub starting_number : Option ℕ
  pub ending_number : Option ℕ
  pub assigned_count : ℕ
  pub already_numbered_count : ℕ
  pub assigned : List Assigned

-- `p.receiptNumber` as a condition: null and '' are false.
abbrev pub has_text : Option (List ℕ) → Bool
has_text none = false
has_text (some []) = false
has_text (some (c ∷ s)) = true

-- The column holds the text.
abbrev pub is_text : List ℕ → Option (List ℕ) → Bool
is_text text none = false
is_text text (some s) = text_eq s text

-- `text && text !== period`
abbrev pub is_other : List ℕ → Option (List ℕ) → Bool
is_other period none = false
is_other period (some text) = has_text (some text) && not (text_eq text period)

-- `${period}-${n.toString().padStart(4, '0')}`
pub format_number : List ℕ → ℕ → List ℕ
format_number period n = period ++ 45 ∷ pad_start 4 (digits n)

abbrev pub is_in_window : Time → Time → Option Time → Bool
is_in_window from to none = false
is_in_window from to (some at) = leb from at && ltb at to

-- `where: { tenantId_type_period }`; every sequence here is of type RECEIPT.
abbrev pub sequence_of : Uuid → List ℕ → NumberSequence → Bool
sequence_of tenant period n = n.tenant_id == tenant && text_eq n.period period

module _ {D : Type 0} where
  abbrev pub is_due : Uuid → Time → Time → Payment D → Bool
  is_due tenant from to p =
      p.tenant_id == tenant && is_paid p.status && is_in_window from to p.captured_at

  abbrev pub is_numbered : Payment D → Bool
  is_numbered p = has_text p.receipt_number

  abbrev pub is_unnumbered : Payment D → Bool
  is_unnumbered p = not (is_numbered p)

  -- An already numbered payment of another period.
  abbrev pub is_mixed : List ℕ → Payment D → Bool
  is_mixed period p = is_other period p.number_period

  -- `orderBy: [{ capturedAt: 'asc' }, { id: 'asc' }]`; the rows of a window have `capturedAt`.
  abbrev pub captured_first : Payment D → Payment D → Bool
  captured_first x y =
      let a = or_else x.captured_at 0 in
      let b = or_else y.captured_at 0 in ltb a b || (a == b && leb x.id y.id)

  -- The unique key `[tenantId, numberPeriod, receiptNumber]`: the row has the tenant, and the period
  -- and number that are to be written.
  abbrev pub is_taken : Uuid → List ℕ → ℕ → Payment D → Bool
  is_taken tenant period n p =
      p.tenant_id == tenant
      && is_text period p.number_period
      && is_text (format_number period n) p.receipt_number

  -- Another row has them.
  abbrev pub clashes : Uuid → Uuid → List ℕ → ℕ → Payment D → Bool
  clashes id tenant period n p = not (p.id == id) && is_taken tenant period n p

  -- The `data` of the update.
  abbrev pub numbered : List ℕ → ℕ → Payment D → Payment D
  numbered period n p = record p {
    number_period = some period;
    receipt_number = some (format_number period n);
  }

  abbrev pub last_number : Uuid → List ℕ → Store D → Option ℕ
  last_number tenant period s = elim (find (sequence_of tenant period) s.number_sequences) [
    | none ↦ none
    | some n ↦ some n.current
  ]

  -- The counter after the upsert.
  abbrev pub upsert_sequence : Uuid → List ℕ → Action (Store D) ℕ
  upsert_sequence tenant period = do
    found ← gets (last_number tenant period)
    elim found [
      | some n ↦ pure n
      | none ↦
          modify (λ s. record s {
            number_sequences =
                s.number_sequences
                ++ record { tenant_id = tenant; period = period; current = 0 } ∷ [];
          })
          >> pure 0
    ]

  abbrev pub update_sequence : Uuid → List ℕ → ℕ → Action (Store D) (Unit {0})
  update_sequence tenant period last = do
    found ← gets (last_number tenant period)
    or_throw found (prisma_error "Record to update not found")
    modify (λ s. record s {
      number_sequences =
          update_many (sequence_of tenant period) (λ n. record n { current = last })
            s.number_sequences;
    })

abbrev pub nothing_assigned : Uuid → List ℕ → Option ℕ → ℕ → NumberingResult
nothing_assigned tenant period last before = record {
  tenant_id = tenant;
  period = period;
  starting_number = last;
  ending_number = last;
  assigned_count = 0;
  already_numbered_count = before;
  assigned = [];
}

abbrev pub all_assigned : Uuid → List ℕ → ℕ × ℕ × List Assigned → ℕ → NumberingResult
all_assigned tenant period (start, last, given) before = record {
  tenant_id = tenant;
  period = period;
  starting_number = some start;
  ending_number = some last;
  assigned_count = length given;
  already_numbered_count = before;
  assigned = given;
}

module _ (cal : Calendar) where
  open cal use {utc_year, utc_month}

  unfoldable pub yyyymm : Time → List ℕ
  yyyymm t = digits (utc_year t) ++ pad_start 2 (digits (utc_month t))

module _ (cal : Calendar) {D : Type 0} where
  pub assert_single_month : Time → Time → Action (Store D) (List ℕ)
  assert_single_month from to = do
    throw_if (leb to from) (bad_request "from must be earlier than to")
    throw_if (not (text_eq (yyyymm cal from) (yyyymm cal (to - 1))))
        (bad_request "Export must cover a single month (one YYYYMM period).")
    pure (yyyymm cal from)

  -- The loop over the payments without a number: the last number used, and what was assigned.
  pub issue_numbers : Uuid → List ℕ → List (Payment D) → ℕ → Action (Store D) (ℕ × List Assigned)
  issue_numbers tenant period [] current = pure (current, [])
  issue_numbers tenant period (p ∷ ps) current = do
    found ← gets (λ s. find (payment_id_is p.id) s.payments)
    elim found [
      | none ↦ issue_numbers tenant period ps current
      | some fresh ↦ do
        throw_if (not (fresh.tenant_id == tenant))
            (bad_request "Payment belongs to a different tenant.")
        if not (is_paid fresh.status) || is_numbered fresh
            then issue_numbers tenant period ps current
            else (do
              at ← or_throw fresh.captured_at (plain_error "Cannot read properties of null")
              throw_if (not (text_eq (yyyymm cal at) period))
                  (bad_request "Payment captured in another month than the export period.")
              clash ← gets (λ s. find (clashes p.id tenant period (current + 1)) s.payments)
              throw_if (is_some clash) (prisma_error "Unique constraint failed")
              update_payment p.id (numbered period (current + 1))
              rest ← issue_numbers tenant period ps (current + 1)
              pure (
                rest.0,
                record { payment_id = p.id; receipt_number = format_number period (current + 1) }
                    ∷ rest.1,
              ))
    ]

  pub number_all : Uuid → List ℕ → List (Payment D) → Action (Store D) (ℕ × ℕ × List Assigned)
  number_all tenant period ps = do
    start ← upsert_sequence tenant period
    given ← issue_numbers tenant period ps start
    update_sequence tenant period given.0
    pure (start, given.0, given.1)

module _ (q : Queries) (cal : Calendar) {D : Type 0} where
  open q use {order_by}

  abbrev pub due_payments : Uuid → Time → Time → Store D → List (Payment D)
  due_payments tenant from to s =
      order_by captured_first (filter (is_due tenant from to) s.payments)

  -- `user` is the tenant of the request's user, which `getCurrentTenantId` demands.
  pub assign_simplified_receipt_numbers :
      Option Uuid → Time → Time → Action (Store D) NumberingResult
  assign_simplified_receipt_numbers user from to = do
    tenant ← or_throw user (forbidden "No tenant context in request")
    period ← assert_single_month cal from to
    payments ← gets (due_payments tenant from to)
    let numbered_before = filter is_numbered payments
    let to_assign = filter is_unnumbered payments
    throw_if (is_some (find (is_mixed period) numbered_before))
        (bad_request "Refuse to mix periods.")
    elim to_assign [
      | [] ↦ do
        last ← gets (last_number tenant period)
        pure (nothing_assigned tenant period last (length numbered_before))
      | p ∷ ps ↦ do
        given ← in_transaction (number_all cal tenant period (p ∷ ps))
        pure (all_assigned tenant period given (length numbered_before))
    ]
