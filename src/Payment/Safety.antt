-- ===== src/Payment/Safety.antt =====
-- The theorems about confirming a payment and taking cash.
use typescript_version_taxi.Base.{
  List, arith, count, false, find, find_sound, inl, inr, is_ok, refl, some, true, update_many, ◌∙◌,
  ◌≡◌, ◌≤◌, ◌⊎◌,
}
use typescript_version_taxi.Base.Rows.{
  All-imp, Rows, Rows-update_many, Rows-refl, find-update_many, mem-find, unique_row,
}
use typescript_version_taxi.External.Decimals.{Decimals}
use typescript_version_taxi.Payment.{
  Caller, ConfirmPaymentDto, cash_payment, confirm_payment, confirmed, is_paid, paid_in_cash,
  payment_id_is,
}
use typescript_version_taxi.Payment.Outcome.{
  MayPay, already, cash_payment_ok, cash_payment-Outcome, confirm_payment_again,
  confirm_payment-Outcome, refused, written,
}
use typescript_version_taxi.Schema.{Payment, Store, Time, Uuid, cash, paid, pending}

-- No two payments share an id.
abbrev pub UniquePayments : {D : Type 0} → List (Payment D) → Type 0
UniquePayments ps = (id : Uuid) → count (payment_id_is id) ps ≤ 1

module _ {D : Type 0} where
  -- The money and the ride of a payment.
  abbrev pub SameMoney : Payment D → Payment D → Type 0
  SameMoney p p' =
      (p'.id ≡ p.id)
      × (p'.ride_id ≡ p.ride_id)
      × (p'.tenant_id ≡ p.tenant_id)
      × (p'.amount ≡ p.amount)
      × (p'.tax_amount ≡ p.tax_amount)
      × (p'.net_amount ≡ p.net_amount)

  -- A pending payment is captured: nothing else may happen to a payment.
  abbrev pub Captures : Time → Payment D → Payment D → Type 0
  Captures now p p' =
      (p' ≡ p)
      ⊎ ((p.status ≡ pending) × (p'.status ≡ paid) × (p'.captured_at ≡ some now) × SameMoney p p')

  -- A payment that is not paid is paid, whatever its status.
  abbrev pub Pays : Time → Payment D → Payment D → Type 0
  Pays now p p' =
      (p' ≡ p)
      ⊎ ((is_paid p.status ≡ false)
          × (p'.status ≡ paid)
          × (p'.captured_at ≡ some now)
          × (p'.provider ≡ cash)
          × SameMoney p p')

  written-Rows :
      (R : Payment D → Payment D → Type 0) (id : Uuid) (p : Payment D) (f : Payment D → Payment D)
      (ps : List (Payment D))
      → ((x : Payment D) → R x x)
      → UniquePayments ps
      → find (payment_id_is id) ps ≡ some p
      → R p (f p)
      → Rows R ps (update_many (payment_id_is id) f ps)
  written-Rows R id p f ps h u e r = Rows-update_many R (payment_id_is id) f h ps (
      All-imp _ _ (λ x same k. rw (same k) r) ps
        (unique_row (payment_id_is id) p ps (u id) (mem-find _ ps e) (find_sound _ ps e)))

  found_written :
      (id : Uuid) (p : Payment D) (f : Payment D → Payment D) (ps : List (Payment D))
      → ((x : Payment D) → (f x).id ≡ x.id)
      → find (payment_id_is id) ps ≡ some p
      → find (payment_id_is id) (update_many (payment_id_is id) f ps) ≡ some (f p)
  found_written id p f ps h e =
      find-update_many (payment_id_is id) (payment_id_is id) f ps (λ x _. ground (arith, h x)) e
      ∙ ground (arith, find_sound (payment_id_is id) ps e)

module _ (dec : Decimals) (id : Uuid) (user : Caller) (now : Time) where
  open dec use {Decimal}

  -- `confirmPayment` captures a payment only if it is pending, and changes nothing else of the
  -- payments and no amount, where ids of payments are unique.
  pub confirm_payment-Captures :
      (dto : ConfirmPaymentDto) (s : Store Decimal)
      → UniquePayments s.payments
      → Rows (Captures now) s.payments (confirm_payment dec id user dto now s).1.payments
  confirm_payment-Captures dto s u = elim (confirm_payment-Outcome dec id user now dto s) [
    | refused e r ↦ rw r (Rows-refl _ (λ x. inl refl) s.payments)
    | already p a may st r ↦ rw r (Rows-refl _ (λ x. inl refl) s.payments)
    | written p a may st r ↦ rw r (
        written-Rows (Captures now) id p _ s.payments (λ x. inl refl) u may.payment_row
          (inr (st, refl, refl, (refl, refl, refl, refl, refl, refl))))
  ]

  -- A `confirmPayment` that succeeds was called by the driver of the payment's ride, in the
  -- payment's tenant, and leaves the payment paid with its money as it was; one that throws leaves
  -- the store as it was.
  pub confirm_payment_authorized :
      (dto : ConfirmPaymentDto) (s : Store Decimal)
      → let r = confirm_payment dec id user dto now s in
        ((is_ok r.0 ≡ false) × (r.1 ≡ s))
        ⊎ ((p : Payment Decimal) × MayPay s id user p
            × (p' : Payment Decimal) × (find (payment_id_is id) r.1.payments ≡ some p')
            × (p'.status ≡ paid)
            × SameMoney p p')
  confirm_payment_authorized dto s = elim (confirm_payment-Outcome dec id user now dto s) [
    | refused e r ↦ inl (rw r refl, rw r refl)
    | already p a may st r ↦
        inr (p, may, p, rw r may.payment_row, st, (refl, refl, refl, refl, refl, refl))
    | written p a may st r ↦ inr (
      p,
      may,
      confirmed dto p.external_payment_id now p,
      rw r (
          found_written id p (confirmed dto p.external_payment_id now) s.payments (λ x. refl)
            may.payment_row),
      refl,
      (refl, refl, refl, refl, refl, refl),
    )
  ]

  paid_after :
      (dto : ConfirmPaymentDto) (s : Store Decimal)
      → is_ok (confirm_payment dec id user dto now s).0 ≡ true
      → (p : Payment Decimal) × MayPay (confirm_payment dec id user dto now s).1 id user p
        × (p.status ≡ paid)
  paid_after dto s h = elim (confirm_payment-Outcome dec id user now dto s) [
    | refused e r ↦ absurd (cc (h, r))
    | already p a may st r ↦ rw r (p, may, st)
    | written p a may st r ↦ rw r (
      confirmed dto p.external_payment_id now p,
      record {
        payment_row =
            found_written id p (confirmed dto p.external_payment_id now) s.payments (λ x. refl)
              may.payment_row;
        ride = may.ride;
        ride_row = may.ride_row;
        own_ride = may.own_ride;
        own_tenant = may.own_tenant;
      },
      refl,
    )
  ]

  -- Right after a `confirmPayment` has succeeded, the caller can repeat it with any data and at
  -- any time: it succeeds and changes nothing.
  pub confirm_payment_idempotent :
      (dto dto' : ConfirmPaymentDto) (later : Time) (s : Store Decimal)
      → is_ok (confirm_payment dec id user dto now s).0 ≡ true
      → let s' = (confirm_payment dec id user dto now s).1 in
        (is_ok (confirm_payment dec id user dto' later s').0 ≡ true)
        × ((confirm_payment dec id user dto' later s').1 ≡ s')
  confirm_payment_idempotent dto dto' later s h =
      let (p, may, st) = paid_after dto s h in
      let again =
        confirm_payment_again dec id user later dto' (confirm_payment dec id user dto now s).1 p may
          st in
      (rw again refl, rw again refl)

  -- `cashPayment` pays a payment that is not paid yet, whatever its status, and changes no other
  -- payment and no amount, where ids of payments are unique.
  pub cash_payment-Pays :
      (s : Store Decimal)
      → UniquePayments s.payments
      → Rows (Pays now) s.payments (cash_payment dec id user now s).1.payments
  cash_payment-Pays s u = elim (cash_payment-Outcome dec id user now s) [
    | refused e r ↦ rw r (Rows-refl _ (λ x. inl refl) s.payments)
    | already p a may st r ↦ rw r (Rows-refl _ (λ x. inl refl) s.payments)
    | written p a may st r ↦ rw r (
        written-Rows (Pays now) id p _ s.payments (λ x. inl refl) u may.payment_row
          (inr (st, refl, refl, refl, (refl, refl, refl, refl, refl, refl))))
  ]

  -- Cash is accepted for a payment in whatever status, failed and refunded ones too: whoever may pay
  -- it leaves it paid.
  pub cash_payment_total :
      (s : Store Decimal) (p : Payment Decimal)
      → MayPay s id user p
      → (is_ok (cash_payment dec id user now s).0 ≡ true)
        × ((p' : Payment Decimal) × (find
                (payment_id_is id)
                (cash_payment dec id user now s).1.payments
              ≡ some p')
            × (p'.status ≡ paid))
  cash_payment_total s p may = elim (cash_payment-Outcome dec id user now s) [
    | refused e r ↦ absurd (cc (cash_payment_ok dec id user now s p may, r))
    | already p' a may' st r ↦ (rw r refl, (p', rw r may'.payment_row, st))
    | written p' a may' st r ↦ (
      rw r refl,
      (
        paid_in_cash now p',
        rw r (found_written id p' (paid_in_cash now) s.payments (λ x. refl) may'.payment_row),
        refl,
      ),
    )
  ]
