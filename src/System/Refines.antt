-- ===== src/System/Refines.antt =====
-- Every request of System.Call takes one step of the rules.
use typescript_version_taxi.Ride.Start.Safety.{refused as start_refused}
use typescript_version_taxi.Ride.Finish.Outcome.{refused as end_refused}
use typescript_version_taxi.Receipt.Issue.{refused as receipt_refused}
use typescript_version_taxi.Base.{
  ==_iff, Bool-cases, List, Option, String, arith, count, false, find, find_sound, inl, inr, none,
  refl, some, true, update_many, ◌&&◌, ◌≡◌,
}
use typescript_version_taxi.Base.Rows.{mem-find}
use typescript_version_taxi.External.Calendar.{Calendar}
use typescript_version_taxi.External.Decimals.{Decimals}
use typescript_version_taxi.External.Jwt.{Jwt}
use typescript_version_taxi.External.Queries.{Queries, find_first_count}
use typescript_version_taxi.Payment.{
  Caller, ConfirmPaymentDto, cash_payment, confirm_payment, confirmed, is_paid, paid_in_cash,
  payment_id_is,
}
use typescript_version_taxi.Payment.Outcome.{
  already, cash_payment-Outcome, confirm_payment-Outcome, refused, written,
}
use typescript_version_taxi.Payment.Safety.{SameMoney}
use typescript_version_taxi.Pricing.{
  CreatePricingPolicyDto, UpdatePricingPolicyDto, activate, create, update,
}
use typescript_version_taxi.Receipt.{generate_receipt}
use typescript_version_taxi.Receipt.Issue.{generate_receipt-Outcome, issued}
use typescript_version_taxi.Ride.Finish.{EndRideDto, end_ride, payment_of}
use typescript_version_taxi.Ride.Finish.Outcome.{end_ride-Outcome, finished}
use typescript_version_taxi.Ride.Guards.{is_draft, is_ongoing, open_ride_of, ride_id_is}
use typescript_version_taxi.Ride.Start.{StartRideDto, new_ride, resume_ride, start_ride}
use typescript_version_taxi.Ride.Start.Rules.{IsPriced}
use typescript_version_taxi.Ride.Start.Safety.{created, resumed, start_ride-Outcome}
use typescript_version_taxi.Schema.{Payment, Ride, Store, Time, Uuid}
use typescript_version_taxi.System.{
  Call, Fresh, activate_call, after, cash_call, confirm_call, create_call, end_call, notify_call,
  receipt_call, start_call, update_call,
}
use typescript_version_taxi.System.Changes.{
  Change, add_step, begin_step, end_step, idle_step, pay_step,
}
use typescript_version_taxi.Webhook.{
  VivaWebhookPayload, awaits, captured, process_payment_created_event,
}
use typescript_version_taxi.Webhook.Safety.{capturing, handled, idle}

module _ (dec : Decimals) (q : Queries) where
  open dec use {Decimal}
  open q use {find_first, find_first_mem, find_first_matches}

  -- What a request does to the two tables.
  abbrev pub Steps : Store Decimal → Store Decimal → Type 0
  Steps s s' = Change (IsPriced dec q) s.rides s'.rides s.payments s'.payments

  no_open :
      (profile : Uuid) (rs : List (Ride Decimal))
      → find_first (open_ride_of profile) rs ≡ none
      → count (open_ride_of profile) rs ≡ 0
  no_open profile rs e = ground (arith, find_first_count q (open_ride_of profile) rs, e)

  resume_ride-Steps :
      (profile : Uuid) (ride : Ride Decimal) (dto : StartRideDto) (now : Time) (s : Store Decimal)
      → find_first (open_ride_of profile) s.rides ≡ some ride
      → Steps s (resume_ride dec q ride dto now s).1
  unfolding resume_ride
  resume_ride-Steps profile ride dto now s e =
      elim (Bool-cases (is_draft ride.status && is_ongoing dto.ride_status)) [
        | inl k ↦
            begin_step ride now (find_first_mem _ s.rides ride e)
              (ground (arith, find_first_matches _ s.rides ride e)) (rw k refl) (rw k refl)
        | inr k ↦ idle_step (rw k refl) (rw k refl)
      ]

  start_ride-Steps :
      (dto : StartRideDto) (user tenant id : Uuid) (now : Time) (s : Store Decimal)
      → (count (ride_id_is id) s.rides ≡ 0) × (count (payment_of id) s.payments ≡ 0)
      → Steps s (start_ride dec q dto user tenant id now s).1
  start_ride-Steps dto user tenant id now s fresh =
      elim (start_ride-Outcome dec q dto user tenant id now s) [
        | start_refused e r ↦ rw r (idle_step refl refl)
        | resumed t p ride allowed f r ↦ rw r (resume_ride-Steps p.id ride dto now s f)
        | created t p pricing allowed f priced r ↦ rw r (
            add_step (new_ride dec tenant p.id dto pricing id now) (fresh.0) (fresh.1)
              (no_open p.id s.rides f) priced refl refl)
      ]

  end_ride-Steps :
      (cal : Calendar) (tax_env : Option String) (dto : EndRideDto dec.Number)
      (user tenant id : Uuid) (now : Time) (s : Store Decimal)
      → count (payment_id_is id) s.payments ≡ 0
      → Steps s (end_ride dec q cal tax_env dto user tenant id now s).1
  end_ride-Steps cal tax_env dto user tenant id now s fresh =
      elim (end_ride-Outcome dec q cal tax_env dto user tenant id now s) [
        | end_refused e r ↦ rw r (idle_step refl refl)
        | finished ride fare f ↦
            rw (f.store)
              (end_step ride _ _ _ fare id now f.listed (ground (arith, f.is_ride)) fresh refl refl)
      ]

  pays :
      (s : Store Decimal) (id : Uuid) (p : Payment Decimal) (f : Payment Decimal → Payment Decimal)
      → find (payment_id_is id) s.payments ≡ some p
      → is_paid p.status ≡ false
      → ((x : Payment Decimal) → SameMoney x (f x) × (is_paid (f x).status ≡ true))
      → Steps s (record s { payments = update_many (payment_id_is id) f s.payments })
  pays s id p f e u k =
      let same : p.id ≡ id = (==_iff p.id id).0 (find_sound (payment_id_is id) s.payments e) in
      pay_step p f (mem-find _ s.payments e) u k refl (rw same refl)

  confirm_payment-Steps :
      (id : Uuid) (user : Caller) (dto : ConfirmPaymentDto) (now : Time) (s : Store Decimal)
      → Steps s (confirm_payment dec id user dto now s).1
  confirm_payment-Steps id user dto now s = elim (confirm_payment-Outcome dec id user now dto s) [
    | refused e r ↦ rw r (idle_step refl refl)
    | already p a may st r ↦ rw r (idle_step refl refl)
    | written p a may st r ↦ rw r (
        pays s id p (confirmed dto p.external_payment_id now) may.payment_row (ground (arith, st))
          (λ x. ((refl, refl, refl, refl, refl, refl), refl)))
  ]

  cash_payment-Steps :
      (id : Uuid) (user : Caller) (now : Time) (s : Store Decimal)
      → Steps s (cash_payment dec id user now s).1
  cash_payment-Steps id user now s = elim (cash_payment-Outcome dec id user now s) [
    | refused e r ↦ rw r (idle_step refl refl)
    | already p a may st r ↦ rw r (idle_step refl refl)
    | written p a may st r ↦ rw r (
        pays s id p (paid_in_cash now) may.payment_row st
          (λ x. ((refl, refl, refl, refl, refl, refl), refl)))
  ]

  process-Steps :
      (merchant_env : Option String) (payload : VivaWebhookPayload) (id : Uuid) (now : Time)
      (s : Store Decimal)
      → Steps s (process_payment_created_event dec merchant_env payload id now s).1
  process-Steps merchant_env payload id now s = elim (handled dec merchant_env payload id now s) [
    | idle a x y z ↦ rw z (idle_step refl refl)
    | capturing c ↦
        let found = c.pending_row in
        rw (c.result, c.recorded.only)
          (pay_step c.payment (captured c.t.id now) (mem-find _ s.payments found)
            (ground (arith, find_sound (awaits c.t.order_code) s.payments found))
            (λ x. ((refl, refl, refl, refl, refl, refl), refl)) refl refl)
  ]

  generate_receipt-Steps :
      (jwt : Jwt) (ride_id tenant user id : Uuid) (public_id : String) (now : Time)
      (s : Store Decimal)
      → Steps s (generate_receipt q jwt ride_id tenant user id public_id now s).1
  generate_receipt-Steps jwt ride_id tenant user id public_id now s =
      elim (generate_receipt-Outcome q jwt ride_id tenant user id public_id now s) [
        | receipt_refused e r ↦ rw r (idle_step refl refl)
        | issued i ↦ rw (i.result) (idle_step refl refl)
      ]

  -- The requests about prices write no other table.
  create-Steps :
      (tenant : Uuid) (dto : CreatePricingPolicyDto) (id : Uuid) (now : Time) (s : Store Decimal)
      → Steps s (create dec tenant dto id now s).1
  unfolding create
  create-Steps tenant dto id now s = idle_step (ground arith) (ground arith)

  update-Steps :
      (tenant id : Uuid) (dto : UpdatePricingPolicyDto) (now : Time) (s : Store Decimal)
      → Steps s (update dec q tenant id dto now s).1
  unfolding update
  update-Steps tenant id dto now s = idle_step (ground arith) (ground arith)

  activate-Steps :
      (tenant id : Uuid) (now : Time) (s : Store Decimal) → Steps s (activate q tenant id now s).1
  unfolding activate
  activate-Steps tenant id now s = idle_step (ground arith) (ground arith)

  module _ (cal : Calendar) (jwt : Jwt) (tax_env merchant_env : Option String) where
    -- Whichever of the requests, and whether it throws or not, the rides and the payments change by
    -- one step of the rules, or not at all.
    pub after-Change :
        (c : Call dec) (s : Store Decimal)
        → Fresh dec c s
        → Change
            (IsPriced dec q)
            s.rides
            (after dec q cal jwt tax_env merchant_env c s).rides
            s.payments
            (after dec q cal jwt tax_env merchant_env c s).payments
    unfolding after
    after-Change (start_call dto user tenant id now) s h =
        start_ride-Steps dto user tenant id now s h
    after-Change (end_call dto user tenant id now) s h =
        end_ride-Steps cal tax_env dto user tenant id now s h
    after-Change (confirm_call id user dto now) s h = confirm_payment-Steps id user dto now s
    after-Change (cash_call id user now) s h = cash_payment-Steps id user now s
    after-Change (notify_call payload id now) s h = process-Steps merchant_env payload id now s
    after-Change (create_call tenant dto id now) s h = create-Steps tenant dto id now s
    after-Change (update_call tenant id dto now) s h = update-Steps tenant id dto now s
    after-Change (activate_call tenant id now) s h = activate-Steps tenant id now s
    after-Change (receipt_call ride_id tenant user id public_id now) s h =
        generate_receipt-Steps jwt ride_id tenant user id public_id now s
