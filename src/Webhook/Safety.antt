-- ===== src/Webhook/Safety.antt =====
-- The theorems about payment notifications.
use typescript_version_taxi.Base.{
  ==_refl, List, Memᴰ, Option, Option-cases, Result, String, ap, arith, false, find, find_sound,
  inl, inr, is_ok, none, ok, refl, some, sym, true, update_many, ℕ, ◌∙◌, ◌≡◌,
}
use typescript_version_taxi.Webhook.{validate}
use typescript_version_taxi.Base.Rows.{
  All-imp, Rows, Rows-refl, Rows-update_many, mem-find, unique_row,
}
use typescript_version_taxi.External.Decimals.{Decimals}
use typescript_version_taxi.Payment.{payment_id_is}
use typescript_version_taxi.Payment.Safety.{Captures, UniquePayments}
use typescript_version_taxi.Ride.Answers.{money}
use typescript_version_taxi.Schema.{Payment, Store, Time, Uuid, WebhookEvent, pending}
use typescript_version_taxi.Webhook.{
  Answer, EventData, Transaction, VivaWebhookPayload, already_processed, awaits, captured, done,
  error, event_id_is, event_of, process_payment_created_event, process_transaction, processed_event,
}
use typescript_version_taxi.Webhook.Outcome.{
  EventsOnly, EventsOnly-trans, IsGenuine, IsRecorded, find-listed, find_processed, is_done, kept,
  paid_by, paid_store, process_transaction_again, record_event_lem, validate_outcome,
}

module _ (dec : Decimals) (merchant_env : Option String) where
  open dec use {Decimal, cents}

  -- Why a payment was captured.
  pub record IsCapture (payload : VivaWebhookPayload) (now : Time) (s : Store Decimal)
      (r : Result Answer × Store Decimal) : Type 0 where
    pub d : EventData
    pub transaction : String
    pub t : Transaction
    pub event : WebhookEvent
    pub payment : Payment Decimal
    pub between : Store Decimal
    pub event_data : payload.event_data ≡ some d
    pub transaction_id : d.transaction_id ≡ some transaction
    pub genuine : IsGenuine merchant_env payload d transaction t
    pub recorded : IsRecorded transaction s event between
    pub first_time : event.processed_at ≡ none
    pub payment_listed : Memᴰ payment s.payments
    pub same_payment : payment.id ≡ t.order_code
    pub was_pending : payment.status ≡ pending
    pub pending_row : find (awaits t.order_code) s.payments ≡ some payment
    pub same_amount : t.amount ≡ cents payment.amount
    pub result : r ≡ (ok (done payment.id), paid_store dec merchant_env t event payment now between)

  pub data Handled (payload : VivaWebhookPayload) (now : Time) (s : Store Decimal)
      (r : Result Answer × Store Decimal) : Type 0 where
    idle :
        (a : Answer) → is_done a ≡ false → r.0 ≡ ok a → EventsOnly s r.1 → Handled payload now s r
    capturing : IsCapture payload now s r → Handled payload now s r

  awaits_pending :
      (t : Transaction) (p : Payment Decimal) → awaits t.order_code p ≡ true → p.status ≡ pending
  awaits_pending t p h = ground arith

  module _ (payload : VivaWebhookPayload) (id : Uuid) (now : Time) (s : Store Decimal) where
    abbrev answer : Result Answer × Store Decimal
    answer = process_payment_created_event dec merchant_env payload id now s

    transaction_outcome :
        (d : EventData) (transaction : String)
        → payload.event_data ≡ some d
        → d.transaction_id ≡ some transaction
        → Handled payload now s
            (process_transaction dec merchant_env payload d transaction id now s)
    unfolding process_transaction
    transaction_outcome d transaction ed et =
        let (event, s', e, recorded) = record_event_lem transaction id now s in
        elim (Option-cases event.processed_at) [
          | inr (at, p) ↦
              let same_store : (process_transaction dec merchant_env payload d transaction id now
                    s).1
                  ≡ s' =
                ground arith in
              idle (already_processed event.id) refl (ground arith) (rw same_store recorded.only)
          | inl p ↦
              let same : process_transaction dec merchant_env payload d transaction id now s
                  ≡ validate dec merchant_env payload d transaction event now s' =
                ground arith in
              let stored =
                find-listed (event_id_is event.id) s'.webhook_events event
                  (mem-find (event_of transaction) s'.webhook_events recorded.row)
                  (==_refl event.id) in
              rw same
                (elim (validate_outcome dec merchant_env event now s' payload d transaction
                  stored) [
                    | kept a x y z ↦ idle a x y (EventsOnly-trans s s' _ recorded.only z)
                    | paid_by t money genuine found amount r ↦
                        let row = rw (recorded.only) at found in
                        let fits = find_sound (awaits t.order_code) s.payments row in
                        capturing (record {
                          d = d;
                          transaction = transaction;
                          t = t;
                          event = event;
                          payment = money;
                          between = s';
                          event_data = ed;
                          transaction_id = et;
                          genuine = genuine;
                          recorded = recorded;
                          first_time = p;
                          payment_listed = mem-find (awaits t.order_code) s.payments row;
                          same_payment = ground (arith, fits);
                          was_pending = ground (arith, fits);
                          pending_row = row;
                          same_amount = amount;
                          result = r;
                        })
                  ])
        ]

    pub handled : Handled payload now s answer
    unfolding process_payment_created_event
    handled = elim (Option-cases payload.event_data) [
      | inl e ↦ idle (error "missing_transaction_id") refl (ground arith) (ground arith)
      | inr (d, e) ↦ elim (Option-cases d.transaction_id) [
        | inl f ↦ idle (error "missing_transaction_id") refl (ground arith) (ground arith)
        | inr (x, f) ↦
            let same : answer ≡ process_transaction dec merchant_env payload d x id now s =
              ground arith in
            rw same (transaction_outcome d x e f)
      ]
    ]

    -- Where the payload has the documented types and the database answers, a notification never
    -- fails with an exception, and it changes at most the payments and the recorded events.
    pub process_total :
        (is_ok answer.0 ≡ true)
        × (answer.1
            ≡ record s { payments = answer.1.payments; webhook_events = answer.1.webhook_events })
    process_total = elim handled [
      | idle a x y z ↦ (
        rw y refl,
        z
            ∙ ap
                (λ (ps : List (Payment Decimal)). record s {
                  payments = ps;
                  webhook_events = answer.1.webhook_events;
                })
                (sym (ap (λ (x : Store Decimal). x.payments) z)),
      )
      | capturing c ↦ (rw (c.result) refl, rw (c.result, c.recorded.only) refl)
    ]

    captured-Rows :
        (t : Transaction) (p : Payment Decimal) (ps : List (Payment Decimal))
        → UniquePayments ps
        → find (awaits t.order_code) ps ≡ some p
        → Rows (Captures now) ps (update_many (payment_id_is p.id) (captured t.id now) ps)
    captured-Rows t p ps u e =
        Rows-update_many (Captures now) (payment_id_is p.id) (captured t.id now) (λ x. inl refl) ps
          (All-imp _ _
            (λ x same k. rw (same k) (
              inr (
                awaits_pending t p (find_sound _ ps e),
                refl,
                refl,
                (refl, refl, refl, refl, refl, refl),
              )))
            ps (unique_row (payment_id_is p.id) p ps (u p.id) (mem-find _ ps e) (==_refl p.id)))

    -- A notification captures pending payments only, and changes no amount, where ids of payments
    -- are unique.
    pub process-Captures :
        UniquePayments s.payments → Rows (Captures now) s.payments answer.1.payments
    process-Captures u = elim handled [
      | idle a x y z ↦ rw z (Rows-refl _ (λ x. inl refl) s.payments)
      | capturing c ↦
          rw (c.result, c.recorded.only) (captured-Rows c.t c.payment s.payments u c.pending_row)
    ]

    -- A transaction is processed once: right after a notification has captured its payment, the
    -- next one with the same transaction id is answered as already processed and changes no
    -- payment.
    pub process_once :
        (payload' : VivaWebhookPayload) (d' : EventData) (id' now' : ℕ)
        → IsCapture payload now s answer
        → payload'.event_data ≡ some d'
        → ((d : EventData) → payload.event_data ≡ some d → d'.transaction_id ≡ d.transaction_id)
        → let again = process_payment_created_event dec merchant_env payload' id' now' answer.1 in
          ((event : Uuid) × (again.0 ≡ ok (already_processed event)))
          × (again.1.payments ≡ answer.1.payments)
    unfolding process_payment_created_event
    process_once payload' d' id' now' c e same =
        let found =
          find_processed c.transaction c.event c.payment.id c.payment.ride_id now
            c.between.webhook_events c.recorded.row in
        let found' : find (event_of c.transaction) answer.1.webhook_events
            ≡ some (processed_event c.payment.id c.payment.ride_id now c.event) =
          rw (c.result) found in
        let tx : d'.transaction_id ≡ some c.transaction =
          same c.d c.event_data ∙ c.transaction_id in
        let again =
          process_transaction_again dec merchant_env payload' d' c.transaction id' now' answer.1 _
            found' refl in
        let first : process_payment_created_event dec merchant_env payload' id' now' answer.1
            ≡ process_transaction dec merchant_env payload' d' c.transaction id' now' answer.1 =
          ground (arith, e, tx) in
        ((c.event.id, rw (first, again) refl), rw (first, again) refl)
