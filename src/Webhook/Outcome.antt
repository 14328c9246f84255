-- ===== src/Webhook/Outcome.antt =====
-- How the processing of a notification ends.
use text.Mathlib.TextPositions.{eq_refl}
use typescript_version_taxi.Base.{
  ==_refl, Bool, Bool-cases, List, Memᴰ, Option, Option-cases, Result, String, [], ap, arith, false,
  find, find_sound, inl, inr, is_some, none, ok, refl, some, str_eq, str_eq_iff, sym, true,
  update_many, ℕ, ◌++◌, ◌==◌, ◌∙◌, ◌∷◌, ◌≡◌, ◌⊎◌,
}
use typescript_version_taxi.Webhook.{validate}
use typescript_version_taxi.Base.Rows.{
  count-of-find-none, count-pos-of-mem, find-append, find-update_many, mem-find,
}
use typescript_version_taxi.External.Decimals.{Decimals}
use typescript_version_taxi.Payment.{payment_id_is}
use typescript_version_taxi.Schema.{Payment, Store, Time, Uuid, WebhookEvent}
use typescript_version_taxi.Webhook.{
  Answer, EventData, Transaction, VivaWebhookPayload, already_processed, awaits, capture, captured,
  count_attempt, done, error, event_id_is, event_of, ignored, is_event_type, is_merchant,
  mark_webhook_failed, new_event, process_transaction, processed_event, record_event, refuse,
  required_fields, settle,
}

abbrev pub is_done : Answer → Bool
is_done (done payment) = true
is_done _ = false

-- What the notification must say for its payment to be captured.
pub record IsGenuine (merchant_env : Option String) (payload : VivaWebhookPayload) (d : EventData)
    (transaction : String) (t : Transaction) : Type 0 where
  pub event_type : payload.event_type_id ≡ some 1796
  pub same_id : t.id ≡ transaction
  pub order : d.order_code ≡ some t.order_code
  pub amount : d.amount ≡ some t.amount
  pub merchant : d.merchant_id ≡ some t.merchant_id
  pub finished : d.status_id ≡ some "F"
  pub expected :
      (merchant_env ≡ none) ⊎ (merchant_env ≡ some "") ⊎ (merchant_env ≡ some t.merchant_id)

-- Writing an event changes no other table.
abbrev pub EventsOnly : {D : Type 0} → Store D → Store D → Type 0
EventsOnly s s' = s' ≡ record s { webhook_events = s'.webhook_events }

event_type_of : (n : Option ℕ) → is_event_type n ≡ true → n ≡ some 1796
event_type_of none h = cc
event_type_of (some n) h = ground arith

-- A merchant that passes the check is the one that is expected, if one is.
merchant_expected :
    (env : Option String) (merchant : String)
    → is_merchant env merchant ≡ true
    → (env ≡ none) ⊎ (env ≡ some "") ⊎ (env ≡ some merchant)
merchant_expected none merchant h = inl refl
merchant_expected (some expected) merchant h = elim (Bool-cases (str_eq expected "")) [
  | inl e ↦ inr (inl (ap some ((str_eq_iff expected "").0 e)))
  | inr e ↦ inr (inr (ap some (sym ((str_eq_iff merchant expected).0 (ground (arith, h, e))))))
]

-- The members that the check of the required fields has found.
fields_of :
    (transaction : String) (d : EventData) (t : Transaction)
    → required_fields transaction d ≡ some t
    → (t.id ≡ transaction)
      × (d.order_code ≡ some t.order_code)
      × (d.amount ≡ some t.amount)
      × (d.merchant_id ≡ some t.merchant_id)
      × (d.status_id ≡ some t.status_id)
unfolding required_fields
fields_of transaction d t h = (ground arith, ground arith, ground arith, ground arith, ground arith)

-- A row that matches is found, or another one is.
pub find-listed :
    {A : Type 0} (p : A → Bool) (xs : List A) (a : A)
    → Memᴰ a xs
    → p a ≡ true
    → is_some (find p xs) ≡ true
find-listed p xs a m h = elim (Option-cases (find p xs)) [
  | inl e ↦ absurd (omega (arith, count-of-find-none p xs e, count-pos-of-mem p m h))
  | inr (b, e) ↦ rw e refl
]

module _ (dec : Decimals) (merchant_env : Option String) where
  open dec use {Decimal, cents}

  abbrev pub paid_store :
      Transaction → WebhookEvent → Payment Decimal → Time → Store Decimal → Store Decimal
  paid_store t event p now s = record s {
    payments = update_many (payment_id_is p.id) (captured t.id now) s.payments;
    webhook_events =
        update_many (event_id_is event.id) (processed_event p.id p.ride_id now) s.webhook_events;
  }

  module _ (event : WebhookEvent) (now : Time) (s : Store Decimal) where
    -- Either only events are written and the answer is not `done`, or the payment is captured.
    pub data Settled (Genuine : Transaction → Type 0) (r : Result Answer × Store Decimal)
        : Type 0 where
      kept : (a : Answer) → is_done a ≡ false → r.0 ≡ ok a → EventsOnly s r.1 → Settled Genuine r
      paid_by :
          (t : Transaction) (p : Payment Decimal)
          → Genuine t
          → find (awaits t.order_code) s.payments ≡ some p
          → t.amount ≡ cents p.amount
          → r ≡ (ok (done p.id), paid_store t event p now s)
          → Settled Genuine r

    settle_outcome :
        (Genuine : Transaction → Type 0) (t : Transaction)
        → is_some (find (event_id_is event.id) s.webhook_events) ≡ true
        → (t.status_id ≡ "F" → is_merchant merchant_env t.merchant_id ≡ true → Genuine t)
        → Settled Genuine (settle dec merchant_env t event now s)
    unfolding settle capture refuse mark_webhook_failed
    settle_outcome Genuine t recorded good = elim (Bool-cases (str_eq t.status_id "F")) [
      | inr open_yet ↦ kept (ignored "not_finished") refl (ground arith) (ground arith)
      | inl finished ↦ elim (Bool-cases (is_merchant merchant_env t.merchant_id)) [
        | inr other ↦ kept (error "merchant_id_mismatch") refl (ground arith) (ground arith)
        | inl ours ↦ elim (Option-cases (find (awaits t.order_code) s.payments)) [
          | inl e ↦ kept (ignored "payment_not_found") refl (ground arith) (ground arith)
          | inr (p, e) ↦ elim (Bool-cases (t.amount == cents p.amount)) [
            | inl same ↦
                let listed =
                  find-listed (payment_id_is p.id) s.payments p (mem-find _ s.payments e)
                    (==_refl p.id) in
                paid_by t p (good ((str_eq_iff _ _).0 finished) ours) e (ground arith)
                  (ground arith)
            | inr differs ↦ kept (ignored "amount_mismatch") refl (ground arith) (ground arith)
          ]
        ]
      ]
    ]

    pub validate_outcome :
        (payload : VivaWebhookPayload) (d : EventData) (transaction : String)
        → is_some (find (event_id_is event.id) s.webhook_events) ≡ true
        → Settled
            (IsGenuine merchant_env payload d transaction)
            (validate dec merchant_env payload d transaction event now s)
    unfolding validate refuse mark_webhook_failed
    validate_outcome payload d transaction recorded =
        elim (Bool-cases (is_event_type payload.event_type_id)) [
          | inr other ↦ kept (ignored "unsupported_event_type") refl (ground arith) (ground arith)
          | inl typed ↦ elim (Option-cases (required_fields transaction d)) [
            | inl e ↦ kept (error "missing_required_fields") refl (ground arith) (ground arith)
            | inr (t, e) ↦
                let same : validate dec merchant_env payload d transaction event now s
                    ≡ settle dec merchant_env t event now s =
                  ground arith in
                rw same (
                  settle_outcome (IsGenuine merchant_env payload d transaction) t recorded (λ f m.
                    let (same_id, order, amount, merchant, status) = fields_of transaction d t e in
                    record {
                      event_type = event_type_of payload.event_type_id typed;
                      same_id = same_id;
                      order = order;
                      amount = amount;
                      merchant = merchant;
                      finished = status ∙ ap some f;
                      expected = merchant_expected merchant_env t.merchant_id m;
                    }))
          ]
        ]

-- The record of a transaction that has been captured.
pub find_processed :
    (transaction : String) (e : WebhookEvent) (payment ride : Uuid) (now : Time)
    (es : List WebhookEvent)
    → find (event_of transaction) es ≡ some e
    → find
        (event_of transaction)
        (update_many (event_id_is e.id) (processed_event payment ride now) es)
      ≡ some (processed_event payment ride now e)
find_processed transaction e payment ride now es h =
    find-update_many (event_of transaction) (event_id_is e.id) (processed_event payment ride now) es
      (λ x _. refl) h
    ∙ rw (==_refl e.id) refl

module _ {D : Type 0} where
  -- The event is recorded, and is the one that its transaction selects.
  pub record IsRecorded (transaction : String) (s : Store D) (e : WebhookEvent) (s' : Store D)
      : Type 0 where
    pub only : EventsOnly s s'
    pub row : find (event_of transaction) s'.webhook_events ≡ some e

  pub record_event_lem :
      (transaction : String) (id now : ℕ) (s : Store D)
      → (e : WebhookEvent) × (s' : Store D) × (record_event transaction id now s ≡ (ok e, s'))
        × IsRecorded transaction s e s'
  unfolding record_event
  record_event_lem transaction id now s =
      elim (Option-cases (find (event_of transaction) s.webhook_events)) [
        | inl e ↦ (
          new_event transaction id now,
          record s { webhook_events = s.webhook_events ++ new_event transaction id now ∷ [] },
          ground arith,
          record { only = refl; row = find-append _ s.webhook_events _ e (eq_refl transaction) },
        )
        | inr (w, e) ↦ (
          count_attempt w,
          record s {
            webhook_events = update_many (event_of transaction) count_attempt s.webhook_events;
          },
          ground arith,
          record {
            only = refl;
            row =
                find-update_many (event_of transaction) (event_of transaction) count_attempt
                  s.webhook_events (λ x _. refl) e
                ∙ rw (find_sound (event_of transaction) s.webhook_events e) refl;
          },
        )
      ]

  pub EventsOnly-trans :
      (s s' s'' : Store D) → EventsOnly s s' → EventsOnly s' s'' → EventsOnly s s''
  EventsOnly-trans s s' s'' h k =
      k ∙ ap (λ (x : Store D). record x { webhook_events = s''.webhook_events }) h

module _ (dec : Decimals) (merchant_env : Option String) where
  open dec use {Decimal}

  -- A notification whose transaction is recorded as processed.
  pub process_transaction_again :
      (payload : VivaWebhookPayload) (d : EventData) (transaction : String) (id now : ℕ)
      (s : Store Decimal) (e : WebhookEvent)
      → find (event_of transaction) s.webhook_events ≡ some e
      → is_some e.processed_at ≡ true
      → process_transaction dec merchant_env payload d transaction id now s ≡ (
        ok (already_processed e.id),
        record s {
          webhook_events = update_many (event_of transaction) count_attempt s.webhook_events;
        },
      )
  unfolding process_transaction record_event
  process_transaction_again payload d transaction id now s e f p = ground (arith, f, p)
