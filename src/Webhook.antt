-- ===== src/Webhook.antt =====
-- Payment notifications of Viva Wallet (src/viva-webhook/viva-webhook.service.ts): each transaction
-- is recorded once, checked, and marks its payment as paid.
pub mod Outcome
pub mod Safety
use typescript_version_taxi.Base.{
  Action, Bool, List, Option, String, [], false, find, gets, if◌then◌else◌, is_some, modify, none,
  not, or_else, or_throw, prisma_error, pure, some, str_eq, true, update_many, ℕ, ◌&&◌, ◌++◌, ◌+◌,
  ◌==◌, ◌>>=◌, ◌>>◌, ◌∷◌,
}
use typescript_version_taxi.External.Decimals.{Decimals}
use typescript_version_taxi.Payment.{is_pending, non_empty, update_payment}
use typescript_version_taxi.Schema.{
  Payment, Store, Time, Uuid, WebhookEvent, WebhookFailure, amount_mismatch, merchant_mismatch,
  missing_required_fields, paid, payment_not_found, unsupported_event_type,
}

-- The payload as the provider documents it: each member, where it is present, has the type that the
-- source annotates. `none` stands for an undefined member, or an empty text. The order code is the payment's id; the
-- amount is a whole number of cents.
pub record EventData : Type 0 where
  pub transaction_id : Option String
  pub order_code : Option Uuid
  pub merchant_id : Option String
  pub amount : Option ℕ
  pub status_id : Option String

pub record VivaWebhookPayload : Type 0 where
  pub event_type_id : Option ℕ
  pub event_data : Option EventData

-- The answers, `status` with `reason`.
pub data Answer : Type 0 where
  error : String → Answer
  ignored : String → Answer
  already_processed : Uuid → Answer
  done : Uuid → Answer

-- The fields that the checks have found present.
pub record Transaction : Type 0 where
  pub id : String
  pub order_code : Uuid
  pub status_id : String
  pub amount : ℕ
  pub merchant_id : String

abbrev pub event_of : String → WebhookEvent → Bool
event_of transaction e = str_eq e.external_id transaction

abbrev pub event_id_is : Uuid → WebhookEvent → Bool
event_id_is id e = e.id == id

abbrev pub new_event : String → Uuid → Time → WebhookEvent
new_event transaction id now = record {
  id = id;
  external_id = transaction;
  received_at = now;
  processed_at = none;
  attempt_count = 0;
  payment_id = none;
  ride_id = none;
  error_message = none;
}

abbrev pub count_attempt : WebhookEvent → WebhookEvent
count_attempt e = record e { attempt_count = e.attempt_count + 1 }

abbrev pub stamp : Bool → Time → Option Time → Option Time
stamp true now old = some now
stamp false now old = old

-- The `updateData` of `markWebhookFailed`.
abbrev pub failed_event : WebhookFailure → Bool → Time → WebhookEvent → WebhookEvent
failed_event failure mark_as_processed now e = record e {
  error_message = some failure;
  attempt_count = e.attempt_count + 1;
  processed_at = stamp mark_as_processed now e.processed_at;
}

abbrev pub processed_event : Uuid → Uuid → Time → WebhookEvent → WebhookEvent
processed_event payment ride now e = record e {
  processed_at = some now;
  payment_id = some payment;
  ride_id = some ride;
}

-- `!OrderCode || !StatusId || Amount === undefined || !MerchantId`
unfoldable pub required_fields : String → EventData → Option Transaction
required_fields id d = elim d.order_code [
  | none ↦ none
  | some order ↦ elim d.status_id [
    | none ↦ none
    | some status ↦ elim d.amount [
      | none ↦ none
      | some amount ↦ elim d.merchant_id [
        | none ↦ none
        | some merchant ↦ some (record {
          id = id;
          order_code = order;
          status_id = status;
          amount = amount;
          merchant_id = merchant;
        })
      ]
    ]
  ]
]

abbrev pub is_event_type : Option ℕ → Bool
is_event_type none = false
is_event_type (some n) = n == 1796

-- A variable that is missing or empty expects nothing: `expectedMerchantId && MerchantId !== expectedMerchantId` does not hold.
abbrev pub is_merchant : Option String → String → Bool
is_merchant env merchant = elim (non_empty env) [
  | none ↦ true
  | some expected ↦ str_eq merchant expected
]

module _ {D : Type 0} where
  abbrev pub write_events : (List WebhookEvent → List WebhookEvent) → Action (Store D) (Unit {0})
  write_events f = modify (λ s. record s { webhook_events = f s.webhook_events })

  -- `where: { id: OrderCode, status: PENDING }`
  abbrev pub awaits : Uuid → Payment D → Bool
  awaits id p = p.id == id && is_pending p.status

  abbrev pub captured : String → Time → Payment D → Payment D
  captured transaction now p = record p {
    status = paid;
    external_payment_id = some transaction;
    captured_at = some now;
  }

  -- The `upsert` by transaction id, which is unique.
  unfoldable pub record_event : String → Uuid → Time → Action (Store D) WebhookEvent
  record_event transaction id now = do
    found ← gets (λ s. find (event_of transaction) s.webhook_events)
    elim found [
      | none ↦
          write_events (λ es. es ++ new_event transaction id now ∷ [])
          >> pure (new_event transaction id now)
      | some e ↦
          write_events (update_many (event_of transaction) count_attempt) >> pure (count_attempt e)
    ]

  -- `webhookEvent.update`, by id; the client throws where there is no row.
  abbrev pub update_event : Uuid → (WebhookEvent → WebhookEvent) → Action (Store D) (Unit {0})
  update_event id f = do
    found ← gets (λ s. find (event_id_is id) s.webhook_events)
    _ ← or_throw found (prisma_error "Record to update not found")
    write_events (update_many (event_id_is id) f)

  -- The logging of the source is left out.
  pub mark_webhook_failed : Uuid → WebhookFailure → Bool → Time → Action (Store D) (Unit {0})
  mark_webhook_failed id failure mark_as_processed now =
      update_event id (failed_event failure mark_as_processed now)

  pub refuse : Uuid → WebhookFailure → Answer → Time → Action (Store D) Answer
  refuse id failure answer now = mark_webhook_failed id failure false now >> pure answer

module _ (dec : Decimals) (merchant_env : Option String) where
  open dec use {Decimal, cents}

  -- The two final writes.
  unfoldable pub capture :
      Transaction → WebhookEvent → Payment Decimal → Time → Action (Store Decimal) Answer
  capture t event payment now = do
    _ ← update_payment payment.id (captured t.id now)
    update_event event.id (processed_event payment.id payment.ride_id now)
    pure (done payment.id)

  -- From the check of the status on.
  unfoldable pub settle : Transaction → WebhookEvent → Time → Action (Store Decimal) Answer
  settle t event now =
      if not (str_eq t.status_id "F")
      then pure (ignored "not_finished")
      else if not (is_merchant merchant_env t.merchant_id)
      then refuse event.id (merchant_mismatch (or_else merchant_env "") t.merchant_id)
          (error "merchant_id_mismatch") now
      else (do
        found ← gets (λ s. find (awaits t.order_code) s.payments)
        elim found [
          | none ↦
              refuse event.id (payment_not_found t.order_code) (ignored "payment_not_found") now
          | some payment ↦
              if t.amount == cents payment.amount
              then capture t event payment now
              else refuse event.id (amount_mismatch (cents payment.amount) t.amount)
                  (ignored "amount_mismatch") now
        ])

  -- From the check of the event's type on. That `EventData` is there follows from the transaction id.
  unfoldable pub validate :
      VivaWebhookPayload → EventData → String → WebhookEvent → Time → Action (Store Decimal) Answer
  validate payload d transaction event now =
      if not (is_event_type payload.event_type_id)
      then refuse event.id (unsupported_event_type payload.event_type_id)
          (ignored "unsupported_event_type") now
      else elim (required_fields transaction d) [
        | none ↦ refuse event.id missing_required_fields (error "missing_required_fields") now
        | some t ↦ settle t event now
      ]

  unfoldable pub process_transaction :
      VivaWebhookPayload → EventData → String → Uuid → Time → Action (Store Decimal) Answer
  process_transaction payload d transaction id now = do
    event ← record_event transaction id now
    if is_some event.processed_at
        then pure (already_processed event.id)
        else validate payload d transaction event now

  -- `id` is the uuid of a new event, `now` the clock.
  unfoldable pub process_payment_created_event :
      VivaWebhookPayload → Uuid → Time → Action (Store Decimal) Answer
  process_payment_created_event payload id now = elim payload.event_data [
    | none ↦ pure (error "missing_transaction_id")
    | some d ↦ elim d.transaction_id [
      | none ↦ pure (error "missing_transaction_id")
      | some transaction ↦ process_transaction payload d transaction id now
    ]
  ]
