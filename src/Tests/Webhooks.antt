-- ===== src/Tests/Webhooks.antt =====
-- Payment notifications: the theorems at the small database, with the notification that its payment
-- has been made.
use typescript_version_taxi.Base.{Memᴰ, Result, [], arith, inr, ok, refl, some, ◌∷◌, ◌≡◌}
use typescript_version_taxi.Webhook.{validate}
use typescript_version_taxi.Schema.{Store, Uuid, pending}
use typescript_version_taxi.Tests.Database.{Amount, a_payment, database}
use typescript_version_taxi.Tests.Parameters.{decimals}
use typescript_version_taxi.Webhook.{
  Answer, EventData, Transaction, VivaWebhookPayload, already_processed, capture, new_event,
  process_payment_created_event, process_transaction, record_event, required_fields, settle,
}
use typescript_version_taxi.Webhook.Safety.{IsCapture, process_once}

abbrev event_data : EventData
event_data = record {
  transaction_id = some "tx";
  order_code = some 30;
  merchant_id = some "shop";
  amount = some 4000;
  status_id = some "F";
}

abbrev payload : VivaWebhookPayload
payload = record { event_type_id = some 1796; event_data = some event_data }

abbrev processed : Result Answer × Store Amount
processed = process_payment_created_event decimals (some "shop") payload 40 7000 database

abbrev transaction : Transaction
transaction = record {
  id = "tx";
  order_code = 30;
  status_id = "F";
  amount = 4000;
  merchant_id = "shop";
}

processed-IsCapture : IsCapture decimals (some "shop") payload 7000 database processed
unfolding process_payment_created_event process_transaction validate settle capture record_event
    required_fields
processed-IsCapture = record {
  d = event_data;
  transaction = "tx";
  t = transaction;
  event = new_event "tx" 40 7000;
  payment = a_payment pending;
  between = record database { webhook_events = new_event "tx" 40 7000 ∷ [] };
  event_data = refl;
  transaction_id = refl;
  genuine = record {
    event_type = refl;
    same_id = refl;
    order = refl;
    amount = refl;
    merchant = refl;
    finished = refl;
    expected = inr (inr refl);
  };
  recorded = record { only = refl; row = refl };
  first_time = refl;
  payment_listed = Memᴰ.head refl;
  same_payment = refl;
  was_pending = refl;
  pending_row = refl;
  same_amount = refl;
  result = refl;
}

same_transaction :
    (d : EventData) → payload.event_data ≡ some d → event_data.transaction_id ≡ d.transaction_id
same_transaction d e = ground arith

process_once_example :
    let again =
      process_payment_created_event decimals (some "shop") payload 41 8000 (processed.1) in
    ((event : Uuid) × (again.0 ≡ ok (already_processed event)))
    × (again.1.payments ≡ processed.1.payments)
process_once_example =
    process_once decimals (some "shop") payload 40 7000 database payload event_data 41 8000
      processed-IsCapture refl same_transaction
