-- ===== src/System/Prices.antt =====
-- The prices in a sequence of the requests of System.Call: only the requests about prices change
-- them, and one policy of a tenant is active at most.
use typescript_version_taxi.Ride.Start.Safety.{refused as start_refused}
use typescript_version_taxi.Ride.Finish.Outcome.{refused as end_refused}
use typescript_version_taxi.Receipt.Issue.{refused as receipt_refused}
use typescript_version_taxi.Base.{Option, String, ap, refl, ◌≡◌}
use typescript_version_taxi.External.Calendar.{Calendar}
use typescript_version_taxi.External.Decimals.{Decimals}
use typescript_version_taxi.External.Jwt.{Jwt}
use typescript_version_taxi.External.Queries.{Queries}
use typescript_version_taxi.Payment.{Caller, ConfirmPaymentDto, cash_payment, confirm_payment}
use typescript_version_taxi.Payment.Outcome.{
  already, cash_payment-Outcome, confirm_payment-Outcome, refused, written,
}
use typescript_version_taxi.Pricing.Effects.{update-UniqueIds, update_keeps_active}
use typescript_version_taxi.Pricing.Single.{
  AtMostOneActive, UniqueIds, activate-AtMostOneActive, activate-UniqueIds, create-AtMostOneActive,
  create-UniqueIds,
}
use typescript_version_taxi.Receipt.{generate_receipt}
use typescript_version_taxi.Receipt.Issue.{generate_receipt-Outcome, issued}
use typescript_version_taxi.Ride.Finish.{EndRideDto, end_ride}
use typescript_version_taxi.Ride.Finish.Outcome.{end_ride-Outcome, finished}
use typescript_version_taxi.Ride.Start.{StartRideDto, start_ride}
use typescript_version_taxi.Ride.Start.Rules.{resume_ride_rides}
use typescript_version_taxi.Ride.Start.Safety.{created, resumed, start_ride-Outcome}
use typescript_version_taxi.Schema.{Store, Time, Uuid}
use typescript_version_taxi.System.{
  Call, Fresh, activate_call, after, cash_call, confirm_call, create_call, end_call, notify_call,
  receipt_call, start_call, update_call,
}
use typescript_version_taxi.Webhook.Safety.{process_total}

module _ {D : Type 0} where
  -- Ids of policies are unique, and a tenant has one active policy at most.
  pub record IsPricing (s : Store D) : Type 0 where
    pub unique : UniqueIds s
    pub single : AtMostOneActive s

  IsPricing-of-same :
      (s s' : Store D) → s'.pricing_policies ≡ s.pricing_policies → IsPricing s → IsPricing s'
  IsPricing-of-same s s' e v = record {
    unique = λ id. rw e (v.unique id);
    single = λ t. rw e (v.single t);
  }

module _ (dec : Decimals) (q : Queries) where
  open dec use {Decimal}

  start_ride_keeps :
      (dto : StartRideDto) (user tenant id : Uuid) (now : Time) (s : Store Decimal)
      → (start_ride dec q dto user tenant id now s).1.pricing_policies ≡ s.pricing_policies
  start_ride_keeps dto user tenant id now s =
      elim (start_ride-Outcome dec q dto user tenant id now s) [
        | start_refused e r ↦ rw r refl
        | resumed t p ride allowed f r ↦ rw r (
            ap (λ (x : Store Decimal). x.pricing_policies)
              (resume_ride_rides dec q p.id dto now ride s))
        | created t p pricing allowed f priced r ↦ rw r refl
      ]

  end_ride_keeps :
      (cal : Calendar) (tax_env : Option String) (dto : EndRideDto dec.Number)
      (user tenant id : Uuid) (now : Time) (s : Store Decimal)
      → (end_ride dec q cal tax_env dto user tenant id now s).1.pricing_policies
        ≡ s.pricing_policies
  end_ride_keeps cal tax_env dto user tenant id now s =
      elim (end_ride-Outcome dec q cal tax_env dto user tenant id now s) [
        | end_refused e r ↦ rw r refl
        | finished ride fare f ↦ rw (f.store) refl
      ]

  confirm_payment_keeps :
      (id : Uuid) (user : Caller) (dto : ConfirmPaymentDto) (now : Time) (s : Store Decimal)
      → (confirm_payment dec id user dto now s).1.pricing_policies ≡ s.pricing_policies
  confirm_payment_keeps id user dto now s = elim (confirm_payment-Outcome dec id user now dto s) [
    | refused e r ↦ rw r refl
    | already p a may st r ↦ rw r refl
    | written p a may st r ↦ rw r refl
  ]

  cash_payment_keeps :
      (id : Uuid) (user : Caller) (now : Time) (s : Store Decimal)
      → (cash_payment dec id user now s).1.pricing_policies ≡ s.pricing_policies
  cash_payment_keeps id user now s = elim (cash_payment-Outcome dec id user now s) [
    | refused e r ↦ rw r refl
    | already p a may st r ↦ rw r refl
    | written p a may st r ↦ rw r refl
  ]

  generate_receipt_keeps :
      (jwt : Jwt) (ride_id tenant user id : Uuid) (public_id : String) (now : Time)
      (s : Store Decimal)
      → (generate_receipt q jwt ride_id tenant user id public_id now s).1.pricing_policies
        ≡ s.pricing_policies
  generate_receipt_keeps jwt ride_id tenant user id public_id now s =
      elim (generate_receipt-Outcome q jwt ride_id tenant user id public_id now s) [
        | receipt_refused e r ↦ rw r refl
        | issued i ↦ rw (i.result) refl
      ]

  module _ (cal : Calendar) (jwt : Jwt) (tax_env merchant_env : Option String) where
    pub after-IsPricing :
        (c : Call dec) (s : Store Decimal)
        → Fresh dec c s
        → IsPricing s
        → IsPricing (after dec q cal jwt tax_env merchant_env c s)
    unfolding after
    after-IsPricing (start_call dto user tenant id now) s h v =
        IsPricing-of-same s _ (start_ride_keeps dto user tenant id now s) v
    after-IsPricing (end_call dto user tenant id now) s h v =
        IsPricing-of-same s _ (end_ride_keeps cal tax_env dto user tenant id now s) v
    after-IsPricing (confirm_call id user dto now) s h v =
        IsPricing-of-same s _ (confirm_payment_keeps id user dto now s) v
    after-IsPricing (cash_call id user now) s h v =
        IsPricing-of-same s _ (cash_payment_keeps id user now s) v
    after-IsPricing (notify_call payload id now) s h v =
        IsPricing-of-same s _
          (ap (λ (x : Store Decimal). x.pricing_policies)
            (process_total dec merchant_env payload id now s).1)
          v
    after-IsPricing (create_call tenant dto id now) s h v = record {
      unique = create-UniqueIds dec tenant dto id now s v.unique h;
      single = create-AtMostOneActive dec tenant dto id now s v.single;
    }
    after-IsPricing (update_call tenant id dto now) s h v = record {
      unique = update-UniqueIds dec q tenant id dto now s v.unique;
      single = λ t. rw (update_keeps_active dec q tenant id dto now s t) (v.single t);
    }
    after-IsPricing (activate_call tenant id now) s h v = record {
      unique = activate-UniqueIds q tenant id now s v.unique;
      single = activate-AtMostOneActive q tenant id now s v.unique v.single;
    }
    after-IsPricing (receipt_call ride_id tenant user id public_id now) s h v =
        IsPricing-of-same s _ (generate_receipt_keeps jwt ride_id tenant user id public_id now s) v
