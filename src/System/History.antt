-- ===== src/System/History.antt =====
-- What holds after any sequence of the nine requests of System.Call.
use typescript_version_taxi.Base.{
  ==_refl, All-mem, Option, String, ap, arith, false, find_sound, inl, inr, refl, ◌∙◌, ◌≡◌, ◌⊎◌,
}
use typescript_version_taxi.Base.Rows.{count-pos-of-mem, find-update_many, find_unique, mem-find}
use typescript_version_taxi.External.Calendar.{Calendar}
use typescript_version_taxi.External.Decimals.{Decimals}
use typescript_version_taxi.External.Jwt.{Jwt}
use typescript_version_taxi.External.Queries.{Queries}
use typescript_version_taxi.Payment.{Caller, cash_payment, is_paid, paid_in_cash, payment_id_is}
use typescript_version_taxi.Payment.Outcome.{
  MayPay, already, cash_payment-Outcome, cash_payment_ok, refused, written,
}
use typescript_version_taxi.Ride.Finish.{payment_of}
use typescript_version_taxi.Ride.Guards.{is_open, ride_id_is}
use typescript_version_taxi.Ride.Start.Rules.{IsPriced}
use typescript_version_taxi.Schema.{Payment, Store, Time, Uuid}
use typescript_version_taxi.System.{Call, Fresh, Reach, after, here, next}
use typescript_version_taxi.System.Prices.{IsPricing, after-IsPricing}
use typescript_version_taxi.System.Refines.{after-Change}
use typescript_version_taxi.System.Rules.{IsSound, open_id}
use typescript_version_taxi.System.Rules.Steps.{Change-IsSound}
use typescript_version_taxi.System.Stages.{
  Move, Stage, begin, cleared, finish, owed, pay, record_closed, stage, stay,
}
use typescript_version_taxi.System.Stages.Moves.{Change-Move}

module _ {D : Type 0} where
  Move-cleared : {a b : Stage D} {x : D} → Move D a b → a ≡ cleared x → b ≡ cleared x
  Move-cleared (stay e) h = e ∙ h
  Move-cleared (begin d e f) h = absurd (cc (e, h))
  Move-cleared (record_closed e f) h = absurd (cc (e, h))
  Move-cleared (finish d x e f) h = absurd (cc (e, h))
  Move-cleared (pay x e f) h = absurd (cc (e, h))

  -- An amount that is owed stays owed, or is paid in full.
  abbrev pub Owes : D → Stage D → Type 0
  Owes x a = (a ≡ owed x) ⊎ (a ≡ cleared x)

  Move-Owes : {a b : Stage D} {x : D} → Move D a b → Owes x a → Owes x b
  Move-Owes m (inr h) = inr (Move-cleared m h)
  Move-Owes (stay e) (inl h) = inl (e ∙ h)
  Move-Owes (begin d e f) (inl h) = absurd (cc (e, h))
  Move-Owes (record_closed e f) (inl h) = absurd (cc (e, h))
  Move-Owes (finish d x e f) (inl h) = absurd (cc (e, h))
  Move-Owes (pay y e f) (inl h) = inr (f ∙ ap cleared (cc (e, h)))

module _ (dec : Decimals) (q : Queries) (cal : Calendar) (jwt : Jwt)
    (tax_env merchant_env : Option String) where
  open dec use {Decimal}

  abbrev pub Tables : Store Decimal → Type 0
  Tables s = IsSound (IsPriced dec q) s.rides s.payments

  abbrev pub stage_in : Store Decimal → Uuid → Stage Decimal
  stage_in s id = stage s.rides s.payments id

  -- One of the nine requests of System.Call, whether it throws or not, keeps the rides and
  -- payments sound.
  pub after-IsSound :
      (c : Call dec) (s : Store Decimal)
      → Fresh dec c s
      → Tables s
      → Tables (after dec q cal jwt tax_env merchant_env c s)
  after-IsSound c s h v =
      Change-IsSound (IsPriced dec q) (λ r now k. k) (λ r at t d fare k. k) _ _ _ _ v
        (after-Change dec q cal jwt tax_env merchant_env c s h)

  -- Refinement, for the nine requests of System.Call (`startRide`, `endRide`, `confirmPayment`,
  -- `cashPayment`, the payment notification, `create`, `update` and `activate` of prices, and
  -- `generateReceipt`; the administration's own writes to payments, which can change or remove
  -- them, are not among them): seen from any ride, each of these requests, whether it throws or
  -- not, is one move from nothing to riding (or recorded as closed), to an amount owed, to the
  -- same amount cleared, or no move, where the rides and payments are sound and the ids of new
  -- rows are new.
  pub after-Move :
      (c : Call dec) (s : Store Decimal) (id : Uuid)
      → Fresh dec c s
      → Tables s
      → Move Decimal (stage_in s id) (stage_in (after dec q cal jwt tax_env merchant_env c s) id)
  after-Move c s id h v =
      Change-Move (IsPriced dec q) _ _ _ _ v (after-Change dec q cal jwt tax_env merchant_env c s h)
        id

  abbrev Reaches : Store Decimal → Store Decimal → Type 0
  Reaches s t = Reach dec q cal jwt tax_env merchant_env s t

  -- Any sequence of the nine requests of System.Call (`startRide`, `endRide`, `confirmPayment`,
  -- `cashPayment`, the payment notification, `create`, `update` and `activate` of prices, and
  -- `generateReceipt`; not the administration's own writes to rides and payments) keeps the rides,
  -- payments and prices sound: unique ids, one open ride of a driver, what the pricing mode needs
  -- on every ride, one payment of a ride and none while it is open, one active policy of a tenant,
  -- where the ids of new rows are new.
  pub Reach-IsSound :
      (s t : Store Decimal)
      → Reach dec q cal jwt tax_env merchant_env s t
      → Tables s
      → IsPricing s
      → Tables t × IsPricing t
  Reach-IsSound s t here v w = (v, w)
  Reach-IsSound s t (next r c h) v w =
      let (v', w') = Reach-IsSound s _ r v w in
      (after-IsSound c _ h v', after-IsPricing dec q cal jwt tax_env merchant_env c _ h w')

  -- Whatever sequence of the nine requests of System.Call follows (`startRide`, `endRide`,
  -- `confirmPayment`, `cashPayment`, the payment notification, `create`, `update` and `activate`
  -- of prices, and `generateReceipt`; not the administration's own writes to payments), an amount
  -- that is owed for a ride stays owed or is cleared, never changed, and a cleared amount stays
  -- cleared, where the database is sound at the start.
  pub Reach-Owes :
      (s t : Store Decimal) (id : Uuid) (amount : Decimal)
      → Reach dec q cal jwt tax_env merchant_env s t
      → Tables s
      → IsPricing s
      → (stage_in s id ≡ owed amount → Owes amount (stage_in t id))
        × (stage_in s id ≡ cleared amount → stage_in t id ≡ cleared amount)
  Reach-Owes s t id amount here v w = (λ e. inl e, λ e. e)
  Reach-Owes s t id amount (next r c h) v w =
      let (v', _) = Reach-IsSound s _ r v w in
      let (owes, clear) = Reach-Owes s _ id amount r v w in
      let move = after-Move c _ id h v' in
      (λ e. Move-Owes move (owes e), λ e. Move-cleared move (clear e))

  -- In a sound database, `cashPayment` by the driver of an unpaid payment succeeds in taking the
  -- ride from owing exactly its amount to having cleared it.
  pub cash_clears :
      (id : Uuid) (user : Caller) (now : Time) (s : Store Decimal) (p : Payment Decimal)
      → Tables s
      → MayPay s id user p
      → is_paid p.status ≡ false
      → (stage_in s p.ride_id ≡ owed p.amount)
        × (stage_in (cash_payment dec id user now s).1 p.ride_id ≡ cleared p.amount)
  cash_clears id user now s p v may u =
      let listed = mem-find _ s.payments may.payment_row in
      let mine =
        find_unique (payment_of p.ride_id) p s.payments (v.one_payment p.ride_id) listed
          (==_refl p.ride_id) in
      let shut = All-mem _ listed v.none_open in
      let over : is_open may.ride.status ≡ false = ground (
        arith,
        shut,
        count-pos-of-mem (open_id p.ride_id) (mem-find _ s.rides may.ride_row),
        find_sound (ride_id_is p.ride_id) s.rides may.ride_row,
      ) in
      (
        ground (arith, may.ride_row, over, mine, u),
        elim (cash_payment-Outcome dec id user now s) [
          | refused e r ↦ absurd (cc (cash_payment_ok dec id user now s p may, r))
          | already p' a may' st r ↦
              absurd (ground (arith, may.payment_row, may'.payment_row, st, u))
          | written p' a may' st r ↦
              let paid_row =
                find-update_many (payment_of p.ride_id) (payment_id_is id) (paid_in_cash now)
                  s.payments (λ x _. refl) mine in
              rw r (
                ground (
                  arith,
                  may.ride_row,
                  over,
                  paid_row,
                  find_sound (payment_id_is id) s.payments may.payment_row,
                ))
        ],
      )
