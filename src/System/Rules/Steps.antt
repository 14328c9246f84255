-- ===== src/System/Rules/Steps.antt =====
-- A step of the rules keeps the tables sound.
use typescript_version_taxi.Base.{
  All, All-append, All-mem, All-update_many, List, Memᴰ, Option-cases, [], arith, count,
  count-append, count-update_many, find, inl, inr, refl, true, update_many, ◌++◌, ◌∙◌, ◌∷◌, ◌≡◌,
}
use typescript_version_taxi.Base.Members.{All-of-mem}
use typescript_version_taxi.Base.Rows.{All-imp, All-of-count-zero}
use typescript_version_taxi.Payment.{is_paid, payment_id_is}
use typescript_version_taxi.Payment.Safety.{SameMoney, UniquePayments}
use typescript_version_taxi.Ride.Fare.{FareResult}
use typescript_version_taxi.Ride.Finish.{complete_ride, payment_of, reopen_payment}
use typescript_version_taxi.Ride.Finish.Effects.{upserted-OnePayment}
use typescript_version_taxi.Ride.Finish.Outcome.{upserted}
use typescript_version_taxi.Ride.Guards.{begin_ride, is_open, open_ride_of, ride_id_is}
use typescript_version_taxi.Schema.{Payment, Ride, Time, Uuid}
use typescript_version_taxi.System.Changes.{
  Change, add_step, begin_step, end_step, idle_step, pay_step,
}
use typescript_version_taxi.System.Rules.{IsSound, begun-count, ended-le, ended-zero, open_id}

module _ {D : Type 0} (Priced : Ride D → Type 0)
    (begin_keeps : (r : Ride D) (now : Time) → Priced r → Priced (begin_ride now r))
    (end_keeps : (r : Ride D) (at : Time) (t d : D) (fare : FareResult D)
      → Priced r
      → Priced (complete_ride at t d fare r)) where
  begin-IsSound :
      (rs : List (Ride D)) (ps : List (Payment D)) (ride : Ride D) (now : Time)
      → IsSound Priced rs ps
      → Memᴰ ride rs
      → is_open ride.status ≡ true
      → IsSound Priced (update_many (ride_id_is ride.id) (begin_ride now) rs) ps
  begin-IsSound rs ps ride now v m o = record {
    unique_rides = λ id. omega (
      arith,
      v.unique_rides id,
      count-update_many (ride_id_is ride.id) (ride_id_is id) (begin_ride now) (λ x _. refl) rs,
    );
    one_open = λ p. omega (
      arith,
      v.one_open p,
      begun-count (open_ride_of p) rs ride now v.unique_rides m (ground (arith, o)),
    );
    priced =
        All-update_many Priced (ride_id_is ride.id) (begin_ride now) (λ x _ k. begin_keeps x now k)
          rs v.priced;
    unique_payments = v.unique_payments;
    one_payment = v.one_payment;
    none_open =
        All-imp _ _
          (λ p k.
            begun-count (open_id p.ride_id) rs ride now v.unique_rides m (ground (arith, o)) ∙ k)
          ps v.none_open;
  }

  add-IsSound :
      (rs : List (Ride D)) (ps : List (Payment D)) (ride : Ride D)
      → IsSound Priced rs ps
      → count (ride_id_is ride.id) rs ≡ 0
      → count (payment_of ride.id) ps ≡ 0
      → count (open_ride_of ride.driver_profile_id) rs ≡ 0
      → Priced ride
      → IsSound Priced (rs ++ ride ∷ []) ps
  add-IsSound rs ps ride v f g o priced = record {
    unique_rides = λ id. grind (arith, v.unique_rides id, f, count-append);
    one_open = λ p. grind (arith, v.one_open p, o, count-append);
    priced = All-append Priced rs _ v.priced (priced, tt);
    unique_payments = v.unique_payments;
    one_payment = v.one_payment;
    none_open = All-of-mem _ ps (λ p m.
        let other = All-mem _ m (All-of-count-zero (payment_of ride.id) ps g) in
        let shut = All-mem _ m v.none_open in grind (arith, other, shut, count-append));
  }

  module _ (rs : List (Ride D)) (ps : List (Payment D)) (ride : Ride D) (at : Time)
      (duration distance : D) (fare : FareResult D) (id : Uuid) (now : Time) where
    abbrev ended_rides : List (Ride D)
    ended_rides = update_many (ride_id_is ride.id) (complete_ride at duration distance fare) rs

    none_open_yet :
        All (λ p. count (open_id p.ride_id) rs ≡ 0) ps
        → All (λ p. count (open_id p.ride_id) ended_rides ≡ 0) ps
    none_open_yet h =
        All-imp _ _
          (λ p k. omega (
            arith,
            k,
            ended-le at duration distance fare (open_id p.ride_id) rs ride (λ x. ground arith),
          ))
          ps h

    upserted_unique :
        UniquePayments ps
        → count (payment_id_is id) ps ≡ 0
        → UniquePayments (upserted ride fare id now ps)
    upserted_unique u f i = elim (Option-cases (find (payment_of ride.id) ps)) [
      | inl e ↦ rw e (grind (arith, u i, f, count-append))
      | inr (p, e) ↦ rw e (
          omega (
            arith,
            u i,
            count-update_many (payment_of ride.id) (payment_id_is i) (reopen_payment fare now)
                (λ x _. refl) ps,
          ))
    ]

    upserted-none_open :
        All (λ p. count (open_id p.ride_id) rs ≡ 0) ps
        → All (λ p. count (open_id p.ride_id) ended_rides ≡ 0) (upserted ride fare id now ps)
    upserted-none_open h = elim (Option-cases (find (payment_of ride.id) ps)) [
      | inl e ↦ rw e (
          All-append (λ p. count (open_id p.ride_id) ended_rides ≡ 0) ps _ (none_open_yet h)
            (ended-zero at duration distance fare rs ride, tt))
      | inr (p, e) ↦ rw e (
          All-update_many (λ p. count (open_id p.ride_id) ended_rides ≡ 0) (payment_of ride.id)
            (reopen_payment fare now) (λ x _ k. k) ps (none_open_yet h))
    ]

    end-IsSound :
        IsSound Priced rs ps
        → count (payment_id_is id) ps ≡ 0
        → IsSound Priced ended_rides (upserted ride fare id now ps)
    end-IsSound v f = record {
      unique_rides = λ i. omega (
        arith,
        v.unique_rides i,
        count-update_many (ride_id_is ride.id) (ride_id_is i)
            (complete_ride at duration distance fare) (λ x _. refl) rs,
      );
      one_open = λ p. omega (
        arith,
        v.one_open p,
        ended-le at duration distance fare (open_ride_of p) rs ride (λ x. ground arith),
      );
      priced =
          All-update_many Priced (ride_id_is ride.id) (complete_ride at duration distance fare)
            (λ x _ k. end_keeps x at duration distance fare k) rs v.priced;
      unique_payments = upserted_unique v.unique_payments f;
      one_payment = upserted-OnePayment ride fare id now ps v.one_payment;
      none_open = upserted-none_open v.none_open;
    }

  pay-IsSound :
      (rs : List (Ride D)) (ps : List (Payment D)) (p : Payment D) (f : Payment D → Payment D)
      → IsSound Priced rs ps
      → ((x : Payment D) → SameMoney x (f x) × (is_paid (f x).status ≡ true))
      → IsSound Priced rs (update_many (payment_id_is p.id) f ps)
  pay-IsSound rs ps p f v k = record {
    unique_rides = v.unique_rides;
    one_open = v.one_open;
    priced = v.priced;
    unique_payments = λ i. omega (
      arith,
      v.unique_payments i,
      count-update_many (payment_id_is p.id) (payment_id_is i) f (λ x _. ground (arith, k x)) ps,
    );
    one_payment = λ i. omega (
      arith,
      v.one_payment i,
      count-update_many (payment_id_is p.id) (payment_of i) f (λ x _. ground (arith, k x)) ps,
    );
    none_open =
        All-update_many (λ p. count (open_id p.ride_id) rs ≡ 0) (payment_id_is p.id) f
          (λ x _ h. rw ((k x).0.1) h) ps v.none_open;
  }

  -- A step of the rules keeps the tables sound.
  pub Change-IsSound :
      (rs rs' : List (Ride D)) (ps ps' : List (Payment D))
      → IsSound Priced rs ps
      → Change Priced rs rs' ps ps'
      → IsSound Priced rs' ps'
  Change-IsSound rs rs' ps ps' v (idle_step e f) = rw (e, f) v
  Change-IsSound rs rs' ps ps' v (begin_step ride now m o e f) =
      rw (e, f) (begin-IsSound rs ps ride now v m o)
  Change-IsSound rs rs' ps ps' v (add_step ride a b o k e f) =
      rw (e, f) (add-IsSound rs ps ride v a b o k)
  Change-IsSound rs rs' ps ps' v (end_step ride at t d fare id now m o f e g) =
      rw (e, g) (end-IsSound rs ps ride at t d fare id now v f)
  Change-IsSound rs rs' ps ps' v (pay_step p f m u k e g) = rw (e, g) (pay-IsSound rs ps p f v k)
