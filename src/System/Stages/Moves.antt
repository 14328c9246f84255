-- ===== src/System/Stages/Moves.antt =====
-- A step of the rules moves no ride against the order of its stages.
use typescript_version_taxi.Base.{
  ==_iff, ==_refl, All-mem, Bool, Bool-cases, List, Memᴰ, Option-cases, [], arith, count, false,
  find, find_sound, inl, inr, none, refl, some, true, update_many, ◌++◌, ◌==◌, ◌∷◌, ◌≡◌,
}
use typescript_version_taxi.Base.Rows.{
  count-of-find-none, count-pos-of-mem, find-append, find-none-of-count, find-update_many,
  find-update_many-none, find_unique, mem-find, unique_row,
}
use typescript_version_taxi.Payment.{is_paid, payment_id_is}
use typescript_version_taxi.Payment.Safety.{SameMoney}
use typescript_version_taxi.Ride.Fare.{FareResult}
use typescript_version_taxi.Ride.Finish.{complete_ride, new_payment, payment_of}
use typescript_version_taxi.Ride.Finish.Outcome.{upserted}
use typescript_version_taxi.Ride.Guards.{begin_ride, is_open, ride_id_is}
use typescript_version_taxi.Schema.{Payment, Ride, Time, Uuid, ongoing}
use typescript_version_taxi.System.Changes.{
  Change, add_step, begin_step, end_step, idle_step, pay_step,
}
use typescript_version_taxi.System.Rules.{IsSound, open_id}
use typescript_version_taxi.System.Stages.{Move, begin, finish, pay, record_closed, stage, stay}

module _ {A : Type 0} where
  find-append_other :
      (p : A → Bool) (xs : List A) (y : A) → p y ≡ false → find p (xs ++ y ∷ []) ≡ find p xs
  find-append_other p [] y h = rw h refl
  find-append_other p (x ∷ xs) y h = ground (arith, find-append_other p xs y h)

  find-append_fresh :
      (p : A → Bool) (xs : List A) (y : A)
      → count p xs ≡ 0
      → p y ≡ true
      → find p (xs ++ y ∷ []) ≡ some y
  find-append_fresh p xs y e h = find-append p xs y (find-none-of-count p xs e) h

module _ {D : Type 0} (Priced : Ride D → Type 0) (rs : List (Ride D)) (ps : List (Payment D))
    (v : IsSound Priced rs ps) where
  -- The row found by an id, if the id is that of a row of the table, is that row.
  the_ride :
      (ride : Ride D) (id : Uuid)
      → Memᴰ ride rs
      → ride.id ≡ id
      → find (ride_id_is id) rs ≡ some ride
  the_ride ride id m e =
      find_unique (ride_id_is id) ride rs (v.unique_rides id) m ((==_iff ride.id id).1 e)

  no_payment :
      (ride : Ride D)
      → Memᴰ ride rs
      → is_open ride.status ≡ true
      → count (payment_of ride.id) ps ≡ 0
  no_payment ride m o = elim (Option-cases (find (payment_of ride.id) ps)) [
    | inl e ↦ count-of-find-none (payment_of ride.id) ps e
    | inr (p, e) ↦
        let same = find_sound (payment_of ride.id) ps e in
        let shut = All-mem _ (mem-find _ ps e) v.none_open in
        absurd (ground (arith, same, shut, count-pos-of-mem (open_id p.ride_id) m, o))
  ]

  begin-Move :
      (ride : Ride D) (now : Time) (id : Uuid)
      → Memᴰ ride rs
      → is_open ride.status ≡ true
      → stage (update_many (ride_id_is ride.id) (begin_ride now) rs) ps id ≡ stage rs ps id
  begin-Move ride now id m o = elim (Bool-cases (ride.id == id)) [
    | inl e ↦
        let e' = (==_iff ride.id id).0 e in
        ground (
          arith,
          the_ride ride id m e',
          find-update_many (ride_id_is id) (ride_id_is ride.id) (begin_ride now) rs (λ x _. refl)
              (the_ride ride id m e'),
          o,
        )
    | inr e ↦ elim (Option-cases (find (ride_id_is id) rs)) [
      | inl f ↦ ground (
        arith,
        f,
        find-update_many-none (ride_id_is id) (ride_id_is ride.id) (begin_ride now) rs (λ x _. refl)
            f,
      )
      | inr (r, f) ↦ ground (
        arith,
        f,
        find_sound (ride_id_is id) rs f,
        e,
        find-update_many (ride_id_is id) (ride_id_is ride.id) (begin_ride now) rs (λ x _. refl) f,
      )
    ]
  ]

  add-Move :
      (ride : Ride D) (id : Uuid)
      → count (ride_id_is ride.id) rs ≡ 0
      → count (payment_of ride.id) ps ≡ 0
      → Move D (stage rs ps id) (stage (rs ++ ride ∷ []) ps id)
  add-Move ride id f g = elim (Bool-cases (ride.id == id)) [
    | inl e ↦
        let e' = (==_iff ride.id id).0 e in
        let before : find (ride_id_is id) rs ≡ none = rw (← e') (find-none-of-count _ rs f) in
        let unpaid : find (payment_of id) ps ≡ none = rw (← e') (find-none-of-count _ ps g) in
        let shown = find-append (ride_id_is id) rs ride before e in
        elim (Bool-cases (is_open ride.status)) [
          | inl o ↦ begin ride.driver_profile_id (ground (arith, before)) (ground (arith, shown, o))
          | inr o ↦ record_closed (ground (arith, before)) (ground (arith, shown, o, unpaid))
        ]
    | inr e ↦ stay (ground (arith, find-append_other (ride_id_is id) rs ride e))
  ]

  end-Move :
      (ride : Ride D) (at : Time) (duration distance : D) (fare : FareResult D) (payment_id : Uuid)
      (now : Time) (id : Uuid)
      → Memᴰ ride rs
      → ride.status ≡ ongoing
      → let rs' = update_many (ride_id_is ride.id) (complete_ride at duration distance fare) rs in
        Move D (stage rs ps id) (stage rs' (upserted ride fare payment_id now ps) id)
  end-Move ride at duration distance fare payment_id now id m o =
      let due = find-none-of-count _ ps (no_payment ride m (ground (arith, o))) in
      elim (Bool-cases (ride.id == id)) [
        | inl e ↦
            let e' = (==_iff ride.id id).0 e in
            let before = the_ride ride id m e' in
            let unpaid : find (payment_of id) ps ≡ none = rw (← e') due in
            let owing =
              find-append (payment_of id) ps (new_payment ride fare payment_id now) unpaid e in
            let over =
              find-update_many (ride_id_is id) (ride_id_is ride.id)
                (complete_ride at duration distance fare) rs (λ x _. refl) before in
            finish ride.driver_profile_id fare.total (ground (arith, before, o))
              (ground (arith, due, over, owing))
        | inr e ↦
            let other =
              find-append_other (payment_of id) ps (new_payment ride fare payment_id now) e in
            elim (Option-cases (find (ride_id_is id) rs)) [
              | inl f ↦
                  let gone =
                    find-update_many-none (ride_id_is id) (ride_id_is ride.id)
                      (complete_ride at duration distance fare) rs (λ x _. refl) f in
                  stay (ground (arith, f, gone))
              | inr (r, f) ↦
                  let left =
                    find-update_many (ride_id_is id) (ride_id_is ride.id)
                      (complete_ride at duration distance fare) rs (λ x _. refl) f in
                  stay (ground (arith, f, find_sound (ride_id_is id) rs f, e, left, due, other))
            ]
      ]

  pay-Move :
      (p : Payment D) (f : Payment D → Payment D) (id : Uuid)
      → Memᴰ p ps
      → is_paid p.status ≡ false
      → ((x : Payment D) → SameMoney x (f x) × (is_paid (f x).status ≡ true))
      → Move D (stage rs ps id) (stage rs (update_many (payment_id_is p.id) f ps) id)
  pay-Move p f id m u k =
      let keeps : (x : Payment D)
          → payment_id_is p.id x ≡ true
          → payment_of id (f x) ≡ payment_of id x =
        λ x _. ground (arith, k x) in
      elim (Option-cases (find (payment_of id) ps)) [
        | inl e ↦
            let gone = find-update_many-none (payment_of id) (payment_id_is p.id) f ps keeps e in
            stay (ground (arith, e, gone))
        | inr (x, e) ↦
            let left = find-update_many (payment_of id) (payment_id_is p.id) f ps keeps e in
            elim (Bool-cases (x.id == p.id)) [
              | inr other ↦ stay (ground (arith, e, left, other))
              | inl same ↦
                  let it : x ≡ p =
                    All-mem _ (mem-find _ ps e)
                      (unique_row (payment_id_is p.id) p ps (v.unique_payments p.id) m
                        (==_refl p.id))
                      same in
                  elim (Option-cases (find (ride_id_is id) rs)) [
                    | inl g ↦ stay (ground (arith, g))
                    | inr (r, g) ↦ elim (Bool-cases (is_open r.status)) [
                      | inl o ↦ stay (ground (arith, g, o))
                      | inr o ↦
                          pay p.amount (ground (arith, g, o, e, it, u))
                            (ground (arith, g, o, left, same, it, k p))
                    ]
                  ]
            ]
      ]

module _ {D : Type 0} (Priced : Ride D → Type 0) (rs rs' : List (Ride D))
    (ps ps' : List (Payment D)) (v : IsSound Priced rs ps) where
  pub Change-Move :
      Change Priced rs rs' ps ps' → (id : Uuid) → Move D (stage rs ps id) (stage rs' ps' id)
  Change-Move (idle_step e f) id = rw (e, f) (stay refl)
  Change-Move (begin_step ride now m o e f) id =
      rw (e, f) (stay (begin-Move Priced rs ps v ride now id m o))
  Change-Move (add_step ride a b o k e f) id = rw (e, f) (add-Move Priced rs ps v ride id a b)
  Change-Move (end_step ride at t d fare payment_id now m o f e g) id =
      rw (e, g) (end-Move Priced rs ps v ride at t d fare payment_id now id m o)
  Change-Move (pay_step p f m u k e g) id = rw (e, g) (pay-Move Priced rs ps v p f id m u k)
