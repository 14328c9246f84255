-- ===== src/Numbering/Order.antt =====
-- The order in which the payments of a window are numbered.
use typescript_version_taxi.Base.{
  All, All-mem, Bool, Bool-cases, List, Memᴰ, [], arith, count, count-le-of, false, filter, inl,
  inr, is_some, leb, length, ltb, not, or_else, some, true, ◌&&◌, ◌<◌, ◌==◌, ◌∙◌, ◌∷◌, ◌≡◌, ◌≤◌,
  ◌⊎◌,
}
use typescript_version_taxi.Base.Members.{All-and, All-of-mem, mem-filter}
use typescript_version_taxi.Base.Rows.{All-imp, count-filter-and, length-filter, mem-find}
use typescript_version_taxi.External.Calendar.{Calendar}
use typescript_version_taxi.External.Queries.{IsSorted, Queries}
use typescript_version_taxi.Numbering.{
  captured_first, due_payments, is_due, is_numbered, is_unnumbered,
}
use typescript_version_taxi.Numbering.Issue.{Distinct}
use typescript_version_taxi.Numbering.Window.{captured_in, to_assign, to_assign-row}
use typescript_version_taxi.Payment.{is_paid, payment_id_is}
use typescript_version_taxi.Payment.Outcome.{paid_of}
use typescript_version_taxi.Schema.{Payment, Store, Time, Uuid, paid}

module _ {D : Type 0} where
  -- The time of a payment's capture, in the window.
  abbrev pub IsCollected : Time → Time → Uuid → List (Payment D) → Payment D → Type 0
  IsCollected from to tenant rows p =
      Memᴰ p rows
      × (p.tenant_id ≡ tenant)
      × (p.status ≡ paid)
      × (is_numbered p ≡ false)
      × ((t : Time) × (p.captured_at ≡ some t) × (from ≤ t) × (t < to))

  -- `x` was captured earlier than `y`, or at the same time with the smaller id.
  abbrev pub IsBefore : Payment D → Payment D → Type 0
  IsBefore x y =
      (t : Time) × (u : Time) × (x.captured_at ≡ some t)
      × (y.captured_at ≡ some u)
      × ((t < u) ⊎ ((t ≡ u) × (x.id ≤ y.id)))

  -- Unnumbered payments of the window, each before all that follow it.
  abbrev pub IsOrdered : Time → Time → Uuid → List (Payment D) → List (Payment D) → Type 0
  IsOrdered from to tenant rows [] = Unit
  IsOrdered from to tenant rows (p ∷ ps) =
      IsCollected from to tenant rows p × All (IsBefore p) ps × IsOrdered from to tenant rows ps

  -- The payments of the table that a run has to number.
  abbrev pub is_open_bill : Uuid → Time → Time → Payment D → Bool
  is_open_bill tenant from to p =
      p.tenant_id == tenant
      && is_paid p.status
      && not (is_numbered p)
      && is_some p.captured_at
      && leb from (or_else p.captured_at 0)
      && ltb (or_else p.captured_at 0) to

  captured_first_total :
      (x y : Payment D) → (captured_first x y ≡ true) ⊎ (captured_first y x ≡ true)
  captured_first_total x y = elim (Bool-cases (captured_first x y)) [
    | inl e ↦ inl e
    | inr e ↦ inr (ground (arith, e))
  ]

  captured_first_trans :
      (x y z : Payment D)
      → captured_first x y ≡ true
      → captured_first y z ≡ true
      → captured_first x z ≡ true
  captured_first_trans x y z h k = ground (arith, h, k)

  IsBefore-of :
      (x y : Payment D) (t u : Time)
      → x.captured_at ≡ some t
      → y.captured_at ≡ some u
      → captured_first x y ≡ true
      → IsBefore x y
  IsBefore-of x y t u e g h = elim (Bool-cases (ltb t u)) [
    | inl earlier ↦ (t, u, e, g, inl (ground (arith, earlier)))
    | inr later ↦ (t, u, e, g, inr (ground (arith, e, g, h, later), ground (arith, e, g, h, later)))
  ]

  sorted-IsOrdered :
      (from to : Time) (tenant : Uuid) (rows ps : List (Payment D))
      → All (IsCollected from to tenant rows) ps
      → IsSorted captured_first ps
      → IsOrdered from to tenant rows ps
  sorted-IsOrdered from to tenant rows [] h k = tt
  sorted-IsOrdered from to tenant rows (p ∷ ps) h k =
      let (_, _, _, _, (t, at, _, _)) = h.0 in
      (
        h.0,
        All-imp _ _ (λ y (before, (_, _, _, _, (u, g, _, _))). IsBefore-of p y t u at g before) ps
            (All-and _ _ ps k.0 h.1),
        sorted-IsOrdered from to tenant rows ps h.1 k.1,
      )

IsSorted-filter :
    {A : Type 0} (before : A → A → Bool) (p : A → Bool) (xs : List A)
    → IsSorted before xs
    → IsSorted before (filter p xs)
IsSorted-filter before p [] h = tt
IsSorted-filter before p (x ∷ xs) h = elim (Bool-cases (p x)) [
  | inl e ↦ rw e (
    All-of-mem _ (filter p xs) (λ y m. All-mem _ (mem-filter p xs y m).0 h.0),
    IsSorted-filter before p xs h.1,
  )
  | inr e ↦ rw e (IsSorted-filter before p xs h.1)
]

module _ (q : Queries) (cal : Calendar) {D : Type 0} (tenant : Uuid) (from to : Time) where
  open q use {order_by_IsSorted, order_by_count}

  -- What a run numbers are unnumbered paid payments of the tenant captured in the window, each
  -- before all that follow it.
  pub to_assign-IsOrdered :
      (s : Store D)
      → Distinct s.payments
      → IsOrdered from to tenant s.payments (to_assign q cal tenant from to s)
  to_assign-IsOrdered s u =
      let ps = to_assign q cal tenant from to s in
      sorted-IsOrdered from to tenant s.payments ps
        (All-of-mem _ ps (λ p m.
          let (row, due, fresh) = to_assign-row q cal tenant from to s p u m in
          (
            mem-find (payment_id_is p.id) s.payments row,
            ground (arith, due),
            paid_of p.status (ground (arith, due)),
            ground (arith, fresh),
            captured_in from to p.captured_at (ground (arith, due)),
          )))
        (IsSorted-filter captured_first is_unnumbered (due_payments q cal tenant from to s) (
          order_by_IsSorted captured_first captured_first_total captured_first_trans
            (filter (is_due tenant from to) s.payments)))

  -- None of them is left out.
  pub length-to_assign :
      (s : Store D)
      → length (to_assign q cal tenant from to s) ≡ count (is_open_bill tenant from to) s.payments
  length-to_assign s =
      let chosen : Payment D → Bool = λ x. is_due tenant from to x && is_unnumbered x in
      let all : length (to_assign q cal tenant from to s) ≡ count chosen s.payments =
        length-filter is_unnumbered (due_payments q cal tenant from to s)
        ∙ order_by_count captured_first (filter (is_due tenant from to) s.payments) is_unnumbered
        ∙ count-filter-and is_unnumbered (is_due tenant from to) s.payments in
      let most = count-le-of chosen (is_open_bill tenant from to) (λ x. ground arith) s.payments in
      let least = count-le-of (is_open_bill tenant from to) chosen (λ x. ground arith) s.payments in
      omega (arith, all, most, least)
