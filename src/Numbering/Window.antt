-- ===== src/Numbering/Window.antt =====
-- The payments that a run collects.
use typescript_version_taxi.Base.{
  ==_refl, All, Bool, List, Memᴰ, Option, arith, count, filter, find, none, refl, some, true, ◌&&◌,
  ◌-◌, ◌<◌, ◌∙◌, ◌≡◌, ◌≤◌,
}
use typescript_version_taxi.Base.Digits.{text_eq_refl}
use typescript_version_taxi.Base.Members.{All-of-mem, mem-filter}
use typescript_version_taxi.Base.Rows.{count-filter-and, count-filter-le, find_unique}
use typescript_version_taxi.External.Calendar.{Calendar}
use typescript_version_taxi.External.Queries.{Queries}
use typescript_version_taxi.Numbering.{
  captured_first, due_payments, is_due, is_in_window, is_numbered, is_unnumbered, yyyymm,
}
use typescript_version_taxi.Numbering.Issue.{Distinct, IsReady}
use typescript_version_taxi.Numbering.Months.{same_month}
use typescript_version_taxi.Payment.{payment_id_is}
use typescript_version_taxi.Ride.Night.{in_window}
use typescript_version_taxi.Schema.{Payment, Store, Time, Uuid}

pub captured_in :
    (from to : Time) (at : Option Time)
    → is_in_window from to at ≡ true
    → (t : Time) × (at ≡ some t) × (from ≤ t) × (t < to)
captured_in from to none h = cc
captured_in from to (some t) h = (t, refl, ground arith, ground arith)

module _ (q : Queries) (cal : Calendar) {D : Type 0} (tenant : Uuid) (from to : Time) where
  open q use {order_by_mem, order_by_count}

  abbrev pub to_assign : Store D → List (Payment D)
  to_assign s = filter is_unnumbered (due_payments q cal tenant from to s)

  abbrev pub numbered_before : Store D → List (Payment D)
  numbered_before s = filter is_numbered (due_payments q cal tenant from to s)

  -- A count of the collected rows is one of the table.
  pub count-due :
      (p r : Payment D → Bool) (s : Store D)
      → count p (filter r (due_payments q cal tenant from to s))
        ≡ count (λ x. is_due tenant from to x && (r x && p x)) s.payments
  count-due p r s =
      count-filter-and p r (due_payments q cal tenant from to s)
      ∙ order_by_count captured_first (filter (is_due tenant from to) s.payments) (λ x. r x && p x)
      ∙ count-filter-and (λ x. r x && p x) (is_due tenant from to) s.payments

  pub to_assign-Distinct : (s : Store D) → Distinct s.payments → Distinct (to_assign s)
  to_assign-Distinct s u id = omega (
    arith,
    count-filter-le (payment_id_is id) is_unnumbered (due_payments q cal tenant from to s),
    order_by_count captured_first (filter (is_due tenant from to) s.payments) (payment_id_is id),
    count-filter-le (payment_id_is id) (is_due tenant from to) s.payments,
    u id,
  )

  -- What is collected stands in the table, is due and has no number.
  pub to_assign-row :
      (s : Store D) (p : Payment D)
      → Distinct s.payments
      → Memᴰ p (to_assign s)
      → (find (payment_id_is p.id) s.payments ≡ some p)
        × (is_due tenant from to p ≡ true)
        × (is_unnumbered p ≡ true)
  to_assign-row s p u m =
      let (listed, fresh) = mem-filter _ _ p m in
      let (row, due) = mem-filter _ _ p (order_by_mem _ _ p listed) in
      (find_unique (payment_id_is p.id) p s.payments (u p.id) row (==_refl p.id), due, fresh)

  pub to_assign-IsReady :
      (s : Store D)
      → Distinct s.payments
      → yyyymm cal from ≡ yyyymm cal (to - 1)
      → All (IsReady cal tenant (yyyymm cal from) s.payments) (to_assign s)
  to_assign-IsReady s u e = All-of-mem _ (to_assign s) (λ p m.
      let (row, due, fresh) = to_assign-row s p u m in
      let (t, at_time, not_before, in_window) = captured_in from to p.captured_at (ground arith) in
      record {
        at = t;
        row = row;
        own = ground arith;
        settled = ground arith;
        fresh = ground arith;
        captured = at_time;
        in_month =
            rw (same_month cal from (to - 1) t not_before (omega (arith, in_window)) e)
              (text_eq_refl (yyyymm cal from));
      })
