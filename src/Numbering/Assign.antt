-- ===== src/Numbering/Assign.antt =====
-- What `assignSimplifiedReceiptNumbers` returns and writes.
use typescript_version_taxi.Base.{
  ==_refl, All, List, Option-cases, Result, [], arith, count, false, find, find_sound,
  if◌then◌else◌, inl, inr, is_some, leb, length, none, ok, or_else, refl, some, subst, true,
  update_many, ℕ, ◌&&◌, ◌++◌, ◌+◌, ◌-◌, ◌<◌, ◌∙◌, ◌∷◌, ◌≡◌, ◌⊎◌,
}
use typescript_version_taxi.Base.Digits.{text_eq, text_eq_refl}
use typescript_version_taxi.Base.Members.{List-cases}
use typescript_version_taxi.Base.Rows.{find-append, find-none-of-count, find-update_many}
use typescript_version_taxi.External.Calendar.{Calendar}
use typescript_version_taxi.External.Queries.{Queries}
use typescript_version_taxi.Numbering.{
  NumberingResult, all_assigned, assert_single_month, assign_simplified_receipt_numbers, is_due,
  is_mixed, is_numbered, last_number, nothing_assigned, number_all, sequence_of, yyyymm,
}
use typescript_version_taxi.Numbering.Issue.{
  Distinct, Free, IsReady, assigned_from, issue_numbers_eq, number_from,
}
use typescript_version_taxi.Numbering.Order.{
  IsOrdered, is_open_bill, length-to_assign, to_assign-IsOrdered,
}
use typescript_version_taxi.Numbering.Window.{
  count-due, numbered_before, to_assign, to_assign-Distinct, to_assign-IsReady,
}
use typescript_version_taxi.Schema.{NumberSequence, Payment, Store, Time, Uuid}

module _ {D : Type 0} where
  -- The last number used for the period, zero before the first one.
  abbrev pub used : Uuid → List ℕ → Store D → ℕ
  used tenant period s = or_else (last_number tenant period s) 0

  abbrev pub opened : Uuid → List ℕ → Store D → List NumberSequence
  opened tenant period s =
      if is_some (last_number tenant period s)
      then s.number_sequences
      else s.number_sequences ++ record { tenant_id = tenant; period = period; current = 0 } ∷ []

  -- The counter is moved to `last`.
  abbrev pub counted : Uuid → List ℕ → ℕ → Store D → List NumberSequence
  counted tenant period last s =
      update_many (sequence_of tenant period) (λ n. record n { current = last })
        (opened tenant period s)

  -- The store after the numbers have been given.
  abbrev pub renumbered : Uuid → List ℕ → List (Payment D) → Store D → Store D
  renumbered tenant period ps s = record s {
    payments = number_from period (used tenant period s) ps s.payments;
    number_sequences = counted tenant period (used tenant period s + length ps) s;
  }

  pub last_number-counted :
      (tenant : Uuid) (period : List ℕ) (last : ℕ) (s : Store D)
      → last_number tenant period (record s { number_sequences = counted tenant period last s })
        ≡ some last
  last_number-counted tenant period last s =
      elim (Option-cases (find (sequence_of tenant period) s.number_sequences)) [
        | inl e ↦
            let found =
              find-append (sequence_of tenant period) s.number_sequences
                (record { tenant_id = tenant; period = period; current = 0 }) e
                (ground (arith, ==_refl tenant, text_eq_refl period)) in
            let moved =
              find-update_many (sequence_of tenant period) (sequence_of tenant period)
                (λ n. record n { current = last })
                {a = record { tenant_id = tenant; period = period; current = 0 }}
                (opened tenant period s) (λ x _. refl) in
            ground (arith, e, found, moved, ==_refl tenant, text_eq_refl period)
        | inr (n, e) ↦
            let moved =
              find-update_many (sequence_of tenant period) (sequence_of tenant period)
                (λ n. record n { current = last }) {a = n} (opened tenant period s) (λ x _. refl) in
            let matched = find_sound (sequence_of tenant period) s.number_sequences e in
            ground (arith, e, moved, matched)
      ]

module _ (cal : Calendar) (tenant : Uuid) (period : List ℕ) {D : Type 0} where
  pub number_all_eq :
      (ps : List (Payment D)) (s : Store D)
      → Distinct ps
      → All (IsReady cal tenant period s.payments) ps
      → Free cal tenant period s.payments (used tenant period s)
      → number_all cal tenant period ps s ≡ (
        ok (
          used tenant period s,
          used tenant period s + length ps,
          assigned_from period (used tenant period s) ps,
        ),
        renumbered tenant period ps s,
      )
  unfolding number_all
  number_all_eq ps s u h free =
      elim (Option-cases (find (sequence_of tenant period) s.number_sequences)) [
        | inl e ↦
            let first_use : used tenant period s ≡ 0 = ground (arith, e) in
            let found =
              find-append (sequence_of tenant period) s.number_sequences
                (record { tenant_id = tenant; period = period; current = 0 }) e
                (ground (arith, ==_refl tenant, text_eq_refl period)) in
            let issue =
              issue_numbers_eq cal tenant period ps 0
                (record s {
                  number_sequences =
                      s.number_sequences
                      ++ record { tenant_id = tenant; period = period; current = 0 } ∷ [];
                })
                u h (subst (λ c. Free cal tenant period s.payments c) first_use free) in
            ground (arith, e, found, issue)
        | inr (n, e) ↦
            let in_use : used tenant period s ≡ n.current = ground (arith, e) in
            let issue =
              issue_numbers_eq cal tenant period ps n.current s u h
                (subst (λ c. Free cal tenant period s.payments c) in_use free) in
            ground (arith, e, issue)
      ]

module _ (cal : Calendar) (from to : Time) where
  ordered_window : from < to → leb to from ≡ false
  ordered_window h = ground arith

  same_period :
      yyyymm cal from ≡ yyyymm cal (to - 1) → text_eq (yyyymm cal from) (yyyymm cal (to - 1)) ≡ true
  same_period e = rw (← e) (text_eq_refl (yyyymm cal from))

module _ (q : Queries) (cal : Calendar) {D : Type 0} (tenant : Uuid) (from to : Time) where
  abbrev pub run_assign : Store D → Result NumberingResult × Store D
  run_assign = assign_simplified_receipt_numbers q cal (some tenant) from to

  -- No payment that the run collects has a number of another period.
  abbrev pub Unmixed : Store D → Type 0
  Unmixed s =
      count (λ p. is_due tenant from to p && (is_numbered p && is_mixed (yyyymm cal from) p))
        s.payments
      ≡ 0

  abbrev pub before_run : Store D → ℕ
  before_run s = length (numbered_before q cal tenant from to s)

  abbrev pub due_now : Store D → List (Payment D)
  due_now = to_assign q cal tenant from to

  none_mixed :
      (s : Store D)
      → Unmixed s
      → find (is_mixed (yyyymm cal from)) (numbered_before q cal tenant from to s) ≡ none
  none_mixed s m =
      find-none-of-count (is_mixed (yyyymm cal from)) (numbered_before q cal tenant from to s)
        (count-due q cal tenant from to (is_mixed (yyyymm cal from)) is_numbered s ∙ m)

  pub assign_numbers_none :
      (s : Store D)
      → from < to
      → yyyymm cal from ≡ yyyymm cal (to - 1)
      → Unmixed s
      → due_now s ≡ []
      → run_assign s ≡ (
        ok (
            nothing_assigned tenant
              (yyyymm cal from)
              (last_number tenant (yyyymm cal from) s)
              (before_run s)),
        s,
      )
  unfolding assign_simplified_receipt_numbers assert_single_month
  assign_numbers_none s h e m none_due =
      ground
        (arith, ordered_window cal from to h, same_period cal from to e, none_mixed s m, none_due)

  -- For a non-empty window within one month, unique ids of payments, no collected payment numbered
  -- in another period, and no payment of the tenant with a number of the month past the counter
  -- (the unique key of the numbers), the run does not throw: exactly the tenant's paid payments
  -- that were captured in the window and have no number get the next ones, in the order of their
  -- capture and, at the same time, of their ids; the counter moves by as many, and with none to
  -- number nothing is written.
  pub assign_numbers_all :
      (s : Store D)
      → Distinct s.payments
      → from < to
      → yyyymm cal from ≡ yyyymm cal (to - 1)
      → Unmixed s
      → Free cal tenant (yyyymm cal from) s.payments (used tenant (yyyymm cal from) s)
      → IsOrdered from to tenant s.payments (due_now s)
        × (length (due_now s) ≡ count (is_open_bill tenant from to) s.payments)
        × (((due_now s ≡ [])
              × (run_assign s ≡ (
                ok (
                    nothing_assigned tenant
                      (yyyymm cal from)
                      (last_number tenant (yyyymm cal from) s)
                      (before_run s)),
                s,
              )))
            ⊎ (run_assign s ≡ (
              ok (
                  all_assigned tenant
                    (yyyymm cal from)
                    (
                      used tenant (yyyymm cal from) s,
                      used tenant (yyyymm cal from) s + length (due_now s),
                      assigned_from (yyyymm cal from) (used tenant (yyyymm cal from) s) (due_now s),
                    )
                    (before_run s)),
              renumbered tenant (yyyymm cal from) (due_now s) s,
            )))
  unfolding assign_simplified_receipt_numbers assert_single_month
  assign_numbers_all s u h e m free =
      let all =
        number_all_eq cal tenant (yyyymm cal from) (due_now s) s
          (to_assign-Distinct q cal tenant from to s u)
          (to_assign-IsReady q cal tenant from to s u e) free in
      (
        to_assign-IsOrdered q cal tenant from to s u,
        length-to_assign q cal tenant from to s,
        elim (List-cases (due_now s)) [
          | inl none_due ↦ inl (none_due, assign_numbers_none s h e m none_due)
          | inr (p, ps, due) ↦ inr (
              ground (
                arith,
                ordered_window cal from to h,
                same_period cal from to e,
                none_mixed s m,
                due,
                all,
              ))
        ],
      )
