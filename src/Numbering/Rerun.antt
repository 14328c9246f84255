-- ===== src/Numbering/Rerun.antt =====
-- A second run.
use typescript_version_taxi.Base.{
  ==_refl, All, Bool, List, [], arith, count, count-update_many, count-update_many-le, false,
  filter, find, inl, inr, length, ok, refl, some, sym, true, update_many, ℕ, ◌&&◌, ◌+◌, ◌-◌, ◌<◌,
  ◌∙◌, ◌∷◌, ◌≡◌, ◌≤◌,
}
use typescript_version_taxi.Base.Digits.{text_eq_refl}
use typescript_version_taxi.Base.Members.{All-and, All-of-mem, List-cases}
use typescript_version_taxi.Base.Rows.{
  All-imp, All-of-count-zero, count-all, count-filter-and, count-update_many-take, find-update_many,
  length-filter, length-split, mem-find,
}
use typescript_version_taxi.External.Calendar.{Calendar}
use typescript_version_taxi.External.Queries.{Queries}
use typescript_version_taxi.Numbering.{
  captured_first, due_payments, is_due, is_mixed, is_numbered, is_unnumbered, last_number,
  nothing_assigned, numbered, yyyymm,
}
use typescript_version_taxi.Numbering.Assign.{
  Unmixed, assign_numbers_all, assign_numbers_none, before_run, due_now, renumbered, run_assign,
  used,
}
use typescript_version_taxi.Numbering.Issue.{Distinct, Free, number_from}
use typescript_version_taxi.Numbering.Texts.{has_text-format_number}
use typescript_version_taxi.Numbering.Window.{to_assign-Distinct, to_assign-row}
use typescript_version_taxi.Payment.{payment_id_is}
use typescript_version_taxi.Schema.{Payment, Store, Time, Uuid}

module _ {D : Type 0} where
  -- A row that the loop writes is one of the table, and its number is missing.
  abbrev pub Takes : (Payment D → Bool) → List (Payment D) → Payment D → Type 0
  Takes q rows p = (find (payment_id_is p.id) rows ≡ some p) × (q p ≡ true)

  pub Takes-after :
      (q : Payment D → Bool) (p : Payment D) (f : Payment D → Payment D) (rows : List (Payment D))
      → ((x : Payment D) → (f x).id ≡ x.id)
      → (x : Payment D) → (payment_id_is p.id x ≡ false) × Takes q rows x
      → Takes q (update_many (payment_id_is p.id) f rows) x
  Takes-after q p f rows k x (other, h) = (
    find-update_many (payment_id_is x.id) (payment_id_is p.id) f rows (λ y _. rw (k y) refl) h.0
        ∙ rw other refl,
    h.1,
  )

  -- A write keeps the primary key.
  pub written-Distinct :
      (p : Payment D) (period : List ℕ) (n : ℕ) (rows : List (Payment D))
      → Distinct rows
      → Distinct (update_many (payment_id_is p.id) (numbered period n) rows)
  written-Distinct p period n rows v id = omega (
    arith,
    v id,
    count-update_many (payment_id_is p.id) (payment_id_is id) (numbered period n) (λ x _. refl)
        rows,
  )

  -- Each write takes its row out of the count.
  pub count-number_from :
      (q : Payment D → Bool) (period : List ℕ)
      → ((n : ℕ) (x : Payment D) → q (numbered period n x) ≡ false)
      → (ps : List (Payment D)) (current : ℕ) (rows : List (Payment D)) → Distinct ps
      → Distinct rows
      → All (Takes q rows) ps
      → count q (number_from period current ps rows) + length ps ≡ count q rows
  count-number_from q period out [] current rows u v h = omega arith
  count-number_from q period out (p ∷ ps) current rows u v h =
      let first : count (payment_id_is p.id) ps ≡ 0 = ground (arith, u p.id, ==_refl p.id) in
      let others = All-of-count-zero (payment_id_is p.id) ps first in
      let write = numbered period (current + 1) in
      let still =
        All-imp _ _ (Takes-after q p write rows (λ x. refl)) ps (All-and _ _ ps others h.1) in
      let keep = written-Distinct p period (current + 1) rows v in
      let rest =
        count-number_from q period out ps (current + 1)
          (update_many (payment_id_is p.id) write rows) (λ id. ground (arith, u id)) keep still in
      let taken =
        count-update_many-take (payment_id_is p.id) q write p rows (v p.id)
          (mem-find (payment_id_is p.id) rows h.0.0) (==_refl p.id) h.0.1 (out (current + 1) p) in
      omega (arith, rest, taken)

  -- A count that no write raises.
  pub count-number_from-le :
      (q : Payment D → Bool) (period : List ℕ)
      → ((n : ℕ) (x : Payment D) → q (numbered period n x) ≡ false)
      → (ps : List (Payment D)) (current : ℕ) (rows : List (Payment D))
      → count q (number_from period current ps rows) ≤ count q rows
  count-number_from-le q period out [] current rows = omega arith
  count-number_from-le q period out (p ∷ ps) current rows = omega (
    arith,
    count-number_from-le q period out ps (current + 1)
        (update_many (payment_id_is p.id) (numbered period (current + 1)) rows),
    count-update_many-le (payment_id_is p.id) q (numbered period (current + 1))
        (λ x _ e. absurd (cc (e, out (current + 1) x))) rows,
  )

module _ (q : Queries) (cal : Calendar) {D : Type 0} (tenant : Uuid) (from to : Time) where
  open q use {order_by_mem, order_by_count}

  length-due :
      (r : Payment D → Bool) (s : Store D)
      → length (filter r (due_payments q cal tenant from to s))
        ≡ count (λ x. is_due tenant from to x && r x) s.payments
  length-due r s =
      length-filter r (due_payments q cal tenant from to s)
      ∙ order_by_count captured_first (filter (is_due tenant from to) s.payments) r
      ∙ count-filter-and r (is_due tenant from to) s.payments

  length-due_payments :
      (s : Store D)
      → length (due_payments q cal tenant from to s) ≡ count (is_due tenant from to) s.payments
  length-due_payments s =
      sym (count-all (due_payments q cal tenant from to s))
      ∙ order_by_count captured_first (filter (is_due tenant from to) s.payments) (λ x. true)
      ∙ count-all (filter (is_due tenant from to) s.payments)
      ∙ length-filter (is_due tenant from to) s.payments

  due_after :
      (period : List ℕ) (ps : List (Payment D)) (current : ℕ) (rows : List (Payment D))
      → count (is_due tenant from to) (number_from period current ps rows)
        ≡ count (is_due tenant from to) rows
  due_after period [] current rows = refl
  due_after period (p ∷ ps) current rows =
      due_after period ps (current + 1) _
      ∙ count-update_many (payment_id_is p.id) (is_due tenant from to)
          (numbered period (current + 1)) (λ x _. refl) rows

  before_run_all :
      (s : Store D)
      → due_now q cal tenant from to s ≡ []
      → before_run q cal tenant from to s ≡ length (due_payments q cal tenant from to s)
  before_run_all s e =
      ground (arith, e, length-split is_numbered (due_payments q cal tenant from to s))

  abbrev unnumbered_due : Payment D → Bool
  unnumbered_due x = is_due tenant from to x && is_unnumbered x

  -- No collected payment is left without a number.
  renumbered_none :
      (s : Store D)
      → Distinct s.payments
      → due_now q cal tenant from to
          (renumbered tenant (yyyymm cal from) (due_now q cal tenant from to s) s)
        ≡ []
  renumbered_none s u =
      let ps = due_now q cal tenant from to s in
      let later = renumbered tenant (yyyymm cal from) ps s in
      let gone =
        count-number_from unnumbered_due (yyyymm cal from)
          (λ n x. ground (arith, has_text-format_number (yyyymm cal from) n)) ps
          (used tenant (yyyymm cal from) s) s.payments (to_assign-Distinct q cal tenant from to s u)
          u
          (All-of-mem _ ps (λ p m.
            let (row, due, fresh) = to_assign-row q cal tenant from to s p u m in
            (row, ground (arith, due, fresh)))) in
      elim (List-cases (due_now q cal tenant from to later)) [
        | inl e ↦ e
        | inr (p, xs, e) ↦
            absurd
              (ground (arith, gone, length-due is_unnumbered s, length-due is_unnumbered later, e))
      ]

  -- For a non-empty window within one month, unique ids of payments, no collected payment numbered
  -- in another period, and no payment of the tenant with a number of the month past the counter, a
  -- second run of the same window assigns nothing, writes nothing, and reports every collected
  -- payment as numbered and the counter as it stands.
  pub assign_numbers_again :
      (s : Store D)
      → Distinct s.payments
      → from < to
      → yyyymm cal from ≡ yyyymm cal (to - 1)
      → Unmixed q cal tenant from to s
      → Free cal tenant (yyyymm cal from) s.payments (used tenant (yyyymm cal from) s)
      → let again = run_assign q cal tenant from to s in
        run_assign q cal tenant from to again.1 ≡ (
          ok (
              nothing_assigned tenant
                (yyyymm cal from)
                (last_number tenant (yyyymm cal from) again.1)
                (length (due_payments q cal tenant from to s))),
          again.1,
        )
  assign_numbers_again s u h e m free =
      elim (assign_numbers_all q cal tenant from to s u h e m free).2 [
        | inl (none_due, r) ↦ rw r (
            assign_numbers_none q cal tenant from to s h e m none_due
            ∙ rw (before_run_all s none_due) refl)
        | inr r ↦
            let period = yyyymm cal from in
            let ps = due_now q cal tenant from to s in
            let later = renumbered tenant period ps s in
            let none_due = renumbered_none s u in
            let unmixed : Unmixed q cal tenant from to later = ground (
              arith,
              m,
              count-number_from-le
                  (λ x. is_due tenant from to x && (is_numbered x && is_mixed period x)) period
                  (λ n x. ground (arith, text_eq_refl period)) ps (used tenant period s) s.payments,
            ) in
            let all : length (due_payments q cal tenant from to later)
                ≡ length (due_payments q cal tenant from to s) =
              length-due_payments later
              ∙ due_after period ps (used tenant period s) s.payments
              ∙ sym (length-due_payments s) in
            rw r (
              assign_numbers_none q cal tenant from to later h e unmixed none_due
              ∙ rw (before_run_all later none_due, all) refl)
      ]
