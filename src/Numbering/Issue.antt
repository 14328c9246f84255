-- ===== src/Numbering/Issue.antt =====
-- What one run of the loop writes.
use typescript_version_taxi.Base.{
  ==_refl, All, Bool-cases, List, [], ap, arith, count, count-le-of, count-update_many-le, false,
  find, inl, inr, length, none, ok, refl, some, suc, true, update_many, ℕ, ◌+◌, ◌<◌, ◌==◌, ◌∙◌, ◌∷◌,
  ◌≡◌, ◌≤◌,
}
use typescript_version_taxi.Base.Digits.{text_eq, text_eq_sound}
use typescript_version_taxi.Base.Members.{All-and}
use typescript_version_taxi.Base.Rows.{
  All-imp, All-of-count-zero, find-none-of-count, find-update_many,
}
use typescript_version_taxi.External.Calendar.{Calendar}
use typescript_version_taxi.Numbering.{
  Assigned, clashes, format_number, is_numbered, is_taken, issue_numbers, numbered, yyyymm,
}
use typescript_version_taxi.Numbering.Texts.{same_number}
use typescript_version_taxi.Payment.{is_paid, payment_id_is}
use typescript_version_taxi.Schema.{Payment, Store, Time, Uuid}

module _ {D : Type 0} where
  -- The primary key.
  abbrev pub Distinct : List (Payment D) → Type 0
  Distinct ps = (id : Uuid) → count (payment_id_is id) ps ≤ 1

  -- The numbers after `current`, one for each payment.
  abbrev pub assigned_from : List ℕ → ℕ → List (Payment D) → List Assigned
  assigned_from period current [] = []
  assigned_from period current (p ∷ ps) =
      record { payment_id = p.id; receipt_number = format_number period (current + 1) }
      ∷ assigned_from period (current + 1) ps

  -- The payments with those numbers.
  abbrev pub number_from : List ℕ → ℕ → List (Payment D) → List (Payment D) → List (Payment D)
  number_from period current [] rows = rows
  number_from period current (p ∷ ps) rows =
      number_from period (current + 1) ps
        (update_many (payment_id_is p.id) (numbered period (current + 1)) rows)

  abbrev pub with_payments : Store D → List (Payment D) → Store D
  with_payments s rows = record s { payments = rows }

-- The text of a number is not the one of a later number.
later_text :
    (period : List ℕ) (m n : ℕ)
    → m < n
    → text_eq (format_number period m) (format_number period n) ≡ false
later_text period m n late =
    elim (Bool-cases (text_eq (format_number period m) (format_number period n))) [
      | inr e ↦ e
      | inl e ↦
          let same =
            same_number period m n
              (text_eq_sound (format_number period m) (format_number period n) e) in
          absurd (omega (arith, same, late))
    ]

module _ (cal : Calendar) (tenant : Uuid) (period : List ℕ) {D : Type 0} where
  -- The unique key of the numbers leaves room: no payment of the tenant has a number of the period
  -- past `current`.
  abbrev pub Free : List (Payment D) → ℕ → Type 0
  Free rows current = (n : ℕ) → current < n → count (is_taken tenant period n) rows ≡ 0

  Free-clash :
      (id current : ℕ) (rows : List (Payment D))
      → Free rows current
      → find (clashes id tenant period (current + 1)) rows ≡ none
  Free-clash id current rows free =
      let fewer =
        count-le-of (clashes id tenant period (current + 1)) (is_taken tenant period (current + 1))
          (λ x. ground arith) rows in
      find-none-of-count (clashes id tenant period (current + 1)) rows
        (omega (arith, fewer, free (current + 1) (omega arith)))

  Free-after :
      (id current : ℕ) (rows : List (Payment D))
      → Free rows current
      → Free (update_many (payment_id_is id) (numbered period (current + 1)) rows) (current + 1)
  Free-after id current rows free n late =
      let apart = later_text period (current + 1) n late in
      let fewer =
        count-update_many-le (payment_id_is id) (is_taken tenant period n)
          (numbered period (current + 1)) (λ x _. ground (arith, apart)) rows in
      omega (arith, fewer, free n (omega arith))

  -- The loop gives this row a number: it stands in the table as it was read.
  pub record IsReady (rows : List (Payment D)) (p : Payment D) : Type 0 where
    pub at : Time
    pub row : find (payment_id_is p.id) rows ≡ some p
    pub own : (p.tenant_id == tenant) ≡ true
    pub settled : is_paid p.status ≡ true
    pub fresh : is_numbered p ≡ false
    pub captured : p.captured_at ≡ some at
    pub in_month : text_eq (yyyymm cal at) period ≡ true

  IsReady-after :
      (p : Payment D) (rows : List (Payment D)) (n : ℕ) (x : Payment D)
      → (payment_id_is p.id x ≡ false) × IsReady rows x
      → IsReady (update_many (payment_id_is p.id) (numbered period n) rows) x
  IsReady-after p rows n x (other, h) =
      let still =
        find-update_many (payment_id_is x.id) (payment_id_is p.id) (numbered period n) rows
          (λ y _. refl) h.row in
      record {
        at = h.at;
        row = still ∙ rw other refl;
        own = h.own;
        settled = h.settled;
        fresh = h.fresh;
        captured = h.captured;
        in_month = h.in_month;
      }

  pub issue_numbers_eq :
      (ps : List (Payment D)) (current : ℕ) (s : Store D)
      → Distinct ps
      → All (IsReady s.payments) ps
      → Free s.payments current
      → issue_numbers cal tenant period ps current s ≡ (
        ok (current + length ps, assigned_from period current ps),
        with_payments s (number_from period current ps s.payments),
      )
  unfolding issue_numbers
  issue_numbers_eq [] current s u h free = ap (λ n. (ok (n, []), s)) (omega arith)
  issue_numbers_eq (p ∷ ps) current s u h free =
      let head = h.0 in
      let first : count (payment_id_is p.id) ps ≡ 0 = ground (arith, u p.id, ==_refl p.id) in
      let others = All-of-count-zero (payment_id_is p.id) ps first in
      let rows = update_many (payment_id_is p.id) (numbered period (current + 1)) s.payments in
      let ready =
        All-imp _ _ (IsReady-after p s.payments (current + 1)) ps (All-and _ _ ps others h.1) in
      let rest =
        issue_numbers_eq ps (current + 1) (with_payments s rows) (λ id. ground (arith, u id)) ready
          (Free-after p.id current s.payments free) in
      let clear = Free-clash p.id current s.payments free in
      let total : current + 1 + length ps ≡ current + suc (length ps) = omega arith in
      ground (
        arith, head.row, head.own, head.settled, head.fresh, head.captured, head.in_month, clear,
        rest, total,
      )
