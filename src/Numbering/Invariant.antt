-- ===== src/Numbering/Invariant.antt =====
-- Every run keeps the numbers apart, whatever its window.
use typescript_version_taxi.Base.{
  ==_refl, Bool-cases, List, Option, Option-cases, ap, arith, count, count-le-of, false, find, inl,
  inr, is_some, leb, length, none, or_else, refl, some, sym, true, update_many, ℕ, ◌+◌, ◌-◌, ◌<◌,
  ◌∙◌, ◌≡◌, ◌≤◌,
}
use typescript_version_taxi.Base.Digits.{text_eq, text_eq_refl, text_eq_sound}
use typescript_version_taxi.Base.Members.{All-of-mem, List-cases}
use typescript_version_taxi.Base.Rows.{find-append_other, find-update_many_other}
use typescript_version_taxi.External.Calendar.{Calendar}
use typescript_version_taxi.External.Queries.{Queries}
use typescript_version_taxi.Numbering.{
  assert_single_month, assign_simplified_receipt_numbers, format_number, is_mixed, is_taken,
  last_number, numbered, sequence_of, yyyymm,
}
use typescript_version_taxi.Numbering.Assign.{
  counted, last_number-counted, number_all_eq, opened, renumbered, used,
}
use typescript_version_taxi.Numbering.Issue.{Distinct, Free}
use typescript_version_taxi.Numbering.Rerun.{Takes, written-Distinct}
use typescript_version_taxi.Numbering.Unique.{
  Numbered, Written-cases, has_number, number_from-keeps, other_write, own, write_keeps,
}
use typescript_version_taxi.Numbering.Window.{
  numbered_before, to_assign, to_assign-Distinct, to_assign-IsReady, to_assign-row,
}
use typescript_version_taxi.Payment.{payment_id_is}
use typescript_version_taxi.Schema.{NumberSequence, Payment, Store, Time, Uuid}

module _ (cal : Calendar) {D : Type 0} where
  -- Of each tenant and month, a number is on one payment at most, and on none past the counter.
  pub record UniqueNumbers (s : Store D) : Type 0 where
    pub once :
        (tenant : Uuid) (t : Time) (n : ℕ)
        → count (has_number tenant (format_number (yyyymm cal t) n)) s.payments ≤ 1
    pub unused :
        (tenant : Uuid) (t : Time) (n : ℕ)
        → used tenant (yyyymm cal t) s < n
        → count (has_number tenant (format_number (yyyymm cal t) n)) s.payments ≡ 0

  -- The numbers past the counter are free in the unique key.
  unused-Free :
      (tenant : Uuid) (from : Time) (s : Store D)
      → UniqueNumbers s
      → Free cal tenant (yyyymm cal from) s.payments (used tenant (yyyymm cal from) s)
  unused-Free tenant from s v n late =
      let fewer =
        count-le-of (is_taken tenant (yyyymm cal from) n)
          (has_number tenant (format_number (yyyymm cal from) n)) (λ x. ground arith) s.payments in
      omega (arith, fewer, v.unused tenant from n late)

-- A sequence has one key.
other_sequence :
    (tenant owner : Uuid) (period key : List ℕ)
    → ((owner ≡ tenant) × (key ≡ period) → ⊥)
    → (x : NumberSequence) → sequence_of tenant period x ≡ true
    → sequence_of owner key x ≡ false
other_sequence tenant owner period key k x h = elim (Bool-cases (sequence_of owner key x)) [
  | inr e ↦ e
  | inl e ↦ absurd (
      k (
        ground (arith, h, e),
        sym (text_eq_sound x.period key (ground (arith, e)))
            ∙ text_eq_sound x.period period (ground (arith, h)),
      ))
]

module _ {D : Type 0} where
  -- The counters of other keys stay.
  used_other :
      (tenant owner : Uuid) (period key : List ℕ) (last : ℕ) (s : Store D)
      → ((owner ≡ tenant) × (key ≡ period) → ⊥)
      → used owner key (record s { number_sequences = counted tenant period last s })
        ≡ used owner key s
  used_other tenant owner period key last s k =
      let fresh : NumberSequence = record { tenant_id = tenant; period = period; current = 0 } in
      let moved =
        find-update_many_other (sequence_of owner key) (sequence_of tenant period)
          (λ n. record n { current = last })
          (λ x h. (
            other_sequence tenant owner period key k x h,
            other_sequence tenant owner period key k x h,
          ))
          (opened tenant period s) in
      let added = find-append_other (sequence_of owner key) s.number_sequences fresh (
        other_sequence tenant owner period key k fresh
          (ground (arith, ==_refl tenant, text_eq_refl period))) in
      let still : find (sequence_of owner key) (opened tenant period s)
          ≡ find (sequence_of owner key) s.number_sequences =
        elim (Bool-cases (is_some (last_number tenant period s))) [
          | inl e ↦ rw e refl
          | inr e ↦ rw e added
        ] in
      ap (λ o. or_else (elim o [ none ↦ none | some n ↦ some n.current ]) 0) (moved ∙ still)

module _ (q : Queries) (cal : Calendar) {D : Type 0} (user : Option Uuid) (from to : Time) where
  -- A run writes nothing, or gives numbers to what it collects in one month.
  data Writes (s t : Store D) : Type 0 where
    nothing_written : t ≡ s → Writes s t
    numbers_written :
        (tenant : Uuid)
        → yyyymm cal from ≡ yyyymm cal (to - 1)
        → t ≡ renumbered tenant (yyyymm cal from) (to_assign q cal tenant from to s) s
        → Writes s t

  assign_numbers-Writes :
      (s : Store D)
      → Distinct s.payments
      → UniqueNumbers cal s
      → Writes s (assign_simplified_receipt_numbers q cal user from to s).1
  unfolding assign_simplified_receipt_numbers assert_single_month
  assign_numbers-Writes s u v = elim (Option-cases user) [
    | inl e ↦ nothing_written (ground (arith, e))
    | inr (tenant, e) ↦ elim (Bool-cases (leb to from)) [
      | inl empty ↦ nothing_written (ground (arith, e, empty))
      | inr ordered ↦ elim (Bool-cases (text_eq (yyyymm cal from) (yyyymm cal (to - 1)))) [
        | inr longer ↦ nothing_written (ground (arith, e, ordered, longer))
        | inl same ↦
            let month = text_eq_sound (yyyymm cal from) (yyyymm cal (to - 1)) same in
            let all =
              number_all_eq cal tenant (yyyymm cal from) (to_assign q cal tenant from to s) s
                (to_assign-Distinct q cal tenant from to s u)
                (to_assign-IsReady q cal tenant from to s u month)
                (unused-Free cal tenant from s v) in
            elim (Bool-cases (
              is_some
                (find (is_mixed (yyyymm cal from)) (numbered_before q cal tenant from to s)))) [
                  | inl mixed ↦ nothing_written (ground (arith, e, ordered, same, mixed))
                  | inr clear ↦ elim (List-cases (to_assign q cal tenant from to s)) [
                    | inl none_due ↦
                        nothing_written (ground (arith, e, ordered, same, clear, none_due))
                    | inr (p, ps, due) ↦
                        numbers_written tenant month
                          (ground (arith, e, ordered, same, clear, due, all))
                  ]
                ]
      ]
    ]
  ]

  -- What every write of the run keeps.
  renumbered-keeps :
      (tenant : Uuid) (P : List (Payment D) → ℕ → Type 0)
      → ((p : Payment D) (rows : List (Payment D)) (current : ℕ)
          → Distinct rows
          → Takes (own cal tenant from) rows p
          → P rows current
          → P
              (update_many (payment_id_is p.id) (numbered (yyyymm cal from) (current + 1)) rows)
              (current + 1))
      → (s : Store D) → Distinct s.payments
      → P s.payments (used tenant (yyyymm cal from) s)
      → P
          (renumbered tenant (yyyymm cal from) (to_assign q cal tenant from to s) s).payments
          (used tenant (yyyymm cal from) s + length (to_assign q cal tenant from to s))
  renumbered-keeps tenant P step s u k =
      let ps = to_assign q cal tenant from to s in
      let rows = All-of-mem _ ps (λ p m.
        let (row, due, _) = to_assign-row q cal tenant from to s p u m in
        (row, ground (arith, due))) in
      number_from-keeps cal tenant from P step ps s.payments (used tenant (yyyymm cal from) s)
        (to_assign-Distinct q cal tenant from to s u) u rows k

  renumbered-UniqueNumbers :
      (tenant : Uuid) (s : Store D)
      → Distinct s.payments
      → UniqueNumbers cal s
      → UniqueNumbers cal (renumbered tenant (yyyymm cal from) (to_assign q cal tenant from to s) s)
  renumbered-UniqueNumbers tenant s u v =
      let period = yyyymm cal from in
      let ps = to_assign q cal tenant from to s in
      let numbers : (owner : Uuid) (t : Time) (n : ℕ)
          → Numbered cal tenant from (renumbered tenant period ps s).payments
              (used tenant period s + length ps) owner t n =
        λ owner t n.
          renumbered-keeps tenant (λ rows current. Numbered cal tenant from rows current owner t n)
            (λ p rows current. write_keeps cal tenant from p rows current owner t n) s u
            (v.once owner t n, λ (same, month) late. v.unused owner t n (rw (same, month) late)) in
      record {
        once = λ owner t n. (numbers owner t n).0;
        unused = λ owner t n late. elim (Written-cases cal tenant from n owner t n) [
          | inl (same, month, _) ↦
              (numbers owner t n).1 (same, month)
                (ground (
                  arith,
                  (rw
                      (
                        same,
                        month,
                        last_number-counted tenant period (used tenant period s + length ps) s,
                      )
                      at late),
                ))
          | inr w ↦
              let away : (owner ≡ tenant) × (yyyymm cal t ≡ yyyymm cal from) → ⊥ =
                λ (a, b). w (a, b, refl) in
              let before = v.unused owner t n (
                rw
                  (← used_other tenant owner period (yyyymm cal t)
                    (used tenant period s + length ps) s away)
                  late) in
              let less =
                renumbered-keeps tenant
                  (λ rows current.
                    count (has_number owner (format_number (yyyymm cal t) n)) rows ≡ 0)
                  (λ p rows current d h k. omega (
                    arith,
                    k,
                    other_write cal tenant from p rows (current + 1) owner t n d h
                        (λ (a, b, c). away (a, b)),
                  ))
                  s u before in
              less
        ];
      }

  -- Whatever its caller and window, and whether it throws or not, a run keeps this: of each tenant
  -- and month a number is on one payment at most and none is past the counter; and it keeps the
  -- ids unique.
  pub assign_numbers-UniqueNumbers :
      (s : Store D)
      → Distinct s.payments
      → UniqueNumbers cal s
      → UniqueNumbers cal (assign_simplified_receipt_numbers q cal user from to s).1
        × Distinct (assign_simplified_receipt_numbers q cal user from to s).1.payments
  assign_numbers-UniqueNumbers s u v = elim (assign_numbers-Writes s u v) [
    | nothing_written r ↦ rw r (v, u)
    | numbers_written tenant month r ↦ rw r (
      renumbered-UniqueNumbers tenant s u v,
      renumbered-keeps tenant (λ rows current. Distinct rows)
          (λ p rows current d h k. written-Distinct p (yyyymm cal from) (current + 1) rows k) s u u,
    )
  ]
