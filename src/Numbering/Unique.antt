-- ===== src/Numbering/Unique.antt =====
-- No number is given twice.
use typescript_version_taxi.Base.{
  ==_refl, All, Bool, Bool-cases, List, [], ap, arith, count, inl, inr, length, refl, subst, sym,
  true, update_many, ℕ, ◌&&◌, ◌+◌, ◌<◌, ◌==◌, ◌∙◌, ◌∷◌, ◌≡◌, ◌≤◌, ◌⊎◌,
}
use typescript_version_taxi.Base.Digits.{text_eq, text_eq_refl, text_eq_sound}
use typescript_version_taxi.Base.Members.{All-and}
use typescript_version_taxi.Base.Rows.{
  All-imp, All-of-count-zero, count-update_many-add, count-update_many-le_of, mem-find, unique_row,
}
use typescript_version_taxi.External.Calendar.{Calendar}
use typescript_version_taxi.Numbering.{format_number, is_text, numbered, yyyymm}
use typescript_version_taxi.Numbering.Issue.{Distinct, number_from}
use typescript_version_taxi.Numbering.Rerun.{Takes, Takes-after, written-Distinct}
use typescript_version_taxi.Numbering.Texts.{format_number-injective}
use typescript_version_taxi.Payment.{payment_id_is}
use typescript_version_taxi.Schema.{Payment, Time, Uuid}

module _ {D : Type 0} where
  -- The payment of the tenant that has the number.
  abbrev pub has_number : Uuid → List ℕ → Payment D → Bool
  has_number tenant text p = p.tenant_id == tenant && is_text text p.receipt_number

module _ (cal : Calendar) (tenant : Uuid) (from : Time) where
  -- The key and number of a write.
  abbrev pub Written : ℕ → Uuid → Time → ℕ → Type 0
  Written m owner t n = (owner ≡ tenant) × (yyyymm cal t ≡ yyyymm cal from) × (n ≡ m)

  -- The key of the run.
  abbrev pub SameKey : Uuid → Time → Type 0
  SameKey owner t = (owner ≡ tenant) × (yyyymm cal t ≡ yyyymm cal from)

  pub Written-cases :
      (m : ℕ) (owner : Uuid) (t : Time) (n : ℕ) → Written m owner t n ⊎ (Written m owner t n → ⊥)
  Written-cases m owner t n =
      elim (Bool-cases (owner == tenant && text_eq (yyyymm cal t) (yyyymm cal from) && n == m)) [
        | inl e ↦ inl (
          ground (arith, e),
          text_eq_sound (yyyymm cal t) (yyyymm cal from) (ground (arith, e)),
          ground (arith, e),
        )
        | inr e ↦ inr (λ (a, b, c). absurd (
            ground (
              arith,
              e,
              a,
              c,
              ap (λ r. text_eq r (yyyymm cal from)) b ∙ text_eq_refl (yyyymm cal from),
            )))
      ]

module _ (cal : Calendar) {D : Type 0} where
  module _ (tenant : Uuid) (from : Time) where
    abbrev pub own : Payment D → Bool
    own p = p.tenant_id == tenant

    of-Written :
        (p : Payment D) (m : ℕ) (owner : Uuid) (t : Time) (n : ℕ)
        → own p ≡ true
        → has_number owner (format_number (yyyymm cal t) n) (numbered (yyyymm cal from) m p) ≡ true
        → Written cal tenant from m owner t n
    of-Written p m owner t n mine h =
        let same =
          text_eq_sound (format_number (yyyymm cal from) m) (format_number (yyyymm cal t) n)
            (ground (arith, h)) in
        let (month, number) = format_number-injective cal from t m n same in
        (ground (arith, mine, h), sym month, sym number)

    -- A write adds no row with another number.
    pub other_write :
        (p : Payment D) (rows : List (Payment D)) (m : ℕ) (owner : Uuid) (t : Time) (n : ℕ)
        → Distinct rows
        → Takes own rows p
        → (Written cal tenant from m owner t n → ⊥)
        → count
            (has_number owner (format_number (yyyymm cal t) n))
            (update_many (payment_id_is p.id) (numbered (yyyymm cal from) m) rows)
          ≤ count (has_number owner (format_number (yyyymm cal t) n)) rows
    other_write p rows m owner t n u h k =
        let listed = mem-find (payment_id_is p.id) rows h.0 in
        let one = unique_row (payment_id_is p.id) p rows (u p.id) listed (==_refl p.id) in
        let holds = has_number owner (format_number (yyyymm cal t) n) in
        let write = numbered (yyyymm cal from) m in
        count-update_many-le_of (payment_id_is p.id) holds write rows (
          All-imp _ _
            (λ x same found. elim (Bool-cases (holds (write x))) [
              | inr away ↦ away
              | inl clash ↦ absurd (k (of-Written x m owner t n (rw (same found) (h.1)) clash))
            ])
            rows one)

    -- The numbers past `current` are free for one write each.
    abbrev pub Numbered : List (Payment D) → ℕ → Uuid → Time → ℕ → Type 0
    Numbered rows current owner t n =
        let holders = count (has_number owner (format_number (yyyymm cal t) n)) rows in
        (holders ≤ 1) × (SameKey cal tenant from owner t → current < n → holders ≡ 0)

    pub write_keeps :
        (p : Payment D) (rows : List (Payment D)) (current : ℕ) (owner : Uuid) (t : Time) (n : ℕ)
        → Distinct rows
        → Takes own rows p
        → Numbered rows current owner t n
        → Numbered
            (update_many (payment_id_is p.id) (numbered (yyyymm cal from) (current + 1)) rows)
            (current + 1)
            owner
            t
            n
    write_keeps p rows current owner t n u h k =
        elim (Written-cases cal tenant from (current + 1) owner t n) [
          | inl w ↦
              let none_yet = k.1 (w.0, w.1) (omega (arith, w.2)) in
              let add =
                count-update_many-add (payment_id_is p.id)
                  (has_number owner (format_number (yyyymm cal t) n))
                  (numbered (yyyymm cal from) (current + 1)) rows in
              (omega (arith, add, none_yet, u p.id), λ v late. absurd (omega (arith, w.2)))
          | inr w ↦
              let less = other_write p rows (current + 1) owner t n u h w in
              (omega (arith, less, k.0), λ v late. omega (arith, less, k.1 v (omega arith)))
        ]

    -- What each write keeps, the loop keeps.
    pub number_from-keeps :
        (P : List (Payment D) → ℕ → Type 0)
        → ((p : Payment D) (rows : List (Payment D)) (current : ℕ)
            → Distinct rows
            → Takes own rows p
            → P rows current
            → P
                (update_many (payment_id_is p.id) (numbered (yyyymm cal from) (current + 1)) rows)
                (current + 1))
        → (ps rows : List (Payment D)) (current : ℕ) → Distinct ps
        → Distinct rows
        → All (Takes own rows) ps
        → P rows current
        → P (number_from (yyyymm cal from) current ps rows) (current + length ps)
    number_from-keeps P step [] rows current u v h k = subst (λ n. P rows n) (omega arith) k
    number_from-keeps P step (p ∷ ps) rows current u v h k =
        let first : count (payment_id_is p.id) ps ≡ 0 = ground (arith, u p.id, ==_refl p.id) in
        let others = All-of-count-zero (payment_id_is p.id) ps first in
        let write = numbered (yyyymm cal from) (current + 1) in
        let still =
          All-imp _ _ (Takes-after own p write rows (λ x. refl)) ps (All-and _ _ ps others h.1) in
        let rest =
          number_from-keeps P step ps (update_many (payment_id_is p.id) write rows) (current + 1)
            (λ id. ground (arith, u id)) (written-Distinct p (yyyymm cal from) (current + 1) rows v)
            still (step p rows current v h.0 k) in
        subst (λ n. P (number_from (yyyymm cal from) current (p ∷ ps) rows) n) (omega arith) rest
