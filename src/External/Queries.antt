-- ===== src/External/Queries.antt =====
-- The row that the database returns where a query matches several and asks for no order.
use typescript_version_taxi.Base.{
  All, Bool, List, Memᴰ, Option, Option-cases, [], arith, count, false, inl, inr, is_some, leb,
  none, refl, some, true, ◌∷◌, ◌≡◌, ◌⊎◌,
}
use typescript_version_taxi.Base.Rows.{count-pos-of-mem}

-- Every row may stand before each later one.
abbrev pub IsSorted : {A : Type 0} → (A → A → Bool) → List A → Type 0
IsSorted before [] = Unit
IsSorted before (x ∷ xs) = All (λ y. before x y ≡ true) xs × IsSorted before xs

-- `findFirst({ where })`: some row of the table that matches, or null where none does.
pub record Queries : Type 1 where
  pub find_first : {A : Type 0} → (A → Bool) → List A → Option A
  pub find_first_mem :
      {A : Type 0} (p : A → Bool) (xs : List A) (a : A) → find_first p xs ≡ some a → Memᴰ a xs
  pub find_first_matches :
      {A : Type 0} (p : A → Bool) (xs : List A) (a : A) → find_first p xs ≡ some a → p a ≡ true
  pub find_first_none :
      {A : Type 0} (p : A → Bool) (xs : List A) → find_first p xs ≡ none → All (λ x. p x ≡ false) xs
  -- `orderBy`: the rows in some order that the comparison allows; `before x y` says that `x` may
  -- stand before `y`.
  pub order_by : {A : Type 0} → (A → A → Bool) → List A → List A
  pub order_by_mem :
      {A : Type 0} (before : A → A → Bool) (xs : List A) (a : A)
      → Memᴰ a (order_by before xs)
      → Memᴰ a xs
  pub order_by_count :
      {A : Type 0} (before : A → A → Bool) (xs : List A) (p : A → Bool)
      → count p (order_by before xs) ≡ count p xs
  pub order_by_IsSorted :
      {A : Type 0} (before : A → A → Bool)
      → ((x y : A) → (before x y ≡ true) ⊎ (before y x ≡ true))
      → ((x y z : A) → before x y ≡ true → before y z ≡ true → before x z ≡ true)
      → (xs : List A) → IsSorted before (order_by before xs)

module _ (q : Queries) {A : Type 0} where
  open q use {find_first, find_first_mem, find_first_matches, find_first_none}

  count-zero-of-All : (p : A → Bool) (xs : List A) → All (λ x. p x ≡ false) xs → count p xs ≡ 0
  count-zero-of-All p [] h = refl
  count-zero-of-All p (x ∷ xs) h = ground (arith, count-zero-of-All p xs)

  -- A row is found exactly when one matches.
  pub find_first_count :
      (p : A → Bool) (xs : List A) → is_some (find_first p xs) ≡ leb 1 (count p xs)
  find_first_count p xs = elim (Option-cases (find_first p xs)) [
    | inl e ↦ rw (e, count-zero-of-All p xs (find_first_none p xs e)) refl
    | inr (a, e) ↦
        let k = count-pos-of-mem p (find_first_mem p xs a e) (find_first_matches p xs a e) in
        rw e (ground arith)
  ]
