-- ===== src/Tests/Parameters.antt =====
-- One instance of each parameter: decimals as a coefficient with its number of places, queries that
-- take the first row, a calendar of months of thirty days, and tokens that carry their claims.
use mathlib.Core.Path.{ap₂}
use typescript_version_taxi.Base.{
  All, Bool, Bool-cases, List, Memᴰ, Option, String, [], arith, count, false, find, find_sound,
  if◌then◌else◌, inl, inr, ltb, max, none, refl, some, str_eq, sym, true, ℕ, ◌%◌, ◌*◌, ◌+◌, ◌-◌,
  ◌/◌, ◌==◌, ◌^◌, ◌∷◌, ◌≡◌, ◌≤◌, ◌⊎◌,
}
use typescript_version_taxi.Base.Members.{mem-cons}
use typescript_version_taxi.Base.Rows.{All-imp, mem-find}
use typescript_version_taxi.External.Calendar.{Calendar}
use typescript_version_taxi.External.Decimals.{Decimals, half_up}
use typescript_version_taxi.External.Jwt.{Claims, Jwt}
use typescript_version_taxi.External.Queries.{IsSorted, Queries}

-- The coefficient of a decimal, and the number of its places.
abbrev sum : ℕ × ℕ → ℕ × ℕ → ℕ × ℕ
sum (j, m) (k, n) = (max j k, m * 10 ^ (k - j) + n * 10 ^ (j - k))

abbrev difference : ℕ × ℕ → ℕ × ℕ → ℕ × ℕ
difference (j, m) (k, n) = (max j k, m * 10 ^ (k - j) - n * 10 ^ (j - k))

abbrev product : ℕ × ℕ → ℕ × ℕ → ℕ × ℕ
product (j, m) (k, n) = (j + k, m * n)

abbrev round_to : ℕ → ℕ × ℕ → ℕ × ℕ
round_to k (j, n) = if ltb k j then (k, half_up n (10 ^ (j - k))) else (j, n)

abbrev smaller : ℕ × ℕ → ℕ × ℕ → Bool
smaller (j, m) (k, n) = ltb (m * 10 ^ (k - j)) (n * 10 ^ (j - k))

-- Some texts of decimals.
abbrev parse : String → Option (ℕ × ℕ)
parse text =
    if str_eq text "2.50"
    then some (2, 250)
    else if str_eq text "1.2"
    then some (1, 12)
    else if str_eq text "40"
    then some (0, 40)
    else if str_eq text "1"
    then some (0, 1)
    else if str_eq text "24"
    then some (0, 24)
    else none

abbrev print : ℕ × ℕ → String
print (k, n) = if n == 4000 then "40" else if n == 250 then "2.5" else "1.2"

raised_zero : (n d : ℕ) → d ≡ 0 → n * 10 ^ d ≡ n
raised_zero n d e = rw e (omega arith)

pub sub_same : (k m n : ℕ) → difference (k, m) (k, n) ≡ (k, m - n)
sub_same k m n =
    ap₂ (λ a b. (a, b)) (omega arith)
      (ap₂ (λ a b. a - b) (raised_zero m (k - k) (omega arith))
        (raised_zero n (k - k) (omega arith)))

half_up_one : (n d : ℕ) → d ≡ 0 → half_up n (10 ^ d) ≡ n
half_up_one n d e = rw e (omega arith)

pub round_less : (k j n : ℕ) → k ≤ j → round_to k (j, n) ≡ (k, half_up n (10 ^ (j - k)))
round_less k j n h = elim (Bool-cases (ltb k j)) [
  | inl e ↦ rw e refl
  | inr e ↦ rw e (ap₂ (λ a b. (a, b)) (ground arith) (sym (half_up_one n (j - k) (ground arith))))
]

pub round_exact : (k j n : ℕ) → j ≤ k → round_to k (j, n) ≡ (j, n)
round_exact k j n h = ground arith

pub verify_signed :
    (c : Claims) (now later end : ℕ)
    → later + 1000 ≤ end
    → (if ltb later end then some c else none) ≡ some c
verify_signed c now later end h = ground arith

-- A number is a sign with its thousandths.
abbrev pub decimals : Decimals
decimals = record {
  Decimal = ℕ × ℕ;
  Number = Bool × ℕ;
  exact = 10 ^ 20;
  units = λ k n. (k, n);
  of_string = parse;
  of_number = λ x. (3, x.1);
  is_negative = λ x. x.0;
  minutes_of = λ ms. (false, ms / 60);
  add = sum;
  sub = difference;
  mul = product;
  to_dp = round_to;
  less_than = smaller;
  to_string = print;
  cents = λ x. half_up (x.1 * 100) (10 ^ x.0);
  add_units = λ j k m n h. refl;
  sub_units = λ k m n h e. sub_same k m n;
  mul_units = λ j k m n h. refl;
  to_dp_units = round_less;
  to_dp_exact = round_exact;
  less_than_units = λ j k m n. refl;
  cents_units = λ n h. omega arith;
}

abbrev pub cal : Calendar
cal = record {
  hours = λ t. t / 3600000 % 24;
  minutes = λ t. t / 60000 % 60;
  utc_year = λ t. 1970 + t / 2592000000 / 12;
  utc_month = λ t. 1 + t / 2592000000 % 12;
  hours_bound = λ t. omega arith;
  minutes_bound = λ t. omega arith;
  month_bounds = λ t. (omega arith, omega arith);
  months_pass = λ t u h. omega arith;
}

abbrev pub tokens : Jwt
tokens = record {
  Token = Claims × ℕ;
  sign = λ c minutes now. (c, now + minutes * 60000);
  verify = λ token now. if ltb now (token.1) then some (token.0) else none;
  verify-sign = λ c minutes now later h. verify_signed c now later (now + minutes * 60000) h;
}

-- Insertion before the first row that may follow.
abbrev pub insert : {A : Type 0} → (A → A → Bool) → A → List A → List A
insert before x [] = x ∷ []
insert before x (y ∷ ys) =
    let rest = insert before x ys in if before x y then x ∷ y ∷ ys else y ∷ rest

abbrev pub sort : {A : Type 0} → (A → A → Bool) → List A → List A
sort before [] = []
sort before (x ∷ xs) = insert before x (sort before xs)

module _ {A : Type 0} (before : A → A → Bool) where
  mem-insert : (x : A) (ys : List A) (a : A) → Memᴰ a (insert before x ys) → (a ≡ x) ⊎ Memᴰ a ys
  mem-insert x [] a m = mem-cons m
  mem-insert x (y ∷ ys) a m = elim (Bool-cases (before x y)) [
    | inl e ↦ mem-cons (rw e at m)
    | inr e ↦ elim (mem-cons (rw e at m)) [
      | inl k ↦ inr (Memᴰ.head k)
      | inr k ↦ elim (mem-insert x ys a k) [ inl h ↦ inl h | inr h ↦ inr (Memᴰ.tail h) ]
    ]
  ]

  pub mem-sort : (xs : List A) (a : A) → Memᴰ a (sort before xs) → Memᴰ a xs
  mem-sort [] a m = elim m [ ]
  mem-sort (x ∷ xs) a m = elim (mem-insert x (sort before xs) a m) [
    | inl e ↦ Memᴰ.head e
    | inr k ↦ Memᴰ.tail (mem-sort xs a k)
  ]

  count-insert :
      (p : A → Bool) (x : A) (ys : List A) → count p (insert before x ys) ≡ count p (x ∷ ys)
  count-insert p x [] = refl
  count-insert p x (y ∷ ys) = ground (arith, count-insert p x ys)

  pub count-sort : (xs : List A) (p : A → Bool) → count p (sort before xs) ≡ count p xs
  count-sort [] p = refl
  count-sort (x ∷ xs) p = ground (arith, count-insert p x (sort before xs), count-sort xs p)

  module _ (total : (x y : A) → (before x y ≡ true) ⊎ (before y x ≡ true))
      (trans : (x y z : A) → before x y ≡ true → before y z ≡ true → before x z ≡ true) where
    All-insert :
        (P : A → Type 0) (x : A) (ys : List A) → P x → All P ys → All P (insert before x ys)
    All-insert P x [] h k = (h, tt)
    All-insert P x (y ∷ ys) h k = elim (Bool-cases (before x y)) [
      | inl e ↦ rw e (h, k)
      | inr e ↦ rw e (k.0, All-insert P x ys h k.1)
    ]

    insert-IsSorted :
        (x : A) (ys : List A) → IsSorted before ys → IsSorted before (insert before x ys)
    insert-IsSorted x [] h = (tt, tt)
    insert-IsSorted x (y ∷ ys) h = elim (Bool-cases (before x y)) [
      | inl e ↦ rw e ((e, All-imp _ _ (λ z k. trans x y z e k) ys h.0), h)
      | inr e ↦ rw e (
        All-insert (λ z. before y z ≡ true) x ys
            (elim (total x y) [ inl k ↦ absurd (cc (k, e)) | inr k ↦ k ]) h.0,
        insert-IsSorted x ys h.1,
      )
    ]

    pub sort-IsSorted : (xs : List A) → IsSorted before (sort before xs)
    sort-IsSorted [] = tt
    sort-IsSorted (x ∷ xs) = insert-IsSorted x (sort before xs) (sort-IsSorted xs)

module _ {A : Type 0} where
  pub find_mem : (p : A → Bool) (xs : List A) (a : A) → find p xs ≡ some a → Memᴰ a xs
  find_mem p xs a e = mem-find p xs e

  pub find_matches : (p : A → Bool) (xs : List A) (a : A) → find p xs ≡ some a → p a ≡ true
  find_matches p xs a e = find_sound p xs e

  pub find-none : (p : A → Bool) (xs : List A) → find p xs ≡ none → All (λ x. p x ≡ false) xs
  find-none p [] e = tt
  find-none p (x ∷ xs) e = (ground arith, find-none p xs (ground arith))

abbrev pub queries : Queries
queries = record {
  find_first = find;
  find_first_mem = find_mem;
  find_first_matches = find_matches;
  find_first_none = find-none;
  order_by = sort;
  order_by_mem = mem-sort;
  order_by_count = count-sort;
  order_by_IsSorted = sort-IsSorted;
}
