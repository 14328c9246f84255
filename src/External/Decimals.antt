-- ===== src/External/Decimals.antt =====
-- `Prisma.Decimal` (decimal.js) and the numbers of JavaScript, as the services use them.
use typescript_version_taxi.Base.{
  Bool, Option, String, ltb, max, ℕ, ◌*◌, ◌+◌, ◌-◌, ◌/◌, ◌<◌, ◌^◌, ◌≡◌, ◌≤◌,
}

-- Division by a power of ten, a half rounded up.
abbrev pub half_up : ℕ → ℕ → ℕ
half_up n d = (n + d / 2) / d

-- `units k n` is the decimal n / 10^k. Results whose digits make a number below `exact` are not
-- rounded; `toDP` rounds a half up. Nothing is assumed of negative decimals, nor of longer ones.
pub record Decimals : Type 1 where
  pub Decimal : Type 0
  pub Number : Type 0
  pub exact : ℕ
  pub units : ℕ → ℕ → Decimal
  -- `new Decimal(text)`, `none` where it throws
  pub of_string : String → Option Decimal
  -- `new Decimal(number)`
  pub of_number : Number → Decimal
  -- `x < 0`
  pub is_negative : Number → Bool
  -- `ms / 60_000`
  pub minutes_of : ℕ → Number
  pub add : Decimal → Decimal → Decimal
  pub sub : Decimal → Decimal → Decimal
  pub mul : Decimal → Decimal → Decimal
  pub to_dp : ℕ → Decimal → Decimal
  pub less_than : Decimal → Decimal → Bool
  pub to_string : Decimal → String
  -- `Math.round(parseFloat(d.toString()) * 100)`
  pub cents : Decimal → ℕ
  pub add_units :
      (j k m n : ℕ)
      → m * 10 ^ (k - j) + n * 10 ^ (j - k) < exact
      → add (units j m) (units k n) ≡ units (max j k) (m * 10 ^ (k - j) + n * 10 ^ (j - k))
  pub sub_units : (k m n : ℕ) → n ≤ m → m < exact → sub (units k m) (units k n) ≡ units k (m - n)
  pub mul_units :
      (j k m n : ℕ) → m * n < exact → mul (units j m) (units k n) ≡ units (j + k) (m * n)
  -- rounding to fewer places, and to no fewer than there are
  pub to_dp_units : (k j n : ℕ) → k ≤ j → to_dp k (units j n) ≡ units k (half_up n (10 ^ (j - k)))
  pub to_dp_exact : (k j n : ℕ) → j ≤ k → to_dp k (units j n) ≡ units j n
  pub less_than_units :
      (j k m n : ℕ) → less_than (units j m) (units k n) ≡ ltb (m * 10 ^ (k - j)) (n * 10 ^ (j - k))
  -- a price of two places, as its whole cents
  pub cents_units : (n : ℕ) → n < 10 ^ 10 → cents (units 2 n) ≡ n
