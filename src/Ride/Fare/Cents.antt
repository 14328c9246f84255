-- ===== src/Ride/Fare/Cents.antt =====
-- The fares in whole cents. Base fares have two decimal places, prices for a kilometre four, for a
-- minute three; distances three, durations two; multipliers and tax rates any number.
use native.Mathlib.Nat.{div-lt_iff_lt-mul, mul-le-mul_left, mul-le-mul_right, one-le-pow}
use typescript_version_taxi.Base.{ap, arith, refl, ℕ, ◌*◌, ◌+◌, ◌-◌, ◌/◌, ◌<◌, ◌^◌, ◌∙◌, ◌≡◌, ◌≤◌}
use typescript_version_taxi.External.Decimals.{Decimals, half_up}
use typescript_version_taxi.Ride.Fare.{custom_amounts, fixed_amounts, meter_amounts}
use typescript_version_taxi.Schema.{FixedPricePolicy, PricingPolicy}

-- The meter's subtotal: base fare `b`, per km `p`, per minute `m`, distance `d`, duration `t`,
-- multiplier `u` of `j` places, each in its smallest unit.
unfoldable pub meter_cents : ℕ → ℕ → ℕ → ℕ → ℕ → ℕ → ℕ → ℕ
meter_cents b p m d t j u = half_up ((b * 100000 + p * d + m * t * 100) * u) (10 ^ (5 + j))

-- The tax on `n` cents at a rate of `r` with `k` places.
unfoldable pub tax_cents : ℕ → ℕ → ℕ → ℕ
tax_cents n k r = half_up (n * r) (10 ^ k)

pos_ten : (k : ℕ) → 0 < 10 ^ k
pos_ten k = one-le-pow k 10 (omega arith)

half_up_mono : (a b q : ℕ) → 0 < q → a ≤ b → half_up a q ≤ half_up b q
half_up_mono a b q some_unit h =
    let above =
      (div-lt_iff_lt-mul {k = q} {x = b + q / 2} {y = (b + q / 2) / q + 1} some_unit).0
        (omega arith) in
    let below =
      (div-lt_iff_lt-mul {k = q} {x = a + q / 2} {y = (b + q / 2) / q + 1} some_unit).1
        (omega (arith, above)) in
    omega (arith, below)

half_up-le : (a r q : ℕ) → 0 < q → r ≤ q → half_up (a * r) q ≤ a
half_up-le a r q some_unit h =
    let product : (a + 1) * q ≡ a * q + q = grind arith in
    let below =
      (div-lt_iff_lt-mul {k = q} {x = a * r + q / 2} {y = a + 1} some_unit).1
        (omega (arith, mul-le-mul_left a h, product)) in
    omega (arith, below)

tax_cents-le : (a k r : ℕ) → r ≤ 10 ^ k → tax_cents a k r ≤ a
unfolding tax_cents
tax_cents-le a k r h = half_up-le a r (10 ^ k) (pos_ten k) h

module _ (dec : Decimals) where
  open dec use {
    Decimal, exact, units, add, sub, mul, to_dp, add_units, mul_units, sub_units, to_dp_units,
    to_dp_exact,
  }

  tax_units :
      (n k r : ℕ)
      → n * r < exact
      → to_dp 2 (mul (units 2 n) (units k r)) ≡ units 2 (tax_cents n k r)
  unfolding tax_cents
  tax_units n k r h =
      let places : 2 + k - 2 ≡ k = omega arith in
      ap (to_dp 2) (mul_units 2 k n r h)
      ∙ to_dp_units 2 (2 + k) (n * r) (omega arith)
      ∙ ap (λ i. units 2 (half_up (n * r) (10 ^ i))) places

  add_2_7 :
      (b n : ℕ) → b * 100000 + n < exact → add (units 2 b) (units 7 n) ≡ units 7 (b * 100000 + n)
  add_2_7 b n h = add_units 2 7 b n (omega arith) ∙ ap (units 7) (omega arith)

  add_7_5 : (m n : ℕ) → m + n * 100 < exact → add (units 7 m) (units 5 n) ≡ units 7 (m + n * 100)
  add_7_5 m n h = add_units 7 5 m n (omega arith) ∙ ap (units 7) (omega arith)

  sum_units : (m n : ℕ) → m + n < exact → to_dp 2 (add (units 2 m) (units 2 n)) ≡ units 2 (m + n)
  sum_units m n h =
      ap (to_dp 2) (add_units 2 2 m n (omega arith) ∙ ap (units 2) (omega arith))
      ∙ to_dp_exact 2 2 (m + n) (omega arith)

  module _ (b p m d t j u k r : ℕ) where
    -- The sum of the three parts of a metered fare, times 10^7.
    abbrev pub parts : ℕ
    parts = b * 100000 + p * d + m * t * 100

    before_mult_units :
        parts < exact
        → add (add (units 2 b) (mul (units 4 p) (units 3 d))) (mul (units 3 m) (units 2 t))
          ≡ units 7 parts
    before_mult_units h =
        rw
          (
            mul_units 4 3 p d (omega arith),
            mul_units 3 2 m t (omega arith),
            add_2_7 b (p * d) (omega arith),
            add_7_5 (b * 100000 + p * d) (m * t) (omega arith),
          )
          refl

    subtotal_units :
        parts < exact
        → parts * u < exact
        → to_dp 2 (
            mul
              (add (add (units 2 b) (mul (units 4 p) (units 3 d))) (mul (units 3 m) (units 2 t)))
              (units j u))
          ≡ units 2 (meter_cents b p m d t j u)
    unfolding meter_cents
    subtotal_units h g =
        let places : 7 + j - 2 ≡ 5 + j = omega arith in
        ap (λ x. to_dp 2 (mul x (units j u))) (before_mult_units h)
        ∙ ap (to_dp 2) (mul_units 7 j parts u g)
        ∙ to_dp_units 2 (7 + j) (parts * u) (omega arith)
        ∙ ap (λ i. units 2 (half_up (parts * u) (10 ^ i))) places

    -- A metered fare in whole cents, for prices of two, four and three places, a distance of three
    -- and a duration of two, a surcharge and a tax rate of any number of places, and results that
    -- fit the exact digits: the parts are added exactly, multiplied by the surcharge and rounded
    -- once; the tax is rounded once more; the total is their sum to the cent.
    pub meter_amounts_cents :
        (pricing : PricingPolicy Decimal)
        → pricing.base_fare ≡ units 2 b
        → pricing.per_km ≡ units 4 p
        → pricing.per_min ≡ units 3 m
        → parts < exact
        → parts * u < exact
        → meter_cents b p m d t j u * r < exact
        → meter_cents b p m d t j u + tax_cents (meter_cents b p m d t j u) k r < exact
        → let fare = meter_amounts dec pricing (units j u) (units 3 d) (units 2 t) (units k r) in
          (fare.subtotal ≡ units 2 (meter_cents b p m d t j u))
          × (fare.tax ≡ units 2 (tax_cents (meter_cents b p m d t j u) k r))
          × (fare.total
              ≡ units 2 (meter_cents b p m d t j u + tax_cents (meter_cents b p m d t j u) k r))
    unfolding meter_amounts
    meter_amounts_cents pricing eb ep em h1 h2 h3 h4 =
        let s = subtotal_units h1 h2 in
        let x = tax_units (meter_cents b p m d t j u) k r h3 in
        (
          rw (eb, ep, em) s,
          rw (eb, ep, em, s) x,
          rw (eb, ep, em, s, x) (sum_units (meter_cents b p m d t j u) _ h4),
        )

  -- A fixed price in whole cents, with a tax rate of at most one, of any number of places, and
  -- results that fit the exact digits: the customer pays the policy's amount, and the tax and the
  -- subtotal add up to it.
  pub fixed_amounts_cents :
      (a k r : ℕ) (policy : FixedPricePolicy Decimal)
      → policy.amount ≡ units 2 a
      → r ≤ 10 ^ k
      → a * 10 ^ k < exact
      → let fare = fixed_amounts dec policy (units k r) in
        (fare.total ≡ units 2 a)
        × (fare.tax ≡ units 2 (tax_cents a k r))
        × (fare.subtotal ≡ units 2 (a - tax_cents a k r))
        × (a - tax_cents a k r + tax_cents a k r ≡ a)
  unfolding fixed_amounts
  fixed_amounts_cents a k r policy e hr h =
      let most : a ≤ a * 10 ^ k = omega (arith, mul-le-mul_left a (pos_ten k)) in
      let le = tax_cents-le a k r hr in
      let x = tax_units a k r (omega (arith, mul-le-mul_left a hr, most)) in
      (
        e,
        rw e x,
        rw (e, x, sub_units 2 a (tax_cents a k r) le (omega arith))
            (to_dp_exact 2 2 _ (omega arith)),
        omega arith,
      )

  -- A custom fare in whole cents, with results that fit the exact digits: the tax comes on top of
  -- it.
  pub custom_amounts_cents :
      (a k r : ℕ)
      → a * r < exact
      → a + tax_cents a k r < exact
      → let fare = custom_amounts dec (units 2 a) (units k r) in
        (fare.subtotal ≡ units 2 a)
        × (fare.tax ≡ units 2 (tax_cents a k r))
        × (fare.total ≡ units 2 (a + tax_cents a k r))
  unfolding custom_amounts
  custom_amounts_cents a k r h g = let x = tax_units a k r h in (refl, x, rw x (sum_units a _ g))

meter_cents_mono :
    (b p m d t j u d' t' : ℕ)
    → d ≤ d'
    → t ≤ t'
    → meter_cents b p m d t j u ≤ meter_cents b p m d' t' j u
unfolding meter_cents
meter_cents_mono b p m d t j u d' t' h k =
    let kms = mul-le-mul_left p h in
    let mins = mul-le-mul_left m k in
    half_up_mono _ _ (10 ^ (5 + j)) (pos_ten (5 + j))
      (mul-le-mul_right u (omega (arith, kms, mins)))

parts_mono :
    (b p m d t d' t' : ℕ)
    → d ≤ d'
    → t ≤ t'
    → b * 100000 + p * d + m * t * 100 ≤ b * 100000 + p * d' + m * t' * 100
parts_mono b p m d t d' t' h k = omega (arith, mul-le-mul_left p h, mul-le-mul_left m k)

tax_cents_mono : (n n' k r : ℕ) → n ≤ n' → tax_cents n k r ≤ tax_cents n' k r
unfolding tax_cents
tax_cents_mono n n' k r h = half_up_mono _ _ (10 ^ k) (pos_ten k) (mul-le-mul_right r h)

module _ (dec : Decimals) (b p m d t j u k r d' t' : ℕ) where
  open dec use {Decimal, exact, units}

  -- Under the same policy, surcharge and tax, a metered ride that is no shorter in distance and
  -- time costs no less, where the results of the longer one fit the exact digits.
  pub meter_total_mono :
      (pricing : PricingPolicy Decimal)
      → pricing.base_fare ≡ units 2 b
      → pricing.per_km ≡ units 4 p
      → pricing.per_min ≡ units 3 m
      → d ≤ d'
      → t ≤ t'
      → parts dec b p m d' t' j u k r < exact
      → parts dec b p m d' t' j u k r * u < exact
      → meter_cents b p m d' t' j u * r < exact
      → meter_cents b p m d' t' j u + tax_cents (meter_cents b p m d' t' j u) k r < exact
      → let fare = meter_amounts dec pricing (units j u) (units 3 d) (units 2 t) (units k r) in
        let fare' = meter_amounts dec pricing (units j u) (units 3 d') (units 2 t') (units k r) in
        (n : ℕ) × (n' : ℕ) × (fare.total ≡ units 2 n) × (fare'.total ≡ units 2 n') × (n ≤ n')
  meter_total_mono pricing eb ep em hd ht h1 h2 h3 h4 =
      let le = parts_mono b p m d t d' t' hd ht in
      let cents_le = meter_cents_mono b p m d t j u d' t' hd ht in
      let tax_le = tax_cents_mono _ _ k r cents_le in
      (
        _,
        _,
        (meter_amounts_cents dec b p m d t j u k r pricing eb ep em (omega (arith, le))
            (omega (arith, mul-le-mul_right u le)) (omega (arith, mul-le-mul_right r cents_le))
            (omega (arith, cents_le, tax_le))).2,
        (meter_amounts_cents dec b p m d' t' j u k r pricing eb ep em h1 h2 h3 h4).2,
        omega (arith, cents_le, tax_le),
      )
