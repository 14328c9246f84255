-- ===== src/Base/Digits.antt =====
-- Numbers as decimal texts: `toString`, `padStart(n, '0')`, and reading the digits back.
use mathlib.Core.Bool.{Bool, true, false, ◌&&◌}
use mathlib.Core.List.{List, [], ◌∷◌, ◌++◌}
use mathlib.Core.Logic.{inl, inr}
use mathlib.Core.Path.{◌≡◌, refl, ap, ◌∙◌}
use Prim.Native.Nat.{ℕ, zero, suc, ◌+◌, ◌-◌, ◌*◌, ◌/◌, ◌%◌, ◌≤◌, ◌<◌}
use native.Mathlib.Omega.{arith}
use typescript_version_taxi.Base.Tests.{Bool-cases, if◌then◌else◌, ltb, ◌==◌}
use typescript_version_taxi.Base.Lists.{All, length}

-- The digits of `n` before the text `s`; `fuel` bounds the number of digits.
digits_before : ℕ → ℕ → List ℕ → List ℕ
digits_before zero n s = s
digits_before (suc fuel) n s =
    let rest = digits_before fuel (n / 10) ((48 + n % 10) ∷ s) in
    if ltb n 10 then (48 + n) ∷ s else rest

-- `n.toString()`
pub digits : ℕ → List ℕ
unfolding digits_before
digits n = digits_before (suc n) n []

-- `s.padStart(k, '0')`: `missing` zeros in front.
abbrev zeros : ℕ → List ℕ → List ℕ
zeros zero s = s
zeros (suc k) s = 48 ∷ zeros k s

abbrev pub pad_start : ℕ → List ℕ → List ℕ
pad_start k s = zeros (k - length s) s

-- The number that digits spell behind `n`.
abbrev pub read_after : ℕ → List ℕ → ℕ
read_after n [] = n
read_after n (c ∷ s) = read_after (n * 10 + (c - 48)) s

abbrev pub read : List ℕ → ℕ
read = read_after 0

read-digits_before :
    (fuel n : ℕ) (s : List ℕ) → n < fuel → read (digits_before fuel n s) ≡ read_after n s
unfolding digits_before
read-digits_before zero n s h = elim h [ ]
read-digits_before (suc fuel) n s h = elim (Bool-cases (ltb n 10)) [
  | inl small ↦ rw small (ap (λ k. read_after k s) (omega arith))
  | inr large ↦ rw large (
      read-digits_before fuel (n / 10) ((48 + n % 10) ∷ s) (ground (arith, large))
      ∙ ap (λ k. read_after k s) (omega arith))
]

-- A number is read back from its digits, also behind zeros.
pub read-digits : (n : ℕ) → read (digits n) ≡ n
unfolding digits
read-digits n = read-digits_before (suc n) n [] (omega arith)

read-zeros : (k : ℕ) (s : List ℕ) → read (zeros k s) ≡ read s
read-zeros zero s = refl
read-zeros (suc k) s = read-zeros k s

pub read-pad_start : (k n : ℕ) → read (pad_start k (digits n)) ≡ n
read-pad_start k n = read-zeros (k - length (digits n)) (digits n) ∙ read-digits n

length-zeros : (k : ℕ) (s : List ℕ) → length (zeros k s) ≡ k + length s
length-zeros zero s = omega arith
length-zeros (suc k) s = omega (arith, length-zeros k s)

pub length-pad_start : (k : ℕ) (s : List ℕ) → length s ≤ k → length (pad_start k s) ≡ k
length-pad_start k s h = omega (arith, length-zeros (k - length s) s)

-- `a === b` of texts.
abbrev pub text_eq : List ℕ → List ℕ → Bool
text_eq [] [] = true
text_eq (a ∷ s) (b ∷ t) = a == b && text_eq s t
text_eq _ _ = false

pub text_eq_sound : (s t : List ℕ) → text_eq s t ≡ true → s ≡ t
text_eq_sound [] [] h = refl
text_eq_sound [] (b ∷ t) h = cc
text_eq_sound (a ∷ s) [] h = cc
text_eq_sound (a ∷ s) (b ∷ t) h = ground (arith, text_eq_sound s t)

pub text_eq_refl : (s : List ℕ) → text_eq s s ≡ true
text_eq_refl [] = refl
text_eq_refl (a ∷ s) = ground (arith, text_eq_refl s)

-- The digits of a number below a hundred.
pub length-digits-two : (m : ℕ) → m < 100 → length (digits m) ≤ 2
unfolding digits digits_before
length-digits-two zero h = omega arith
length-digits-two (suc zero) h = omega arith
length-digits-two (suc (suc k)) h = elim (Bool-cases (ltb (suc (suc k)) 10)) [
  | inl small ↦ rw small (omega arith)
  | inr large ↦
      let last : ltb (suc (suc k) / 10) 10 ≡ true = ground arith in rw (large, last) (omega arith)
]

-- Two more digits behind a text.
pub read_after_two : (n : ℕ) (s : List ℕ) → length s ≡ 2 → read_after n s ≡ n * 100 + read s
read_after_two n [] h = omega arith
read_after_two n (a ∷ []) h = omega arith
read_after_two n (a ∷ b ∷ []) h = omega arith
read_after_two n (a ∷ b ∷ c ∷ s) h = absurd (omega arith)

pub read_after-append :
    (n : ℕ) (s t : List ℕ) → read_after n (s ++ t) ≡ read_after (read_after n s) t
read_after-append n [] t = refl
read_after-append n (c ∷ s) t = read_after-append (n * 10 + (c - 48)) s t

-- The texts without a dash: digits have none.
abbrev pub NoDash : ℕ → Type 0
NoDash c = (c == 45) ≡ false

digits_before-NoDash :
    (fuel n : ℕ) (s : List ℕ) → All NoDash s → All NoDash (digits_before fuel n s)
unfolding digits_before
digits_before-NoDash zero n s h = h
digits_before-NoDash (suc fuel) n s h = elim (Bool-cases (ltb n 10)) [
  | inl small ↦ rw small (ground arith, h)
  | inr large ↦ rw large (digits_before-NoDash fuel (n / 10) ((48 + n % 10) ∷ s) (ground arith, h))
]

zeros-NoDash : (k : ℕ) (s : List ℕ) → All NoDash s → All NoDash (zeros k s)
zeros-NoDash zero s h = h
zeros-NoDash (suc k) s h = (refl, zeros-NoDash k s h)

pub digits-NoDash : (n : ℕ) → All NoDash (digits n)
unfolding digits
digits-NoDash n = digits_before-NoDash (suc n) n [] tt

pub pad_start-NoDash : (k n : ℕ) → All NoDash (pad_start k (digits n))
pad_start-NoDash k n = zeros-NoDash (k - length (digits n)) (digits n) (digits-NoDash n)

-- What stands before and behind the first dash.
abbrev pub before_dash : List ℕ → List ℕ
before_dash [] = []
before_dash (c ∷ s) = if c == 45 then [] else c ∷ before_dash s

abbrev pub behind_dash : List ℕ → List ℕ
behind_dash [] = []
behind_dash (c ∷ s) = if c == 45 then s else behind_dash s

pub before_dash-append : (s t : List ℕ) → All NoDash s → before_dash (s ++ 45 ∷ t) ≡ s
before_dash-append [] t h = refl
before_dash-append (c ∷ s) t h = rw (h.0) (ap (λ r. c ∷ r) (before_dash-append s t h.1))

pub behind_dash-append : (s t : List ℕ) → All NoDash s → behind_dash (s ++ 45 ∷ t) ≡ t
behind_dash-append [] t h = refl
behind_dash-append (c ∷ s) t h = rw (h.0) (behind_dash-append s t h.1)
