-- ===== src/Ride/Night.antt =====
-- Night surcharges: `hhmmToMinutes` and `getNightTimeMultiplier`. Texts are lists of code units.
pub mod Windows
use typescript_version_taxi.Base.{
  Bool, List, Option, [], if◌then◌else◌, leb, none, or_else, some, suc, zero, ℕ, ◌&&◌, ◌*◌, ◌+◌,
  ◌-◌, ◌==◌, ◌||◌, ◌∷◌,
}
use typescript_version_taxi.Base.Int.{leb_ℤ, ltb_ℤ, negsuc, pos, ℤ, ◌*ℤ◌, ◌+ℤ◌}
use typescript_version_taxi.External.Calendar.{Calendar}
use typescript_version_taxi.External.Decimals.{Decimals}
use typescript_version_taxi.Schema.{Surcharge, Time}

-- The white space that `parseInt` skips.
abbrev is_space : ℕ → Bool
is_space c =
    (leb 9 c && leb c 13)
    || c == 32
    || c == 160
    || c == 5760
    || (leb 8192 c && leb c 8202)
    || c == 8232
    || c == 8233
    || c == 8239
    || c == 8287
    || c == 12288
    || c == 65279

abbrev is_digit : ℕ → Bool
is_digit c = leb 48 c && leb c 57

skip_spaces : List ℕ → List ℕ
skip_spaces [] = []
skip_spaces (c ∷ s) = if is_space c then skip_spaces s else c ∷ s

-- The digits from the front, on top of those read; `none` where there was none.
read_digits : Option ℕ → List ℕ → Option ℕ
read_digits acc [] = acc
read_digits acc (c ∷ s) =
    let rest = read_digits (some (or_else acc 0 * 10 + (c - 48))) s in
    if is_digit c then rest else acc

abbrev negated : ℕ → ℤ
negated zero = pos 0
negated (suc n) = negsuc n

abbrev as_int : (ℕ → ℤ) → Option ℕ → Option ℤ
as_int f none = none
as_int f (some n) = some (f n)

read_signed : List ℕ → Option ℤ
unfolding read_digits
read_signed [] = none
read_signed (c ∷ s) =
    if c == b'-'
    then as_int negated (read_digits none s)
    else if c == b'+'
    then as_int pos (read_digits none s)
    else as_int pos (read_digits none (c ∷ s))

-- `parseInt(x, 10)`, `none` for NaN
unfoldable pub parse_int : List ℕ → Option ℤ
unfolding read_signed skip_spaces
parse_int s = read_signed (skip_spaces s)

abbrev glue : ℕ → List (List ℕ) → List (List ℕ)
glue c [] = (c ∷ []) ∷ []
glue c (x ∷ xs) = (c ∷ x) ∷ xs

-- `split(':')`
unfoldable pub split_colon : List ℕ → List (List ℕ)
split_colon [] = [] ∷ []
split_colon (c ∷ s) = if c == b':' then [] ∷ split_colon s else glue c (split_colon s)

first : List (List ℕ) → Option ℤ
unfolding parse_int
first [] = none
first (x ∷ xs) = parse_int x

second : List (List ℕ) → Option ℤ
unfolding first
second [] = none
second (x ∷ xs) = first xs

unfoldable pub hhmm_to_minutes : List ℕ → ℤ
unfolding split_colon first second ◌*ℤ◌ ◌+ℤ◌
hhmm_to_minutes hhmm =
    let parts = split_colon hhmm in
    or_else (first parts) (pos 0) *ℤ pos 60 +ℤ or_else (second parts) (pos 0)

-- A window that ends before it starts goes over midnight.
abbrev pub in_window : ℤ → ℤ → ℕ → Bool
in_window start end minute =
    if leb_ℤ start end
    then leb_ℤ start (pos minute) && ltb_ℤ (pos minute) end
    else leb_ℤ start (pos minute) || ltb_ℤ (pos minute) end

-- "00:00"
abbrev pub midnight : List ℕ
midnight = 48 ∷ 48 ∷ 58 ∷ 48 ∷ 48 ∷ []

abbrev pub applies : ℕ → Surcharge → Bool
applies minute s =
    in_window (hhmm_to_minutes (or_else s.start midnight))
      (hhmm_to_minutes (or_else s.end midnight)) minute

module _ (dec : Decimals) where
  open dec use {Decimal, units, of_string, less_than}

  -- The loop; a malformed multiplier throws, which the method catches.
  unfoldable pub first_multiplier : ℕ → List Surcharge → Option Decimal
  first_multiplier minute [] = none
  first_multiplier minute (s ∷ rest) = elim (of_string (or_else s.multiplier "1")) [
    | none ↦ none
    | some mult ↦
        if applies minute s && less_than (units 0 0) mult
        then some mult
        else first_multiplier minute rest
  ]

module _ (dec : Decimals) (cal : Calendar) where
  open dec use {Decimal}
  open cal use {hours, minutes}

  unfoldable pub night_multiplier : Option (List Surcharge) → Time → Option Decimal
  night_multiplier none at = none
  night_multiplier (some surcharges) at =
      first_multiplier dec (hours at * 60 + minutes at) surcharges
