-- ===== src/Ride/Night/Windows.antt =====
-- What the surcharge windows mean.
use typescript_version_taxi.Base.{
  All, Bool-cases, List, Option-cases, [], ap, arith, false, inl, inr, ltb, or_else, refl, some,
  true, ℕ, ◌%◌, ◌&&◌, ◌*◌, ◌++◌, ◌+◌, ◌-◌, ◌<◌, ◌∷◌, ◌≡◌,
}
use typescript_version_taxi.Base.Int.{pos}
use typescript_version_taxi.External.Decimals.{Decimals}
use typescript_version_taxi.Ride.Night.{applies, first_multiplier, hhmm_to_minutes, in_window}
use typescript_version_taxi.Schema.{Surcharge}

-- Between times of one day, a minute is in a window exactly when it follows the start, round the
-- clock, by less than the window's length.
pub in_window_cyclic :
    (start end minute : ℕ)
    → start < 1440
    → end < 1440
    → minute < 1440
    → in_window (pos start) (pos end) minute
      ≡ ltb ((minute + 1440 - start) % 1440) ((end + 1440 - start) % 1440)
in_window_cyclic start end minute hs he hm = ground arith

-- A time of day, written as two digits, a colon and two digits, is read as its minutes after
-- midnight.
pub hhmm_to_minutes_digits :
    (a b c d : ℕ)
    → a < 10
    → b < 10
    → c < 10
    → d < 10
    → hhmm_to_minutes ((48 + a) ∷ (48 + b) ∷ 58 ∷ (48 + c) ∷ (48 + d) ∷ [])
      ≡ pos ((a * 10 + b) * 60 + (c * 10 + d))
unfolding hhmm_to_minutes
hhmm_to_minutes_digits a b c d ha hb hc hd = ground arith

module _ (dec : Decimals) where
  open dec use {Decimal, units, of_string, less_than}

  -- The entry is well formed and charges `m` at this minute.
  abbrev pub Charges : ℕ → Decimal → Surcharge → Type 0
  Charges minute m s =
      (applies minute s ≡ true)
      × (of_string (or_else s.multiplier "1") ≡ some m)
      × (less_than (units 0 0) m ≡ true)

  -- The entry is well formed and charges nothing at this minute.
  abbrev pub Free : ℕ → Surcharge → Type 0
  Free minute s =
      (m : Decimal) × (of_string (or_else s.multiplier "1") ≡ some m)
      × (applies minute s && less_than (units 0 0) m ≡ false)

  -- The multiplier found is that of the first entry whose window holds the minute and whose
  -- multiplier is positive; the entries before it charge nothing.
  pub first_multiplier_sound :
      (minute : ℕ) (l : List Surcharge) (m : Decimal)
      → first_multiplier dec minute l ≡ some m
      → (before : List Surcharge) × ((s : Surcharge) × (after : List Surcharge) × (l
            ≡ before ++ s ∷ after)
          × All (Free minute) before
          × Charges minute m s)
  unfolding first_multiplier
  first_multiplier_sound minute [] m e = cc
  first_multiplier_sound minute (s ∷ l) m e =
      elim (Option-cases (of_string (or_else s.multiplier "1"))) [
        | inl bad ↦ cc (rw (bad, first_multiplier) at e)
        | inr (k, good) ↦ elim (Bool-cases (applies minute s && less_than (units 0 0) k)) [
          | inl here ↦ ([], (s, l, refl, tt, (ground arith, ground arith, ground arith)))
          | inr later ↦
              let (before, (t, after, split, free, charged)) =
                first_multiplier_sound minute l m (ground arith) in
              (s ∷ before, (t, after, ap (λ r. s ∷ r) split, ((k, good, later), free), charged))
        ]
      ]
