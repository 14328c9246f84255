-- ===== src/Numbering/Texts.antt =====
-- Receipt numbers are read back.
use mathlib.Core.List.{append_cancel_left, tail-eq_of_cons-eq}
use typescript_version_taxi.Base.{List, [], ap, refl, some, sym, true, ℕ, ◌++◌, ◌∙◌, ◌∷◌, ◌≡◌}
use typescript_version_taxi.Base.Digits.{
  before_dash, before_dash-append, behind_dash, behind_dash-append, digits, pad_start, read,
  read-pad_start,
}
use typescript_version_taxi.External.Calendar.{Calendar}
use typescript_version_taxi.Numbering.{format_number, has_text, yyyymm}
use typescript_version_taxi.Numbering.Months.{yyyymm-NoDash}
use typescript_version_taxi.Schema.{Time}

module _ (cal : Calendar) where
  -- The period and the number are read back from a receipt number: the text before the dash, and
  -- the digits behind it.
  pub format_number-read :
      (t : Time) (n : ℕ)
      → (before_dash (format_number (yyyymm cal t) n) ≡ yyyymm cal t)
        × (read (behind_dash (format_number (yyyymm cal t) n)) ≡ n)
  unfolding format_number
  format_number-read t n =
      let plain = yyyymm-NoDash cal t in
      (
        before_dash-append (yyyymm cal t) (pad_start 4 (digits n)) plain,
        ap read (behind_dash-append (yyyymm cal t) (pad_start 4 (digits n)) plain)
            ∙ read-pad_start 4 n,
      )

  -- No two periods or numbers share a text.
  pub format_number-injective :
      (t u : Time) (m n : ℕ)
      → format_number (yyyymm cal t) m ≡ format_number (yyyymm cal u) n
      → (yyyymm cal t ≡ yyyymm cal u) × (m ≡ n)
  format_number-injective t u m n e =
      let a = format_number-read t m in
      let b = format_number-read u n in
      (sym a.0 ∙ ap before_dash e ∙ b.0, sym a.1 ∙ ap (λ s. read (behind_dash s)) e ∙ b.1)

-- In one period, no two numbers share a text.
pub same_number :
    (period : List ℕ) (m n : ℕ) → format_number period m ≡ format_number period n → m ≡ n
unfolding format_number
same_number period m n e =
    let padded : pad_start 4 (digits m) ≡ pad_start 4 (digits n) =
      tail-eq_of_cons-eq (append_cancel_left period _ _ e) in
    sym (read-pad_start 4 m) ∙ ap read padded ∙ read-pad_start 4 n

has_text-append : (s t : List ℕ) (c : ℕ) → has_text (some (s ++ c ∷ t)) ≡ true
has_text-append [] t c = refl
has_text-append (d ∷ s) t c = refl

pub has_text-format_number :
    (period : List ℕ) (n : ℕ) → has_text (some (format_number period n)) ≡ true
unfolding format_number
has_text-format_number period n = has_text-append period (pad_start 4 (digits n)) 45
