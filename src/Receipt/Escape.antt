-- ===== src/Receipt/Escape.antt =====
-- `escape`: the five replacements, one after the other, on a text as its code units.
use mathlib.Core.List.{append_assoc}
use mathlib.Core.Path.{ap₂}
use typescript_version_taxi.Base.{
  All, All-append, List, [], arith, if◌then◌else◌, refl, ℕ, ◌++◌, ◌==◌, ◌∙◌, ◌∷◌, ◌≡◌, ◌⊎◌,
}

-- `replaceAll(c, by)` of one character
replace_all : ℕ → List ℕ → List ℕ → List ℕ
replace_all c by [] = []
replace_all c by (x ∷ s) = (if x == c then by else x ∷ []) ++ replace_all c by s

-- &amp; &lt; &gt; &quot; &#039;
abbrev amp : List ℕ
amp = 38 ∷ 97 ∷ 109 ∷ 112 ∷ 59 ∷ []

abbrev lt : List ℕ
lt = 38 ∷ 108 ∷ 116 ∷ 59 ∷ []

abbrev gt : List ℕ
gt = 38 ∷ 103 ∷ 116 ∷ 59 ∷ []

abbrev quot : List ℕ
quot = 38 ∷ 113 ∷ 117 ∷ 111 ∷ 116 ∷ 59 ∷ []

abbrev apos : List ℕ
apos = 38 ∷ 35 ∷ 48 ∷ 51 ∷ 57 ∷ 59 ∷ []

pub escape : List ℕ → List ℕ
unfolding replace_all
escape s =
    replace_all 39 apos
      (replace_all 34 quot (replace_all 62 gt (replace_all 60 lt (replace_all 38 amp s))))

-- What one character becomes.
abbrev pub entity : ℕ → List ℕ
entity c =
    if c == 38
    then amp
    else if c == 60
    then lt
    else if c == 62
    then gt
    else if c == 34
    then quot
    else if c == 39
    then apos
    else c ∷ []

abbrev pub escape_each : List ℕ → List ℕ
escape_each [] = []
escape_each (c ∷ s) = entity c ++ escape_each s

replace_all-append :
    (c : ℕ) (by xs ys : List ℕ)
    → replace_all c by (xs ++ ys) ≡ replace_all c by xs ++ replace_all c by ys
unfolding replace_all
replace_all-append c by [] ys = refl
replace_all-append c by (x ∷ xs) ys = simp (replace_all-append c by xs ys, append_assoc)

-- The last four passes.
passes : List ℕ → List ℕ
unfolding replace_all
passes s = replace_all 39 apos (replace_all 34 quot (replace_all 62 gt (replace_all 60 lt s)))

passes-append : (xs ys : List ℕ) → passes (xs ++ ys) ≡ passes xs ++ passes ys
unfolding passes
passes-append xs ys = simp replace_all-append

passes-entity : (c : ℕ) → passes (if c == 38 then amp else c ∷ []) ≡ entity c
unfolding passes
passes-entity c = ground arith

-- The five replacements of `escape`, one after the other, replace each character of the text once:
-- no replacement is replaced again.
pub escape-eq-escape_each : (s : List ℕ) → escape s ≡ escape_each s
unfolding escape passes
escape-eq-escape_each [] = refl
escape-eq-escape_each (c ∷ s) =
    passes-append (if c == 38 then amp else c ∷ []) (replace_all 38 amp s)
    ∙ ap₂ (λ a b. a ++ b) (passes-entity c) (escape-eq-escape_each s)

-- A character that ends a text or an attribute in HTML.
abbrev pub IsMarkup : ℕ → Type 0
IsMarkup c = (c ≡ 60) ⊎ (c ≡ 62) ⊎ (c ≡ 34) ⊎ (c ≡ 39)

entity_safe : (c : ℕ) → All (λ x. ¬ IsMarkup x) (entity c)
entity_safe c = ground arith

escape_each_safe : (s : List ℕ) → All (λ c. ¬ IsMarkup c) (escape_each s)
escape_each_safe [] = tt
escape_each_safe (c ∷ s) =
    All-append (λ x. ¬ IsMarkup x) (entity c) (escape_each s) (entity_safe c) (escape_each_safe s)

-- An escaped text holds no angle bracket and no quotation mark.
pub escape_safe : (s : List ℕ) → All (λ c. ¬ IsMarkup c) (escape s)
escape_safe s = rw escape-eq-escape_each (escape_each_safe s)
