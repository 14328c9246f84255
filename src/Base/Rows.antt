-- ===== src/Base/Rows.antt =====
-- Writes to the row that a unique key selects.
use mathlib.Core.Logic.{Lift}
use typescript_version_taxi.Base.{
  All, Bool, Bool-cases, List, Memᴰ, [], arith, count, false, filter, find, if◌then◌else◌, inl, inr,
  length, none, not, refl, some, sym, suc, true, update_many, ◌&&◌, ◌++◌, ◌+◌, ◌∷◌, ◌≡◌, ◌≤◌,
}

module _ {ℓ} {A : Type ℓ} where
  pub count-pos-of-mem :
      (p : A → Bool) {a : A} {xs : List A} → Memᴰ a xs → p a ≡ true → 1 ≤ count p xs
  count-pos-of-mem p (Memᴰ.head e) h = rw (← e, h) (omega arith)
  count-pos-of-mem p (Memᴰ.tail m) h = omega (arith, count-pos-of-mem p m h)

  pub All-of-count-zero : (p : A → Bool) (xs : List A) → count p xs ≡ 0 → All (λ x. p x ≡ false) xs
  All-of-count-zero p [] h = tt
  All-of-count-zero p (x ∷ xs) h = ground (arith, All-of-count-zero p xs)

  All-absurd :
      (p : A → Bool) (a : A) (xs : List A)
      → All (λ x. p x ≡ false) xs
      → All (λ x. p x ≡ true → x ≡ a) xs
  All-absurd p a [] h = tt
  All-absurd p a (x ∷ xs) h = ((λ e. cc (h.0)), All-absurd p a xs h.1)

  -- A key that at most one row has selects only the row that was found.
  pub unique_row :
      (p : A → Bool) (a : A) (xs : List A)
      → count p xs ≤ 1
      → Memᴰ a xs
      → p a ≡ true
      → All (λ x. p x ≡ true → x ≡ a) xs
  unique_row p a [] u m h = elim m [ ]
  unique_row p a (x ∷ xs) u (Memᴰ.head e) h =
      let k : p x ≡ true = rw (← e) h in
      ((λ _. sym e), All-absurd p a xs (All-of-count-zero p xs (omega (arith, (rw k at u)))))
  unique_row p a (x ∷ xs) u (Memᴰ.tail m) h = (
    (λ k. absurd (omega (arith, count-pos-of-mem p m h, (rw k at u)))),
    unique_row p a xs (omega arith) m h,
  )

  pub count-update_many_of :
      (p q : A → Bool) (f : A → A) (xs : List A)
      → All (λ x. p x ≡ true → q (f x) ≡ q x) xs
      → count q (update_many p f xs) ≡ count q xs
  count-update_many_of p q f [] h = refl
  count-update_many_of p q f (x ∷ xs) h = ground (arith, h.0, count-update_many_of p q f xs h.1)

  -- A write adds to a count at most the rows that it touches.
  pub count-update_many-add :
      (p q : A → Bool) (f : A → A) (xs : List A)
      → count q (update_many p f xs) ≤ count q xs + count p xs
  count-update_many-add p q f [] = omega arith
  count-update_many-add p q f (x ∷ xs) = ground (arith, count-update_many-add p q f xs)

  pub filter-update_many_of :
      (p q : A → Bool) (f : A → A) (xs : List A)
      → All (λ x. p x ≡ true → q x ≡ false) xs
      → All (λ x. p x ≡ true → q (f x) ≡ false) xs
      → filter q (update_many p f xs) ≡ filter q xs
  filter-update_many_of p q f [] h k = refl
  filter-update_many_of p q f (x ∷ xs) h k =
      ground (arith, h.0, k.0, filter-update_many_of p q f xs h.1 k.1)

  pub count-update_many_zero :
      (q : A → Bool) (f : A → A)
      → ((x : A) → q (f x) ≡ false)
      → (xs : List A) → count q (update_many q f xs) ≡ 0
  count-update_many_zero q f h [] = refl
  count-update_many_zero q f h (x ∷ xs) = ground (arith, h x, count-update_many_zero q f h xs)

  -- A write that keeps the key `p` of each row keeps who has it.
  pub All-imp {κ ι} :
      (P : A → Type κ) (Q : A → Type ι)
      → ((x : A) → P x → Q x)
      → (xs : List A) → All P xs
      → All Q xs
  All-imp P Q h [] k = tt
  All-imp P Q h (x ∷ xs) k = (h x k.0, All-imp P Q h xs k.1)

  pub mem-append_left : {a : A} {xs : List A} (ys : List A) → Memᴰ a xs → Memᴰ a (xs ++ ys)
  mem-append_left ys (Memᴰ.head e) = Memᴰ.head e
  mem-append_left ys (Memᴰ.tail m) = Memᴰ.tail (mem-append_left ys m)

  pub mem-update_many_ne :
      (p : A → Bool) (f : A → A) {a : A} {xs : List A}
      → p a ≡ false
      → Memᴰ a xs
      → Memᴰ a (update_many p f xs)
  mem-update_many_ne p f h (Memᴰ.head e) = Memᴰ.head (rw (← e, h))
  mem-update_many_ne p f h (Memᴰ.tail m) = Memᴰ.tail (mem-update_many_ne p f h m)

  pub mem-update_many :
      (p : A → Bool) (f : A → A) {a : A} {xs : List A}
      → p a ≡ true
      → Memᴰ a xs
      → Memᴰ (f a) (update_many p f xs)
  mem-update_many p f h (Memᴰ.head e) = Memᴰ.head (rw (← e, h))
  mem-update_many p f h (Memᴰ.tail m) = Memᴰ.tail (mem-update_many p f h m)

  -- A row that is found by a key stands in the table.
  pub mem-find : (p : A → Bool) (xs : List A) {a : A} → find p xs ≡ some a → Memᴰ a xs
  mem-find p [] e = cc
  mem-find p (x ∷ xs) {a} e = elim (Bool-cases (p x)) [
    | inl h ↦ Memᴰ.head (ground arith)
    | inr h ↦ Memᴰ.tail (mem-find p xs (ground arith))
  ]

  pub count-of-find-none : (p : A → Bool) (xs : List A) → find p xs ≡ none → count p xs ≡ 0
  count-of-find-none p [] e = refl
  count-of-find-none p (x ∷ xs) e = ground (arith, count-of-find-none p xs)

  pub mem-append_right : {a : A} (xs : List A) {ys : List A} → Memᴰ a ys → Memᴰ a (xs ++ ys)
  mem-append_right [] m = m
  mem-append_right (x ∷ xs) m = Memᴰ.tail (mem-append_right xs m)

  -- After a write that takes every row it touches out of `q`, no row of `p` is in `q`.
  pub count-update_many_within :
      (p q : A → Bool) (f : A → A)
      → ((x : A) → p x ≡ true → q (f x) ≡ false)
      → ((x : A) → p x ≡ false → q x ≡ false)
      → (xs : List A) → count q (update_many p f xs) ≡ 0
  count-update_many_within p q f h k [] = refl
  count-update_many_within p q f h k (x ∷ xs) =
      ground (arith, h x, k x, count-update_many_within p q f h k xs)

  -- The row that a key selects after a write that keeps the key.
  pub find-update_many :
      (p r : A → Bool) (f : A → A) {a : A} (xs : List A)
      → ((x : A) → r x ≡ true → p (f x) ≡ p x)
      → find p xs ≡ some a
      → find p (update_many r f xs) ≡ some (if r a then f a else a)
  find-update_many p r f [] h e = cc
  find-update_many p r f {a} (x ∷ xs) h e = ground (arith, h x, find-update_many p r f {a = a} xs h)

  pub find-update_many-none :
      (p r : A → Bool) (f : A → A) (xs : List A)
      → ((x : A) → r x ≡ true → p (f x) ≡ p x)
      → find p xs ≡ none
      → find p (update_many r f xs) ≡ none
  find-update_many-none p r f [] h e = refl
  find-update_many-none p r f (x ∷ xs) h e = ground (arith, h x, find-update_many-none p r f xs h)

  pub find-append :
      (p : A → Bool) (xs : List A) (x : A)
      → find p xs ≡ none
      → p x ≡ true
      → find p (xs ++ x ∷ []) ≡ some x
  find-append p [] x e h = rw h refl
  find-append p (y ∷ xs) x e h = ground (arith, find-append p xs x)

module _ {ℓ κ} {A : Type ℓ} (R : A → A → Type κ) where
  -- The rows of two tables correspond one by one.
  abbrev pub Rows : List A → List A → Type κ
  Rows [] [] = Unit
  Rows (x ∷ xs) (y ∷ ys) = R x y × Rows xs ys
  Rows _ _ = Lift ⊥

  pub Rows-refl : ((x : A) → R x x) → (xs : List A) → Rows xs xs
  Rows-refl h [] = tt
  Rows-refl h (x ∷ xs) = (h x, Rows-refl h xs)

  pub Rows-update_many :
      (p : A → Bool) (f : A → A)
      → ((x : A) → R x x)
      → (xs : List A) → All (λ x. p x ≡ true → R x (f x)) xs
      → Rows xs (update_many p f xs)
  Rows-update_many p f h [] k = tt
  Rows-update_many p f h (x ∷ xs) k = elim (Bool-cases (p x)) [
    | inl e ↦ rw e (k.0 e, Rows-update_many p f h xs k.1)
    | inr e ↦ rw e (h x, Rows-update_many p f h xs k.1)
  ]

module _ {ℓ} {A : Type ℓ} where
  -- A key that one row has at most finds that row.
  pub find_unique :
      (p : A → Bool) (a : A) (xs : List A)
      → count p xs ≤ 1
      → Memᴰ a xs
      → p a ≡ true
      → find p xs ≡ some a
  find_unique p a [] u m h = elim m [ ]
  find_unique p a (x ∷ xs) u (Memᴰ.head e) h = rw (← e, h) refl
  find_unique p a (x ∷ xs) u (Memᴰ.tail m) h =
      ground (arith, count-pos-of-mem p m h, find_unique p a xs (omega arith) m h)

  pub find-none-of-count : (p : A → Bool) (xs : List A) → count p xs ≡ 0 → find p xs ≡ none
  find-none-of-count p [] h = refl
  find-none-of-count p (x ∷ xs) h = ground (arith, find-none-of-count p xs)

  pub count-filter-le : (p r : A → Bool) (xs : List A) → count p (filter r xs) ≤ count p xs
  count-filter-le p r [] = omega arith
  count-filter-le p r (x ∷ xs) = ground (arith, count-filter-le p r xs)

  pub count-filter-and :
      (p r : A → Bool) (xs : List A) → count p (filter r xs) ≡ count (λ x. r x && p x) xs
  count-filter-and p r [] = refl
  count-filter-and p r (x ∷ xs) = ground (arith, count-filter-and p r xs)

  pub length-filter : (p : A → Bool) (xs : List A) → length (filter p xs) ≡ count p xs
  length-filter p [] = refl
  length-filter p (x ∷ xs) = ground (arith, length-filter p xs)

  -- A write to the one row of a key takes that row out of a count.
  pub count-update_many-take :
      (p q : A → Bool) (f : A → A) (a : A) (xs : List A)
      → count p xs ≤ 1
      → Memᴰ a xs
      → p a ≡ true
      → q a ≡ true
      → q (f a) ≡ false
      → suc (count q (update_many p f xs)) ≡ count q xs
  count-update_many-take p q f a [] u m h k l = elim m [ ]
  count-update_many-take p q f a (x ∷ xs) u (Memᴰ.head e) h k l =
      let found : p x ≡ true = rw (← e) h in
      let counted : q x ≡ true = rw (← e) k in
      let taken : q (f x) ≡ false = rw (← e) l in
      let others = All-of-count-zero p xs (ground (arith, found, u)) in
      let rest =
        count-update_many_of p q f xs (All-imp _ _ (λ y n yes. absurd (cc (n, yes))) xs others) in
      ground (arith, found, counted, taken, rest)
  count-update_many-take p q f a (x ∷ xs) u (Memᴰ.tail m) h k l = ground (
    arith,
    count-pos-of-mem p m h,
    count-update_many-take p q f a xs (ground (arith, count-pos-of-mem p m h)) m h k l,
  )

  -- Both sides of a test.
  pub length-split :
      (p : A → Bool) (xs : List A)
      → length (filter p xs) + length (filter (λ x. not (p x)) xs) ≡ length xs
  length-split p [] = refl
  length-split p (x ∷ xs) = ground (arith, length-split p xs)

  pub count-all : (xs : List A) → count (λ x. true) xs ≡ length xs
  count-all [] = refl
  count-all (x ∷ xs) = omega (arith, count-all xs)

  -- A row that a key does not select does not change what it finds.
  pub find-append_other :
      (p : A → Bool) (xs : List A) (x : A) → p x ≡ false → find p (xs ++ x ∷ []) ≡ find p xs
  find-append_other p [] x h = rw h refl
  find-append_other p (y ∷ xs) x h = ground (arith, find-append_other p xs x h)

  pub find-update_many_other :
      (p r : A → Bool) (f : A → A)
      → ((x : A) → r x ≡ true → (p x ≡ false) × (p (f x) ≡ false))
      → (xs : List A) → find p (update_many r f xs) ≡ find p xs
  find-update_many_other p r f h [] = refl
  find-update_many_other p r f h (x ∷ xs) = ground (arith, h x, find-update_many_other p r f h xs)

  -- A write that puts no row it touches into a count does not raise it.
  pub count-update_many-le_of :
      (p q : A → Bool) (f : A → A) (xs : List A)
      → All (λ x. p x ≡ true → q (f x) ≡ false) xs
      → count q (update_many p f xs) ≤ count q xs
  count-update_many-le_of p q f [] h = omega arith
  count-update_many-le_of p q f (x ∷ xs) h =
      ground (arith, h.0, count-update_many-le_of p q f xs h.1)
