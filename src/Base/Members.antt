-- ===== src/Base/Members.antt =====
-- Where the rows of a filtered, a mapped or a longer list come from.
use mathlib.Core.Bool.{Bool, true}
use mathlib.Core.List.{List, Memᴰ, [], map, ◌∷◌}
use mathlib.Core.Logic.{inl, inr, ◌⊎◌}
use mathlib.Core.Path.{refl, ◌≡◌}
use typescript_version_taxi.Base.Lists.{All, filter}
use typescript_version_taxi.Base.Tests.{Bool-cases}

module _ {A : Type 0} where
  pub mem-cons : {a x : A} {xs : List A} → Memᴰ a (x ∷ xs) → (a ≡ x) ⊎ Memᴰ a xs
  mem-cons (Memᴰ.head e) = inl e
  mem-cons (Memᴰ.tail m) = inr m

  pub mem-filter :
      (p : A → Bool) (xs : List A) (a : A) → Memᴰ a (filter p xs) → Memᴰ a xs × (p a ≡ true)
  mem-filter p [] a m = elim m [ ]
  mem-filter p (x ∷ xs) a m = elim (Bool-cases (p x)) [
    | inl e ↦ elim (mem-cons (rw e at m)) [
      | inl k ↦ (Memᴰ.head k, rw k e)
      | inr k ↦ let (n, h) = mem-filter p xs a k in (Memᴰ.tail n, h)
    ]
    | inr e ↦ let (k, h) = mem-filter p xs a (rw e at m) in (Memᴰ.tail k, h)
  ]

  pub All-of-mem : (P : A → Type 0) (xs : List A) → ((a : A) → Memᴰ a xs → P a) → All P xs
  All-of-mem P [] h = tt
  All-of-mem P (x ∷ xs) h = (h x (Memᴰ.head refl), All-of-mem P xs (λ a m. h a (Memᴰ.tail m)))

  pub mem-map :
      {B : Type 0} (f : A → B) (xs : List A) (b : B)
      → Memᴰ b (map f xs)
      → (a : A) × Memᴰ a xs × (b ≡ f a)
  mem-map f [] b m = elim m [ ]
  mem-map f (x ∷ xs) b (Memᴰ.head e) = (x, Memᴰ.head refl, e)
  mem-map f (x ∷ xs) b (Memᴰ.tail m) = let (a, k, e) = mem-map f xs b m in (a, Memᴰ.tail k, e)

  pub All-and : (P Q : A → Type 0) (xs : List A) → All P xs → All Q xs → All (λ x. P x × Q x) xs
  All-and P Q [] h k = tt
  All-and P Q (x ∷ xs) h k = ((h.0, k.0), All-and P Q xs h.1 k.1)

  pub List-cases : (xs : List A) → (xs ≡ []) ⊎ ((x : A) × (ys : List A) × (xs ≡ x ∷ ys))
  List-cases [] = inl refl
  List-cases (x ∷ xs) = inr (x, xs, refl)
