-- ===== src/Base/Members.antt =====
-- The items of a list after an item is added at its end, or others are taken out.
use mathlib.Core.Path.{◌≡◌, refl, ap, sym, ◌∙◌}
use mathlib.Core.Logic.{◌⊎◌, inl, inr}
use mathlib.Core.Bool.{Bool, true}
use mathlib.Core.List.{List, [], ◌∷◌, ◌++◌, Memᴰ}
use recipe_import_from_anyth.Base.Tests.{Bool-cases}
use recipe_import_from_anyth.Base.Lists.{filter_by}

module _ {A : Type 0} where
  pub mem-last : (x : A) (xs : List A) → Memᴰ x (xs ++ x ∷ [])
  mem-last x [] = Memᴰ.head refl
  mem-last x (y ∷ xs) = Memᴰ.tail (mem-last x xs)

  pub mem-before : (x y : A) (xs : List A) → Memᴰ x xs → Memᴰ x (xs ++ y ∷ [])
  mem-before x y [] m = elim m [ ]
  mem-before x y (z ∷ xs) (Memᴰ.head e) = Memᴰ.head e
  mem-before x y (z ∷ xs) (Memᴰ.tail m) = Memᴰ.tail (mem-before x y xs m)

  pub mem-append_cases : (x y : A) (xs : List A) → Memᴰ x (xs ++ y ∷ []) → Memᴰ x xs ⊎ (x ≡ y)
  mem-append_cases x y [] (Memᴰ.head e) = inr e
  mem-append_cases x y [] (Memᴰ.tail m) = elim m [ ]
  mem-append_cases x y (z ∷ xs) (Memᴰ.head e) = inl (Memᴰ.head e)
  mem-append_cases x y (z ∷ xs) (Memᴰ.tail m) = elim (mem-append_cases x y xs m) [
    | inl h ↦ inl (Memᴰ.tail h)
    | inr e ↦ inr e
  ]

  pub mem-filter_by :
      (p : A → Bool) (x : A) (xs : List A) → Memᴰ x (filter_by p xs) → Memᴰ x xs × (p x ≡ true)
  mem-filter_by p x [] m = elim m [ ]
  mem-filter_by p x (y ∷ xs) m = elim (Bool-cases (p y)) [
    | inl kept ↦ elim (rw (kept, filter_by) at m) [
      | Memᴰ.head e ↦ (Memᴰ.head e, ap p e ∙ kept)
      | Memᴰ.tail t ↦ let (h, q) = mem-filter_by p x xs t in (Memᴰ.tail h, q)
    ]
    | inr gone ↦ let (h, q) = mem-filter_by p x xs (rw (gone, filter_by) at m) in (Memᴰ.tail h, q)
  ]

  pub mem-kept :
      (p : A → Bool) (x : A) (xs : List A) → Memᴰ x xs → p x ≡ true → Memᴰ x (filter_by p xs)
  mem-kept p x [] m h = elim m [ ]
  mem-kept p x (y ∷ xs) (Memᴰ.head e) h = rw (sym (ap p e) ∙ h) (Memᴰ.head e)
  mem-kept p x (y ∷ xs) (Memᴰ.tail m) h = elim (Bool-cases (p y)) [
    | inl kept ↦ rw kept (Memᴰ.tail (mem-kept p x xs m h))
    | inr gone ↦ rw gone (mem-kept p x xs m h)
  ]
