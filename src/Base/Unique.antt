-- ===== src/Base/Unique.antt =====
-- Texts without repetition.
use Prim.Native.String.{String}
use mathlib.Core.Path.{◌≡◌, refl, ap}
use mathlib.Core.Logic.{◌≢◌, inl, inr}
use mathlib.Core.Bool.{Bool, false, not}
use mathlib.Core.List.{List, [], ◌∷◌}
use native.Mathlib.Omega.{arith}
use text.Mathlib.Text.{◌==◌}
use text.Mathlib.TextEquality.{eq_iff}
use recipe_import_from_anyth.Base.Tests.{Bool-cases}
use recipe_import_from_anyth.Base.Lists.{All, All-filter_by, filter_by}

-- `[...new Set(xs)]` on texts: the first of equal items stays.
abbrev pub unique : List String → List String
unique [] = []
unique (x ∷ xs) = x ∷ filter_by (λ y. not (x == y)) (unique xs)

abbrev pub IsUnique : List String → Type 0
IsUnique [] = Unit
IsUnique (x ∷ xs) = All (λ y. x ≢ y) xs × IsUnique xs

All-others : (x : String) (xs : List String) → All (λ y. x ≢ y) (filter_by (λ y. not (x == y)) xs)
All-others x [] = tt
All-others x (y ∷ ys) = elim (Bool-cases (x == y)) [
  | inl same ↦ rw same (All-others x ys)
  | inr other ↦ rw other (λ e. ground (arith, eq_iff x y), All-others x ys)
]

filter_by-IsUnique :
    (p : String → Bool) (xs : List String) → IsUnique xs → IsUnique (filter_by p xs)
filter_by-IsUnique p [] h = tt
filter_by-IsUnique p (x ∷ xs) (new, h) = elim (Bool-cases (p x)) [
  | inl kept ↦ rw kept (All-filter_by (λ y. x ≢ y) p xs new, filter_by-IsUnique p xs h)
  | inr gone ↦ rw gone (filter_by-IsUnique p xs h)
]

pub unique-IsUnique : (xs : List String) → IsUnique (unique xs)
unique-IsUnique [] = tt
unique-IsUnique (x ∷ xs) = (
  All-others x (unique xs),
  filter_by-IsUnique (λ y. not (x == y)) (unique xs) (unique-IsUnique xs),
)

pub All-unique {κ} : (P : String → Type κ) (xs : List String) → All P xs → All P (unique xs)
All-unique P [] h = tt
All-unique P (x ∷ xs) (here, h) =
    (here, All-filter_by P (λ y. not (x == y)) (unique xs) (All-unique P xs h))

filter_by-others :
    (x : String) (xs : List String) → All (λ y. x ≢ y) xs → filter_by (λ y. not (x == y)) xs ≡ xs
filter_by-others x [] h = refl
filter_by-others x (y ∷ ys) (ne, h) =
    let other : (x == y) ≡ false = ground (arith, eq_iff x y) in
    rw other (ap (λ t. y ∷ t) (filter_by-others x ys h))

-- Nothing is dropped where nothing is double.
pub unique_self : (xs : List String) → IsUnique xs → unique xs ≡ xs
unique_self [] h = refl
unique_self (x ∷ xs) (new, h) = rw (unique_self xs h) (ap (λ t. x ∷ t) (filter_by-others x xs new))
