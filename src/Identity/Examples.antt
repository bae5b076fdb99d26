-- ===== src/Identity/Examples.antt =====
-- Objects of numbers, where 0 stands for undefined and no number is a date.
use recipe_import_from_anyth.Base.{
  ℕ, ◌≡◌, ◌↔◌, refl, true, false, String, some, [], ◌∷◌, eqb, arith,
}
use recipe_import_from_anyth.Base.Map.{Map, get}
use recipe_import_from_anyth.Identity.{Comparison, shallow_equal}
use recipe_import_from_anyth.Identity.Shallow.{HasKeysOnce, compare_entries_iff}

abbrev numbers : Comparison ℕ
numbers = record { undefined = 0; strict = eqb; is_dayjs = λ n. false; same_time = eqb }

abbrev point : Map ℕ
point = ("x", 1) ∷ ("y", 2) ∷ []

abbrev turned : Map ℕ
turned = ("y", 2) ∷ ("x", 1) ∷ []

point-HasKeysOnce : HasKeysOnce point
unfolding get
point-HasKeysOnce = (refl, (refl, tt))

turned-HasKeysOnce : HasKeysOnce turned
unfolding get
turned-HasKeysOnce = (refl, (refl, tt))

numbers-strict : (m n : ℕ) → (eqb m n ≡ true) ↔ (m ≡ n)
numbers-strict m n = (λ h. ground arith, λ h. ground arith)

compare_entries_iff_example :
    (shallow_equal numbers false (some point) (some turned) ≡ true)
    ↔ ((k : String) → get k point ≡ get k turned)
compare_entries_iff_example =
    compare_entries_iff numbers numbers-strict point turned point-HasKeysOnce turned-HasKeysOnce
      ((λ e. omega (arith, e), refl), ((λ e. omega (arith, e), refl), tt))

turned_test : shallow_equal numbers false (some point) (some turned) ≡ true
unfolding shallow_equal
turned_test = refl
