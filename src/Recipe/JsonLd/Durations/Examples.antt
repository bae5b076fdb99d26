-- ===== src/Recipe/JsonLd/Durations/Examples.antt =====
-- The patterns of durations on texts.
use Prim.Native.Char.{code}
use Prim.Native.String.{[], ◌∷◌}
use recipe_import_from_anyth.Base.{
  ℕ, ◌+◌, ◌*◌, ◌-◌, ◌/◌, max, min, ltb, leb, Bool, eqb, is_some, false, if◌then◌else◌, Option, ◌≡◌,
  refl, String, none, some, is_space,
}
use recipe_import_from_anyth.Recipe.Numbers.{Floats, is_digit, span}
use recipe_import_from_anyth.Recipe.JsonLd.Yield.{leading_number}
use recipe_import_from_anyth.Recipe.JsonLd.Durations.{
  match_iso_duration, count_of, after_letter, match_hour_duration, match_minute_duration,
  number_with_unit, normalize_minutes,
}
use recipe_import_from_anyth.Recipe.JsonLd.Durations.Iso.{
  are_digits, is_count, normalize_minutes-duration_text,
}
use recipe_import_from_anyth.Value.{str}

iso_test : match_iso_duration "PT1H30M" ≡ some (none, some "1", some "30")
unfolding match_iso_duration count_of after_letter span
iso_test = refl

hour_test : match_hour_duration "1,5 hours 20min" ≡ some ("1,5", some "20")
unfolding match_hour_duration match_minute_duration number_with_unit leading_number after_letter
    span is_space
hour_test = refl

-- The number of a text of digits; other texts have none.
abbrev pub reading : ℕ → String → Option ℕ
reading n [] = some n
reading n (c ∷ s) =
    let rest = reading (n * 10 + (code c - b'0')) s in if is_digit c then rest else none

abbrev pub on_both : (ℕ → ℕ → ℕ) → Option ℕ → Option ℕ → Option ℕ
on_both f (some m) (some n) = some (f m n)
on_both f _ _ = none

abbrev pub on_numbers : (ℕ → ℕ → Bool) → Option ℕ → Option ℕ → Bool
on_numbers f (some m) (some n) = f m n
on_numbers f _ _ = false

-- Whole numbers, and one for what is not a number.
abbrev pub whole_numbers : Floats
whole_numbers = record {
  Num = Option ℕ;
  to_number = reading 0;
  is_finite = is_some;
  is_negative = λ x. false;
  is_zero = λ x. elim x [ none ↦ false | some n ↦ eqb n 0 ];
  add = on_both (λ m n. m + n);
  divide = on_both (λ m n. m / n);
  multiply = on_both (λ m n. m * n);
  round = λ x. x;
  at_least_one = λ x. elim x [ none ↦ none | some n ↦ some (max 1 n) ];
  of_index = λ i. some i;
  is_above = on_numbers (λ m n. ltb n m);
  is_at_least = on_numbers (λ m n. leb n m);
  minimum = on_both (λ m n. min m n);
  maximum = on_both (λ m n. max m n);
}

normalize_minutes-duration_text_example :
    normalize_minutes whole_numbers (str "PT1H30M") ≡ some (some 90)
unfolding is_count are_digits
normalize_minutes-duration_text_example =
    normalize_minutes-duration_text whole_numbers (λ s. refl) "1" "30" refl refl
