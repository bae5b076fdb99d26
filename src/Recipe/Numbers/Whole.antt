-- ===== src/Recipe/Numbers/Whole.antt =====
-- Whole numbers in place of JavaScript's, and every text of a number read as 1.
use recipe_import_from_anyth.Base.{
  ℕ, ◌+◌, ◌/◌, ◌*◌, max, min, ltb, leb, eqb, true, false, refl, arith,
}
use recipe_import_from_anyth.Recipe.Numbers.{Floats}
use recipe_import_from_anyth.Recipe.Numbers.Counts.{FloatLaws}

abbrev pub whole_numbers : Floats
whole_numbers = record {
  Num = ℕ;
  to_number = λ s. 1;
  is_finite = λ x. true;
  is_negative = λ x. false;
  is_zero = λ x. eqb x 0;
  add = λ x y. x + y;
  divide = λ x y. x / y;
  multiply = λ x y. x * y;
  round = λ x. x;
  at_least_one = λ x. max 1 x;
  of_index = λ i. i;
  is_above = λ x y. ltb y x;
  is_at_least = λ x y. leb y x;
  minimum = λ x y. min x y;
  maximum = λ x y. max x y;
}

pub whole_laws : FloatLaws whole_numbers
whole_laws = record {
  round-negative = λ x h. refl;
  round_idem = λ x. refl;
  index-negative = λ i. refl;
  round-index = λ i. refl;
  at_least_one-positive = λ x. (refl, ground arith);
  at_least_one-round = λ x. omega arith;
}
