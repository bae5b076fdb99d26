-- ===== src/Recipe/Ingredients/WellFormed.antt =====
-- Every ingredient and instruction that is read has a text.
use recipe_import_from_anyth.Base.{
  ℕ, ◌≡◌, ◌≢◌, subst, String, Option, none, some, List, [], ◌or?◌, OnSome, OnSome-intro, All,
  All-collect_from, collect_from, nonempty_list-All,
}
use mathlib.Core.Option.{some-injective}
use recipe_import_from_anyth.Value.{Value, str, arr, obj, items}
use recipe_import_from_anyth.Recipe.Numbers.{Floats}
use recipe_import_from_anyth.Recipe.Texts.{to_non_empty_string-IsTidy, IsTidy, text_at-IsTidy}
use recipe_import_from_anyth.Recipe.Types.{CanonicalIngredient, CanonicalInstruction}
use recipe_import_from_anyth.Recipe.Ingredients.{
  ingredient_raw, ingredient_name, named_ingredient, text_ingredient, normalize_ingredient,
  normalize_ingredient_list, instruction_with, text_instruction, normalize_instruction,
  normalize_instruction_list,
}

pub record IsNamed {N : Type 0} (i : CanonicalIngredient N) : Type 0 where
  pub name : IsTidy i.name
  pub raw : OnSome IsTidy i.raw

abbrev pub HasText : {N : Type 0} → CanonicalInstruction N → Type 0
HasText i = IsTidy i.text

pub or?-OnSome {ℓ κ} :
    {A : Type ℓ} (P : A → Type κ) (a b : Option A) → OnSome P a → OnSome P b → OnSome P (a or? b)
or?-OnSome P none b h k = k
or?-OnSome P (some x) b h k = h

pub OnSome-at {κ} :
    {A : Type 0} (P : A → Type κ) (o : Option A) (a : A) → OnSome P o → o ≡ some a → P a
OnSome-at P none a h e = cc
OnSome-at P (some b) a h e = subst P (some-injective _ _ e) h

module _ (F : Floats) where
  pub ingredient_raw-IsTidy : (v : Value F.Num) → OnSome IsTidy (ingredient_raw F v)
  unfolding ingredient_raw
  ingredient_raw-IsTidy v = or?-OnSome IsTidy _ _ (text_at-IsTidy "raw" v) (
      or?-OnSome IsTidy _ _ (text_at-IsTidy "line" v)
        (or?-OnSome IsTidy _ _ (text_at-IsTidy "text" v) (text_at-IsTidy "ingredient" v)))

  pub ingredient_name-IsTidy : (v : Value F.Num) → OnSome IsTidy (ingredient_name F v)
  unfolding ingredient_name
  ingredient_name-IsTidy v = or?-OnSome IsTidy _ _ (text_at-IsTidy "name" v) (
      or?-OnSome IsTidy _ _ (text_at-IsTidy "ingredient" v) (
        or?-OnSome IsTidy _ _ (text_at-IsTidy "line" v)
          (or?-OnSome IsTidy _ _ (text_at-IsTidy "text" v) (ingredient_raw-IsTidy v))))

  named_ingredient-IsNamed :
      (index : ℕ) (v : Value F.Num) (name : Option String)
      → OnSome IsTidy name
      → OnSome IsNamed (named_ingredient F index v name)
  unfolding named_ingredient
  named_ingredient-IsNamed index v none h = tt
  named_ingredient-IsNamed index v (some name) h = record {
    name = h;
    raw = ingredient_raw-IsTidy v;
  }

  text_ingredient-IsNamed :
      (index : ℕ) (text : Option String)
      → OnSome IsTidy text
      → OnSome IsNamed (text_ingredient F index text)
  unfolding text_ingredient
  text_ingredient-IsNamed index none h = tt
  text_ingredient-IsNamed index (some text) h = record { name = h; raw = h }

  normalize_ingredient-IsNamed :
      (index : ℕ) (v : Value F.Num) → OnSome IsNamed (normalize_ingredient F index v)
  unfolding normalize_ingredient
  normalize_ingredient-IsNamed index (str s) =
      text_ingredient-IsNamed index _ (OnSome-intro _ (to_non_empty_string-IsTidy (str s)))
  normalize_ingredient-IsNamed index (obj fs) =
      named_ingredient-IsNamed index (obj fs) _ (ingredient_name-IsTidy (obj fs))
  normalize_ingredient-IsNamed index _ = tt

  pub normalize_ingredient_list-IsNamed :
      (v : Value F.Num) (xs : List (CanonicalIngredient F.Num))
      → normalize_ingredient_list F v ≡ some xs
      → All IsNamed xs × (xs ≢ [])
  unfolding normalize_ingredient_list
  normalize_ingredient_list-IsNamed (arr ys) xs e =
      nonempty_list-All IsNamed (collect_from (normalize_ingredient F) 0 (items ys)) xs
        (All-collect_from IsNamed (normalize_ingredient F)
          (λ i v y h. OnSome-at IsNamed _ y (normalize_ingredient-IsNamed i v) h) 0 (items ys))
        e
  normalize_ingredient_list-IsNamed _ xs e = cc

  instruction_with-HasText :
      (index : ℕ) (v : Value F.Num) (text : Option String)
      → OnSome IsTidy text
      → OnSome HasText (instruction_with F index v text)
  unfolding instruction_with
  instruction_with-HasText index v none h = tt
  instruction_with-HasText index v (some text) h = h

  text_instruction-HasText :
      (index : ℕ) (text : Option String)
      → OnSome IsTidy text
      → OnSome HasText (text_instruction F index text)
  unfolding text_instruction
  text_instruction-HasText index none h = tt
  text_instruction-HasText index (some text) h = h

  normalize_instruction-HasText :
      (index : ℕ) (v : Value F.Num) → OnSome HasText (normalize_instruction F index v)
  unfolding normalize_instruction
  normalize_instruction-HasText index (str s) =
      text_instruction-HasText index _ (OnSome-intro _ (to_non_empty_string-IsTidy (str s)))
  normalize_instruction-HasText index (obj fs) =
      instruction_with-HasText index (obj fs) _
        (or?-OnSome IsTidy _ _ (text_at-IsTidy "text" (obj fs)) (text_at-IsTidy "name" (obj fs)))
  normalize_instruction-HasText index _ = tt

  pub normalize_instruction_list-HasText :
      (v : Value F.Num) (xs : List (CanonicalInstruction F.Num))
      → normalize_instruction_list F v ≡ some xs
      → All HasText xs × (xs ≢ [])
  unfolding normalize_instruction_list
  normalize_instruction_list-HasText (arr ys) xs e =
      nonempty_list-All HasText (collect_from (normalize_instruction F) 0 (items ys)) xs
        (All-collect_from HasText (normalize_instruction F)
          (λ i v y h. OnSome-at HasText _ y (normalize_instruction-HasText i v) h) 0 (items ys))
        e
  normalize_instruction_list-HasText _ xs e = cc
