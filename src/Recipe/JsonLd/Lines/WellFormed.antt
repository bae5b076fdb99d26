-- ===== src/Recipe/JsonLd/Lines/WellFormed.antt =====
-- The texts of an ingredient that is read from a line or an object.
use mathlib.Core.Option
use recipe_import_from_anyth.Base.{
  ℕ, ◌≡◌, ◌≢◌, ◌⊎◌, refl, ◌==◌, ◌&&◌, not, Bool, true, arith, eq_iff, String, Option, none, some,
  List, [], ◌∷◌, trim, trim_idem, is_space, Bool-cases, is_empty, OnSome, OnSome-intro, All,
  All-collect_from, collect_from, nonempty_list-All, inl, inr,
}
use recipe_import_from_anyth.Base.Map.{Map}
use recipe_import_from_anyth.Value.{Value, str, arr, obj, items}
use recipe_import_from_anyth.Recipe.Numbers.{Floats}
use recipe_import_from_anyth.Recipe.Texts.{to_non_empty_string-IsTidy, IsTidy, text_at-IsTidy}
use recipe_import_from_anyth.Recipe.Ingredients.WellFormed.{or?-OnSome, OnSome-at}
use recipe_import_from_anyth.Recipe.JsonLd.Lines.{
  NormalizedRecipeIngredient, IngredientUnit, written, inherited, inherited_of, inherited_names,
  normalized_ingredient_units, unit_of_key, normalize_unit_token, unit_after, name_or, line_of,
  parse_ingredient_line, entry_of, entry_name, normalize_line, normalize_ingredient_lines,
}

-- A unit is a trimmed text that is not empty, or one of the two properties that every object has
-- under a name in small letters.
unfoldable pub IsUnit : IngredientUnit → Type 0
IsUnit (written s) = IsTidy s
IsUnit (inherited name) = (name ≡ "constructor") ⊎ (name ≡ "__proto__")

-- An ingredient whose texts are trimmed and not empty, and whose unit is as above.
pub record IsLine {N : Type 0} (i : NormalizedRecipeIngredient N) : Type 0 where
  pub name : IsTidy i.name
  pub unit : OnSome IsUnit i.unit
  pub note : OnSome IsTidy i.note
  pub raw : OnSome IsTidy i.raw

-- a text that is trimmed and not empty
abbrev is_tidy : String → Bool
is_tidy s = not (is_empty s) && trim s == s

is_tidy-IsTidy : (s : String) → is_tidy s ≡ true → IsTidy s
is_tidy-IsTidy String.[] h = cc
is_tidy-IsTidy (String.◌∷◌ c s) h = record {
  trimmed = ground (arith, eq_iff (trim (String.◌∷◌ c s)) (String.◌∷◌ c s));
  inhabited = λ p. cc p;
}

-- whether every value of a table is tidy
all_tidy : Map String → Bool
all_tidy [] = true
all_tidy ((k, unit) ∷ units) = is_tidy unit && all_tidy units

inherited_of-IsUnit : (key : String) → OnSome IsUnit (inherited_of inherited_names key)
unfolding inherited_of IsUnit
inherited_of-IsUnit key = elim (Bool-cases ("constructor" == key)) [
  | inl e ↦ rw e (inl refl)
  | inr e ↦
      rw e (elim (Bool-cases ("__proto__" == key)) [ inl p ↦ rw p (inr refl) | inr p ↦ rw p tt ])
]

written-IsUnit :
    (text : Option String) → OnSome IsTidy text → OnSome IsUnit (Option.map written text)
unfolding IsUnit
written-IsUnit none h = tt
written-IsUnit (some s) h = h

unit_of_key-IsUnit :
    (units : Map String) (key : String)
    → all_tidy units ≡ true
    → OnSome IsUnit (unit_of_key units key)
unfolding unit_of_key all_tidy IsUnit
unit_of_key-IsUnit [] key h = inherited_of-IsUnit key
unit_of_key-IsUnit ((k, unit) ∷ units) key h = elim (Bool-cases (k == key)) [
  | inl e ↦ rw e (is_tidy-IsTidy unit (ground arith))
  | inr e ↦ rw e (unit_of_key-IsUnit units key (ground arith))
]

all_tidy-units : all_tidy normalized_ingredient_units ≡ true
unfolding all_tidy trim is_space
all_tidy-units = refl

module _ (F : Floats) (lower : String → String) where
  name_or-IsTidy : (raw s : String) → IsTidy raw → trim s ≡ s → IsTidy (name_or F lower raw s)
  name_or-IsTidy raw String.[] h e = h
  name_or-IsTidy raw (String.◌∷◌ c s) h e = record { trimmed = e; inhabited = λ p. cc p }

  normalize_unit_token-IsUnit :
      (token : String) → OnSome IsUnit (normalize_unit_token F lower token)
  unfolding normalize_unit_token
  normalize_unit_token-IsUnit token =
      unit_of_key-IsUnit normalized_ingredient_units _ all_tidy-units

  unit_after-IsUnit :
      (quantity : Option F.Num) (tokens : List String)
      → OnSome IsUnit (unit_after F lower quantity tokens)
  unit_after-IsUnit none tokens = tt
  unit_after-IsUnit (some quantity) [] = tt
  unit_after-IsUnit (some quantity) (token ∷ tokens) = normalize_unit_token-IsUnit token

  line_of-IsLine : (index : ℕ) (raw : String) → IsTidy raw → IsLine (line_of F lower index raw)
  unfolding line_of
  line_of-IsLine index raw h = record {
    name = name_or-IsTidy raw _ h (trim_idem _);
    unit = unit_after-IsUnit _ _;
    note = tt;
    raw = h;
  }

  parse_ingredient_line-IsLine :
      (index : ℕ) (text : Option String)
      → OnSome IsTidy text
      → OnSome IsLine (parse_ingredient_line F lower index text)
  unfolding parse_ingredient_line
  parse_ingredient_line-IsLine index none h = tt
  parse_ingredient_line-IsLine index (some raw) h = line_of-IsLine index raw h

  entry_of-IsLine :
      (index : ℕ) (v : Value F.Num) (name : Option String)
      → OnSome IsTidy name
      → OnSome IsLine (entry_of F lower index v name)
  unfolding entry_of
  entry_of-IsLine index v none h = tt
  entry_of-IsLine index v (some name) h = record {
    name = h;
    unit = written-IsUnit _ (text_at-IsTidy "unit" v);
    note = text_at-IsTidy "note" v;
    raw =
        or?-OnSome IsTidy _ _ (text_at-IsTidy "raw" v)
          (or?-OnSome IsTidy _ _ (text_at-IsTidy "line" v) (text_at-IsTidy "text" v));
  }

  entry_name-IsTidy : (v : Value F.Num) → OnSome IsTidy (entry_name F lower v)
  entry_name-IsTidy v = or?-OnSome IsTidy _ _ (text_at-IsTidy "name" v) (
      or?-OnSome IsTidy _ _ (text_at-IsTidy "ingredient" v)
        (or?-OnSome IsTidy _ _ (text_at-IsTidy "line" v) (text_at-IsTidy "text" v)))

  normalize_line-IsLine :
      (index : ℕ) (v : Value F.Num) → OnSome IsLine (normalize_line F lower index v)
  unfolding normalize_line
  normalize_line-IsLine index (str s) =
      parse_ingredient_line-IsLine index _ (OnSome-intro _ (to_non_empty_string-IsTidy (str s)))
  normalize_line-IsLine index (obj fs) =
      entry_of-IsLine index (obj fs) _ (entry_name-IsTidy (obj fs))
  normalize_line-IsLine index _ = tt

  pub normalize_ingredient_lines-IsLine :
      (v : Value F.Num) (xs : List (NormalizedRecipeIngredient F.Num))
      → normalize_ingredient_lines F lower v ≡ some xs
      → All IsLine xs × (xs ≢ [])
  unfolding normalize_ingredient_lines
  normalize_ingredient_lines-IsLine (arr ys) xs e =
      nonempty_list-All IsLine (collect_from (normalize_line F lower) 0 (items ys)) xs
        (All-collect_from IsLine (normalize_line F lower)
          (λ i v y h. OnSome-at IsLine _ y (normalize_line-IsLine i v) h) 0 (items ys))
        e
  normalize_ingredient_lines-IsLine _ xs e = cc
