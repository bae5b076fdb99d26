-- ===== src/Recipe/Ingredients/Again.antt =====
-- Ingredients and instructions that are read again are as they were.
use recipe_import_from_anyth.Base.{
  ℕ, ◌≡◌, refl, ap, ◌∙◌, Bool, String, Option, none, some, ◌or?◌, OnSome, OnSome-intro, List, [],
  ◌∷◌, All, All-collect_from, All-map, nonempty_list_self, collect_from, nonempty_list,
  nonempty_list-All, Bool-cases, inl, inr,
}
use recipe_import_from_anyth.Value.{
  Value, undefined, num, bool, str, arr, obj, items, get, lookup, coalesce,
}
use recipe_import_from_anyth.Recipe.Numbers.{Floats, to_finite_number}
use recipe_import_from_anyth.Recipe.Numbers.Counts.{
  FloatLaws, IsFinite, IsWhole, finite-read, index-IsWhole, round-IsWhole,
}
use recipe_import_from_anyth.Recipe.Texts.{
  to_non_empty_string, to_non_empty_string-IsTidy, to_non_empty_string-tidy, IsTidy, text_at-IsTidy,
}
use recipe_import_from_anyth.Recipe.Types.{CanonicalIngredient}
use recipe_import_from_anyth.Recipe.Encoding.{
  optional_value, text_value, number_value, ingredient_value, items_of, collect_from-items_of,
}
use recipe_import_from_anyth.Recipe.Ingredients.{
  as_bool, order_or, ingredient_raw, ingredient_name, named_ingredient, text_ingredient,
  normalize_ingredient, normalize_ingredient_list,
}
use recipe_import_from_anyth.Recipe.Ingredients.WellFormed.{
  ingredient_raw-IsTidy, ingredient_name-IsTidy, OnSome-at,
}

pub text_value-read :
    (N : Type 0) (o : Option String)
    → OnSome IsTidy o
    → to_non_empty_string (text_value {N = N} o) ≡ o
unfolding to_non_empty_string
text_value-read N none h = refl
text_value-read N (some s) h = to_non_empty_string-tidy N s h

pub or?-none {ℓ} : {A : Type ℓ} (o : Option A) → (o or? none) ≡ o
or?-none none = refl
or?-none (some s) = refl

pub All-both {ℓ κ μ} :
    {A : Type ℓ} (P : A → Type κ) (Q : A → Type μ) (xs : List A)
    → All P xs
    → All Q xs
    → All (λ x. P x × Q x) xs
All-both P Q [] h k = tt
All-both P Q (x ∷ xs) (h, hs) (k, ks) = ((h, k), All-both P Q xs hs ks)

module _ (F : Floats) (L : FloatLaws F) where
  open F use {Num}

  quantity-read :
      (o : Option Num)
      → OnSome (IsFinite F L) o
      → to_finite_number F (coalesce (number_value o) undefined) ≡ o
  unfolding to_finite_number
  quantity-read none h = refl
  quantity-read (some x) h = finite-read F L (some x) h

  bool-read : (o : Option Bool) → as_bool (optional_value {N = Num} bool o) ≡ o
  bool-read none = refl
  bool-read (some b) = refl

  -- An ingredient whose numbers are finite.
  pub record IsFiniteIngredient (i : CanonicalIngredient Num) : Type 0 where
    pub quantity : OnSome (IsFinite F L) i.quantity
    pub order : IsFinite F L i.order

  -- An ingredient whose texts are tidy and whose order is whole.
  record IsWritten (i : CanonicalIngredient Num) : Type 0 where
    name : IsTidy i.name
    unit : OnSome IsTidy i.unit
    note : OnSome IsTidy i.note
    order : IsWhole F L i.order
    raw : OnSome IsTidy i.raw

  pub order-read :
      (x : Num) (index : ℕ)
      → IsWhole F L x
      → IsFinite F L x
      → order_or F (to_finite_number F (num x)) index ≡ x
  unfolding order_or to_finite_number
  order-read x index h f = rw (f, h.sign) (h.whole)

  raw-read :
      (i : CanonicalIngredient Num)
      → OnSome IsTidy i.raw
      → ingredient_raw F (ingredient_value i) ≡ i.raw
  unfolding ingredient_raw get lookup to_non_empty_string
  raw-read i h = or?-none (to_non_empty_string (text_value i.raw)) ∙ text_value-read Num i.raw h

  ingredient_value-read :
      (index : ℕ) (i : CanonicalIngredient Num)
      → IsWritten i
      → IsFiniteIngredient i
      → normalize_ingredient F index (ingredient_value i) ≡ some i
  unfolding normalize_ingredient named_ingredient ingredient_name get lookup
  ingredient_value-read index i h f =
      rw
        (
          to_non_empty_string-tidy Num i.name h.name,
          quantity-read i.quantity f.quantity,
          text_value-read Num i.unit h.unit,
          text_value-read Num i.note h.note,
          bool-read i.optional,
          order-read i.order index h.order f.order,
          raw-read i h.raw,
        )
        refl

  pub order_or-IsWhole : (o : Option Num) (index : ℕ) → IsWhole F L (order_or F o index)
  unfolding order_or
  order_or-IsWhole none index = index-IsWhole F L index
  order_or-IsWhole (some x) index = elim (Bool-cases (F.is_negative x)) [
    | inl below ↦ rw below (index-IsWhole F L index)
    | inr sign ↦ rw sign (round-IsWhole F L x sign)
  ]

  named_ingredient-IsWritten :
      (index : ℕ) (v : Value Num) (name : Option String)
      → OnSome IsTidy name
      → OnSome IsWritten (named_ingredient F index v name)
  unfolding named_ingredient
  named_ingredient-IsWritten index v none h = tt
  named_ingredient-IsWritten index v (some name) h = record {
    name = h;
    unit = text_at-IsTidy "unit" v;
    note = text_at-IsTidy "note" v;
    order = order_or-IsWhole _ index;
    raw = ingredient_raw-IsTidy F v;
  }

  text_ingredient-IsWritten :
      (index : ℕ) (text : Option String)
      → OnSome IsTidy text
      → OnSome IsWritten (text_ingredient F index text)
  unfolding text_ingredient
  text_ingredient-IsWritten index none h = tt
  text_ingredient-IsWritten index (some text) h = record {
    name = h;
    unit = tt;
    note = tt;
    order = index-IsWhole F L index;
    raw = h;
  }

  normalize_ingredient-IsWritten :
      (index : ℕ) (v : Value Num) → OnSome IsWritten (normalize_ingredient F index v)
  unfolding normalize_ingredient
  normalize_ingredient-IsWritten index (str s) =
      text_ingredient-IsWritten index _ (OnSome-intro _ (to_non_empty_string-IsTidy (str s)))
  normalize_ingredient-IsWritten index (obj fs) =
      named_ingredient-IsWritten index (obj fs) _ (ingredient_name-IsTidy F (obj fs))
  normalize_ingredient-IsWritten index _ = tt

  -- A list of ingredients that is read, with finite numbers, is read again as it is.
  pub normalize_ingredient_list-read :
      (v : Value Num)
      → OnSome (All IsFiniteIngredient) (normalize_ingredient_list F v)
      → OnSome
          (λ xs. normalize_ingredient_list F (arr (items_of ingredient_value xs)) ≡ some xs)
          (normalize_ingredient_list F v)
  unfolding normalize_ingredient_list
  normalize_ingredient_list-read (arr ys) f = OnSome-intro _ (λ xs e.
      let (written, inhabited) =
        nonempty_list-All IsWritten (collect_from (normalize_ingredient F) 0 (items ys)) xs
          (All-collect_from IsWritten (normalize_ingredient F)
            (λ i v y h. OnSome-at IsWritten _ y (normalize_ingredient-IsWritten i v) h) 0
            (items ys))
          e in
      ap nonempty_list (
        collect_from-items_of (normalize_ingredient F) ingredient_value 0 xs (
          All-map (λ x h index. ingredient_value-read index x h.0 h.1) xs
            (All-both _ _ xs written (OnSome-at (All IsFiniteIngredient) _ xs f e))))
      ∙ nonempty_list_self xs inhabited)
  normalize_ingredient_list-read _ f = tt

  pub ingredient_list-missing : normalize_ingredient_list F undefined ≡ none
  unfolding normalize_ingredient_list
  ingredient_list-missing = refl
