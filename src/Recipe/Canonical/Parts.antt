-- ===== src/Recipe/Canonical/Parts.antt =====
-- Texts, lists of texts, authors and nutrition that are read again are as they were.
use recipe_import_from_anyth.Base.{
  ◌≡◌, ◌⊎◌, refl, sym, subst, Bool, true, false, String, Option, none, some, ◌or?◌, OnSome,
  OnSome-intro, if◌then◌else◌, inl, inr,
}
use recipe_import_from_anyth.Value.{Value, undefined, arr, obj, Fields, get, lookup, is_record}
use recipe_import_from_anyth.Recipe.Numbers.Counts.{OnSome-map}
use recipe_import_from_anyth.Recipe.Texts.{
  to_non_empty_string, to_non_empty_string-IsTidy, IsTidy, text_at, text_at-IsTidy,
}
use recipe_import_from_anyth.Recipe.Lists.{
  text_items, normalize_string_list, normalize_string_list_idem, normalize_string_list-missing,
}
use recipe_import_from_anyth.Recipe.Types.{
  CanonicalNutrition, AuthorType, person, organization, CanonicalAuthor,
}
use recipe_import_from_anyth.Recipe.Encoding.{
  optional_value, optional_value-read, text_value, texts_value, type_value, author_value,
  nutrition_value,
}
use recipe_import_from_anyth.Recipe.Ingredients.Again.{text_value-read}
use recipe_import_from_anyth.Recipe.Canonical.{
  if_any, named_author, author_of, author_type, normalize_nutrition, normalize_author,
}

some-cases :
    {A : Type 0} (b : Bool) (a : A)
    → ((if b then some a else none) ≡ none) ⊎ ((if b then some a else none) ≡ some a)
some-cases true a = inr refl
some-cases false a = inl refl

OnSome-kept :
    {A : Type 0} (P : A → Type 0) (o : Option A) (a : A)
    → (o ≡ none) ⊎ (o ≡ some a)
    → (o ≡ some a → P a)
    → OnSome P o
OnSome-kept P o a (inl e) f = subst (OnSome P) (sym e) tt
OnSome-kept P o a (inr e) f = subst (OnSome P) (sym e) (f e)

module _ (N : Type 0) where
  pub text_at-read :
      (key : String) (v : Value N)
      → to_non_empty_string {N = N} (text_value (text_at key v)) ≡ text_at key v
  text_at-read key v = text_value-read N (text_at key v) (text_at-IsTidy key v)

  pub string_list-read :
      (v : Value N)
      → normalize_string_list {N = N} (texts_value (normalize_string_list v))
        ≡ normalize_string_list v
  string_list-read v =
      optional_value-read normalize_string_list (λ xs. arr (text_items xs))
        (normalize_string_list v) (normalize_string_list-missing N)
        (OnSome-intro _ (λ xs e. normalize_string_list_idem N v xs e))

  kind-read :
      (k : Option AuthorType)
      → (author_type {N = N} (optional_value type_value k) or? author_type {N = N} undefined) ≡ k
  unfolding author_type
  kind-read none = refl
  kind-read (some person) = refl
  kind-read (some organization) = refl

  object-missing : (fs : Fields N) → to_non_empty_string (obj fs) ≡ none
  unfolding to_non_empty_string
  object-missing fs = refl

  OnSome-when {κ} :
      {A : Type 0} (P : A → Type κ) (b : Bool) (o : Option A)
      → OnSome P o
      → OnSome P (if b then o else none)
  OnSome-when P true o h = h
  OnSome-when P false o h = tt

  -- what `normalizeAuthor` gives
  record IsAuthor (a : CanonicalAuthor) : Type 0 where
    name : OnSome IsTidy a.name
    told : author_of a.name a.kind ≡ some a

  author_value-read :
      (a : CanonicalAuthor) → IsAuthor a → normalize_author {N = N} (author_value a) ≡ some a
  unfolding normalize_author get lookup is_record
  author_value-read a h =
      rw (object-missing _, text_value-read N a.name h.name, kind-read a.kind) (h.told)

  author_of-IsAuthor :
      (name : Option String) (kind : Option AuthorType)
      → OnSome IsTidy name
      → OnSome IsAuthor (author_of name kind)
  unfolding author_of
  author_of-IsAuthor none none h = tt
  author_of-IsAuthor none (some k) h = record { name = tt; told = refl }
  author_of-IsAuthor (some n) kind h = record { name = h; told = refl }

  named_author-IsAuthor :
      (name : Option String) (rest : Option CanonicalAuthor)
      → OnSome IsTidy name
      → OnSome IsAuthor rest
      → OnSome IsAuthor (named_author name rest)
  unfolding author_of
  named_author-IsAuthor (some n) rest h k = record { name = h; told = refl }
  named_author-IsAuthor none rest h k = k

  normalize_author-IsAuthor : (v : Value N) → OnSome IsAuthor (normalize_author v)
  unfolding normalize_author
  normalize_author-IsAuthor v =
      named_author-IsAuthor _ _ (OnSome-intro _ (to_non_empty_string-IsTidy v))
        (OnSome-when IsAuthor (is_record v) _ (author_of-IsAuthor _ _ (text_at-IsTidy "name" v)))

  pub author-read :
      (v : Value N)
      → OnSome (λ a. normalize_author {N = N} (author_value a) ≡ some a) (normalize_author v)
  author-read v = OnSome-map IsAuthor _ author_value-read _ (normalize_author-IsAuthor v)

  -- what `normalizeNutrition` gives
  record IsNutrition (n : CanonicalNutrition) : Type 0 where
    calories : OnSome IsTidy n.calories
    protein_content : OnSome IsTidy n.protein_content
    fat_content : OnSome IsTidy n.fat_content
    carbohydrate_content : OnSome IsTidy n.carbohydrate_content
    fiber_content : OnSome IsTidy n.fiber_content
    sodium_content : OnSome IsTidy n.sodium_content
    kept : if_any n ≡ some n

  nutrition_value-read :
      (n : CanonicalNutrition)
      → IsNutrition n
      → normalize_nutrition {N = N} (nutrition_value n) ≡ some n
  unfolding normalize_nutrition get lookup is_record
  nutrition_value-read n h =
      rw
        (
          text_value-read N n.calories h.calories,
          text_value-read N n.protein_content h.protein_content,
          text_value-read N n.fat_content h.fat_content,
          text_value-read N n.carbohydrate_content h.carbohydrate_content,
          text_value-read N n.fiber_content h.fiber_content,
          text_value-read N n.sodium_content h.sodium_content,
        )
        (h.kept)

  if_any-cases : (n : CanonicalNutrition) → (if_any n ≡ none) ⊎ (if_any n ≡ some n)
  unfolding if_any
  if_any-cases n = some-cases _ n

  normalize_nutrition-IsNutrition : (v : Value N) → OnSome IsNutrition (normalize_nutrition v)
  unfolding normalize_nutrition
  normalize_nutrition-IsNutrition v = OnSome-when IsNutrition (is_record v) _ (
      OnSome-kept IsNutrition _ _ (if_any-cases _) (λ e. record {
        calories = text_at-IsTidy "calories" v;
        protein_content = text_at-IsTidy "proteinContent" v;
        fat_content = text_at-IsTidy "fatContent" v;
        carbohydrate_content = text_at-IsTidy "carbohydrateContent" v;
        fiber_content = text_at-IsTidy "fiberContent" v;
        sodium_content = text_at-IsTidy "sodiumContent" v;
        kept = e;
      }))

  pub nutrition-read :
      (v : Value N)
      → OnSome
          (λ n. normalize_nutrition {N = N} (nutrition_value n) ≡ some n)
          (normalize_nutrition v)
  nutrition-read v =
      OnSome-map IsNutrition _ nutrition_value-read _ (normalize_nutrition-IsNutrition v)

  pub author-missing : normalize_author {N = N} undefined ≡ none
  unfolding normalize_author to_non_empty_string is_record
  author-missing = refl

  pub nutrition-missing : normalize_nutrition {N = N} undefined ≡ none
  unfolding normalize_nutrition is_record
  nutrition-missing = refl
