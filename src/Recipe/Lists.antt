-- ===== src/Recipe/Lists.antt =====
-- Lists of texts and enumeration values in recipe-jsonld.normalizers.ts.
pub mod Enums
pub mod Again
use Prim.Native.Char.{Char, code}
use Prim.Native.String.{[], ◌∷◌}
use recipe_import_from_anyth.Base.{
  ℕ, ◌≡◌, ◌≢◌, refl, Bool, true, false, not, ◌||◌, String, append, Option, none, some, List, [],
  ◌∷◌, map, eqb, if◌then◌else◌, is_empty, trim, trim_idem, filter_by, collect, nonempty_list,
  unique, All, All-map, All-collect, All-unique, IsUnique, unique-IsUnique, unique_self, keep,
  subst, arith, Option-cases, inl, inr, ap, Bool-cases,
}
use mathlib.Core.Option
use mathlib.Core.Option.{some-injective}
use recipe_import_from_anyth.Value.{
  Value, undefined, null, bool, num, str, arr, obj, Items, nil, cons, items,
}
use recipe_import_from_anyth.Recipe.Texts.{
  to_non_empty_string, to_non_empty_string-IsTidy, to_non_empty_string-tidy, IsTidy, ne-empty,
}

abbrev is_separator : Char → Bool
is_separator c = eqb (code c) b',' || eqb (code c) b';'

-- `s.split(/[,;]+/)`: whether the last character was a separator, the text since, and the rest
split_from : Bool → String → String → List String
split_from in_run cur [] = cur ∷ []
split_from in_run cur (c ∷ s) = elim (is_separator c) [
  | true ↦ elim in_run [ true ↦ split_from true cur s | false ↦ cur ∷ split_from true "" s ]
  | false ↦ split_from false (append cur (c ∷ [])) s
]

unfoldable pub split_list : String → List String
unfolding split_from
split_list s = split_from false "" s

unique_list : Option (List String) → Option (List String)
unique_list none = none
unique_list (some xs) = some (unique xs)

-- `.map((entry) => entry.trim()).filter((entry) => entry.length > 0)`
trimmed_pieces : String → List String
trimmed_pieces s = filter_by (λ t. not (is_empty t)) (map trim (split_list s))

module _ {N : Type 0} where
  pub normalize_string_array : Value N → Option (List String)
  normalize_string_array (arr xs) =
      unique_list (nonempty_list (collect to_non_empty_string (items xs)))
  normalize_string_array _ = none

  pub normalize_string_list : Value N → Option (List String)
  normalize_string_list value = elim (to_non_empty_string value) [
    | some single ↦ unique_list (nonempty_list (trimmed_pieces single))
    | none ↦ normalize_string_array value
  ]

-- `string | string[]`
pub data Image : Type 0 where
  one : String → Image
  many : List String → Image

abbrev image_of : Option String → Option (List String) → Option Image
image_of (some single) several = some (one single)
image_of none (some several) = some (many several)
image_of none none = none

pub normalize_image : {N : Type 0} → Value N → Option Image
normalize_image value = image_of (to_non_empty_string value) (normalize_string_array value)

-- Texts that are tidy, with no text twice and at least one.
pub record IsTidyList (xs : List String) : Type 0 where
  pub tidy : All IsTidy xs
  pub once : IsUnique xs
  pub inhabited : xs ≢ []

unique_list-IsTidyList :
    (xs ys : List String) → All IsTidy xs → unique_list (nonempty_list xs) ≡ some ys → IsTidyList ys
unfolding unique_list
unique_list-IsTidyList [] ys h e = cc
unique_list-IsTidyList (x ∷ xs) ys h e = subst IsTidyList (some-injective _ _ e) (record {
  tidy = All-unique IsTidy (x ∷ xs) h;
  once = unique-IsUnique (x ∷ xs);
  inhabited = λ p. cc p;
})

trimmed-All : (xs : List String) → All IsTidy (filter_by (λ t. not (is_empty t)) (map trim xs))
trimmed-All [] = tt
trimmed-All (x ∷ xs) = elim (Bool-cases (is_empty (trim x))) [
  | inl blank ↦ rw blank (trimmed-All xs)
  | inr ink ↦
      rw ink (record { trimmed = trim_idem x; inhabited = ne-empty (trim x) ink }, trimmed-All xs)
]

pub normalize_string_array-IsTidyList :
    {N : Type 0} (value : Value N) (xs : List String)
    → normalize_string_array value ≡ some xs
    → IsTidyList xs
unfolding normalize_string_array
normalize_string_array-IsTidyList (arr ys) xs e =
    unique_list-IsTidyList (collect to_non_empty_string (items ys)) xs
      (All-collect IsTidy to_non_empty_string to_non_empty_string-IsTidy (items ys)) e
normalize_string_array-IsTidyList _ xs e = cc

-- A list of texts that is read, from an array or from one text with commas and semicolons, holds
-- trimmed texts that are not empty, none of them twice, and at least one.
pub normalize_string_list-IsTidyList :
    {N : Type 0} (value : Value N) (xs : List String)
    → normalize_string_list value ≡ some xs
    → IsTidyList xs
unfolding normalize_string_list trimmed_pieces
normalize_string_list-IsTidyList value xs e = elim (Option-cases (to_non_empty_string value)) [
  | inl several ↦
      normalize_string_array-IsTidyList value xs (rw (several, normalize_string_list) at e)
  | inr (single, found) ↦
      unique_list-IsTidyList (trimmed_pieces single) xs (trimmed-All (split_list single))
        (rw (found, normalize_string_list) at e)
]

-- The array that holds some texts.
abbrev pub text_items : {N : Type 0} → List String → Items N
text_items [] = nil
text_items (x ∷ xs) = cons (str x) (text_items xs)

collect-text_items :
    (N : Type 0) (xs : List String)
    → All IsTidy xs
    → collect (to_non_empty_string {N = N}) (items (text_items xs)) ≡ xs
collect-text_items N [] h = refl
collect-text_items N (x ∷ xs) (tidy, h) =
    rw (to_non_empty_string-tidy N x tidy) (ap (λ t. x ∷ t) (collect-text_items N xs h))

unique_list_self : (xs : List String) → IsTidyList xs → unique_list (nonempty_list xs) ≡ some xs
unfolding unique_list
unique_list_self [] h = absurd (h.inhabited refl)
unique_list_self (x ∷ xs) h = ap some (unique_self (x ∷ xs) h.once)

pub normalize_string_array-tidy :
    (N : Type 0) (xs : List String)
    → IsTidyList xs
    → normalize_string_array {N = N} (arr (text_items xs)) ≡ some xs
unfolding normalize_string_array
normalize_string_array-tidy N xs h = rw (collect-text_items N xs h.tidy) (unique_list_self xs h)

pub normalize_string_list-tidy :
    (N : Type 0) (xs : List String)
    → IsTidyList xs
    → normalize_string_list {N = N} (arr (text_items xs)) ≡ some xs
unfolding normalize_string_list to_non_empty_string
normalize_string_list-tidy N xs h = normalize_string_array-tidy N xs h

-- Such a list, given as an array, is read as it is: a second normalization changes nothing.
pub normalize_string_list_idem :
    (N : Type 0) (value : Value N) (xs : List String)
    → normalize_string_list value ≡ some xs
    → normalize_string_list {N = N} (arr (text_items xs)) ≡ some xs
normalize_string_list_idem N value xs e =
    normalize_string_list-tidy N xs (normalize_string_list-IsTidyList value xs e)

pub normalize_string_list-missing : (N : Type 0) → normalize_string_list {N = N} undefined ≡ none
unfolding normalize_string_list normalize_string_array to_non_empty_string
normalize_string_list-missing N = refl
