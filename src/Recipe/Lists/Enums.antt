-- ===== src/Recipe/Lists/Enums.antt =====
-- Values of enumerations in recipe-jsonld.normalizers.ts, and the enumerations themselves of
-- recipe-jsonld.schema.ts.
pub mod Again
mod Examples
use Prim.Native.Char.{Char, code}
use Prim.Native.String.{[], ◌∷◌}
use recipe_import_from_anyth.Base.{
  ℕ, ◌≡◌, ◌≢◌, refl, Bool, true, false, not, ◌||◌, ◌&&◌, String, ◌==◌, eq_iff, append, Option, none,
  some, List, [], ◌∷◌, eqb, if◌then◌else◌, is_empty, is_space, trim, collect, nonempty_list, unique,
  All, All-collect, All-unique, IsUnique, unique-IsUnique, arith, Option-cases, Bool-cases, inl,
  inr, leb, ◌-◌, ap, subst, ◌⊎◌, ◌↔◌, sym, is_some,
}
use mathlib.Core.List.{Memᴰ}
use mathlib.Core.Option.{some-injective}
use recipe_import_from_anyth.Value.{Value, str, arr}
use recipe_import_from_anyth.Recipe.Texts.{to_non_empty_string}
use recipe_import_from_anyth.Recipe.Lists.{normalize_string_list, unique_list}

abbrev pub difficulties : List String
difficulties = "EASY" ∷ "MEDIUM" ∷ "HARD" ∷ []

abbrev pub budgets : List String
budgets = "LOW" ∷ "MEDIUM" ∷ "HIGH" ∷ []

abbrev pub recipe_attributes : List String
recipe_attributes = "QUICK" ∷ "EASY" ∷ "HEALTHY" ∷ "VEGETARIAN" ∷ []

abbrev pub recipe_categories : List String
recipe_categories =
    "MAIN_COURSE" ∷ "APPETIZER" ∷ "SIDE_DISH" ∷ "DESSERT" ∷ "DRINK" ∷ "BREAKFAST" ∷ "SNACK" ∷ "SOUP"
    ∷ "SALAD" ∷ "SAUCE" ∷ []

-- `allowed.find((entry) => entry === candidate)`
find_entry : List String → String → Option String
find_entry [] candidate = none
find_entry (entry ∷ allowed) candidate =
    if entry == candidate then some entry else find_entry allowed candidate

abbrev is_gap : Char → Bool
is_gap c = is_space c || eqb (code c) b'-'

-- `s.replace(/[\s-]+/g, "_")`, with whether the last character was replaced
replace_gaps : Bool → String → String
replace_gaps in_gap [] = []
replace_gaps in_gap (c ∷ s) = elim (is_gap c) [
  | true ↦ let rest = replace_gaps true s in if in_gap then rest else append "_" rest
  | false ↦ append (c ∷ []) (replace_gaps false s)
]

module _ (upper : String → String) where
  -- `toUpperCase` is the parameter `upper`.
  pub normalize_enum_key : String → String
  normalize_enum_key value = replace_gaps false (upper (trim value))

  pub normalize_enum_value : {N : Type 0} → Value N → List String → Option String
  normalize_enum_value value allowed = elim (to_non_empty_string value) [
    | none ↦ none
    | some text ↦ find_entry allowed (normalize_enum_key text)
  ]

  pub normalize_enum_values : {N : Type 0} → Value N → List String → Option (List String)
  normalize_enum_values {N} value allowed = elim (normalize_string_list value) [
    | none ↦ none
    | some entries ↦ unique_list (
        nonempty_list (collect (λ entry. normalize_enum_value {N = N} (str entry) allowed) entries))
  ]

find_entry-mem :
    (allowed : List String) (candidate entry : String)
    → find_entry allowed candidate ≡ some entry
    → Memᴰ entry allowed × (entry ≡ candidate)
unfolding find_entry
find_entry-mem [] candidate entry e = cc
find_entry-mem (x ∷ allowed) candidate entry e = elim (Bool-cases (x == candidate)) [
  | inl same ↦ (Memᴰ.head (ground arith), ground (arith, eq_iff x candidate))
  | inr other ↦
      let (m, q) = find_entry-mem allowed candidate entry (rw (other, find_entry) at e) in
      (Memᴰ.tail m, q)
]

find_entry_complete :
    (entry : String) (allowed : List String)
    → Memᴰ entry allowed
    → find_entry allowed entry ≡ some entry
unfolding find_entry
find_entry_complete entry [] m = elim m [ ]
find_entry_complete entry (x ∷ allowed) (Memᴰ.head e) = ground (arith, eq_iff x entry)
find_entry_complete entry (x ∷ allowed) (Memᴰ.tail m) =
    ground (arith, eq_iff x entry, find_entry_complete entry allowed m)

-- Entries of the enumeration, none twice, and at least one.
pub record IsSelection (allowed xs : List String) : Type 0 where
  pub allowed_each : All (λ x. Memᴰ x allowed) xs
  pub once : IsUnique xs
  pub inhabited : xs ≢ []

unique_list-IsSelection :
    (allowed xs ys : List String)
    → All (λ x. Memᴰ x allowed) xs
    → unique_list (nonempty_list xs) ≡ some ys
    → IsSelection allowed ys
unfolding unique_list
unique_list-IsSelection allowed [] ys h e = cc
unique_list-IsSelection allowed (x ∷ xs) ys h e =
    subst (IsSelection allowed) (some-injective _ _ e) (record {
      allowed_each = All-unique (λ x. Memᴰ x allowed) (x ∷ xs) h;
      once = unique-IsUnique (x ∷ xs);
      inhabited = λ p. cc p;
    })

normalize_enum_value_sound :
    (upper : String → String) {N : Type 0} (value : Value N) (allowed : List String)
    (entry : String)
    → normalize_enum_value upper value allowed ≡ some entry
    → (text : String) × (to_non_empty_string value ≡ some text)
      × Memᴰ entry allowed
      × (entry ≡ normalize_enum_key upper text)
unfolding normalize_enum_value
normalize_enum_value_sound upper value allowed entry e =
    elim (Option-cases (to_non_empty_string value)) [
      | inl nothing ↦ absurd (ground arith)
      | inr (text, found) ↦
          let (m, q) =
            find_entry-mem allowed (normalize_enum_key upper text) entry
              (rw (found, normalize_enum_value) at e) in
          (text, found, m, q)
    ]

module _ (upper : String → String) {N : Type 0} (value : Value N) (allowed : List String) where
  -- A value is read as an entry of the enumeration exactly when it is a text whose trimmed form, in
  -- upper case and with each run of spaces and dashes replaced by "_", is that entry.
  pub normalize_enum_value_iff :
      (entry : String)
      → (normalize_enum_value upper value allowed ≡ some entry) ↔ (
          (text : String) × (to_non_empty_string value ≡ some text)
          × Memᴰ entry allowed
          × (entry ≡ normalize_enum_key upper text))
  unfolding normalize_enum_value
  normalize_enum_value_iff entry = (
    normalize_enum_value_sound upper value allowed entry,
    λ (text, found, m, q).
        rw (found, normalize_enum_value, ← q) (find_entry_complete entry allowed m),
  )

  -- A list of enumeration values that is read holds entries of the enumeration only, none of them
  -- twice, and at least one.
  pub normalize_enum_values-IsSelection :
      (xs : List String)
      → normalize_enum_values upper value allowed ≡ some xs
      → IsSelection allowed xs
  unfolding normalize_enum_values
  normalize_enum_values-IsSelection xs e = elim (Option-cases (normalize_string_list value)) [
    | inl nothing ↦ absurd (ground arith)
    | inr (entries, found) ↦
        unique_list-IsSelection allowed
          (collect (λ entry. normalize_enum_value upper {N = N} (str entry) allowed) entries) xs
          (All-collect (λ x. Memᴰ x allowed)
            (λ entry. normalize_enum_value upper {N = N} (str entry) allowed)
            (λ x y h. (normalize_enum_value_sound upper {N = N} (str x) allowed y h).2) entries)
          (rw (found, normalize_enum_values) at e)
  ]
