-- ===== src/Recipe/Lists/Enums/Again.antt =====
-- Entries of the enumerations are read as they are.
use Prim.Native.Char.{code}
use recipe_import_from_anyth.Base.{
  ◌≡◌, refl, ap, sym, subst, ◌∙◌, Bool, true, false, not, ◌||◌, ◌&&◌, String, ◌==◌, eq_iff, none,
  some, List, [], ◌∷◌, eqb, leb, is_empty, trim, collect, All, arith, and-true,
}
use mathlib.Core.List.{Memᴰ}
use recipe_import_from_anyth.Value.{undefined, str, arr}
use recipe_import_from_anyth.Recipe.Texts.{to_non_empty_string, to_non_empty_string-tidy, IsTidy}
use recipe_import_from_anyth.Recipe.Lists.{
  text_items, IsTidyList, normalize_string_list-tidy, normalize_string_list-missing,
  unique_list_self,
}
use recipe_import_from_anyth.Recipe.Lists.Enums.{
  replace_gaps, normalize_enum_key, normalize_enum_value, normalize_enum_value_iff,
  normalize_enum_values, IsSelection,
}

-- a text of capital letters and underscores
pub is_capital : String → Bool
is_capital String.[] = true
is_capital (String.◌∷◌ c s) =
    (leb b'A' (code c) && leb (code c) b'Z' || eqb (code c) b'_') && is_capital s

-- whether a text is capital, trimmed, not empty and without gaps
abbrev is_entry : String → Bool
is_entry d = not (is_empty d) && is_capital d && trim d == d && replace_gaps false d == d

unfoldable pub are_entries : List String → Bool
unfolding is_capital replace_gaps
are_entries [] = true
are_entries (d ∷ ds) = is_entry d && are_entries ds

mem-is_entry :
    (d : String) (ds : List String) → are_entries ds ≡ true → Memᴰ d ds → is_entry d ≡ true
unfolding are_entries
mem-is_entry d [] h m = elim m [ ]
mem-is_entry d (x ∷ ds) h (Memᴰ.head e) =
    subst (λ t. is_entry t ≡ true) (sym e) (and-true (is_entry x) (are_entries ds) h).0
mem-is_entry d (x ∷ ds) h (Memᴰ.tail m) =
    mem-is_entry d ds (and-true (is_entry x) (are_entries ds) h).1 m

is_entry-parts :
    (d : String)
    → is_entry d ≡ true
    → (is_capital d ≡ true) × (trim d ≡ d) × (replace_gaps false d ≡ d)
is_entry-parts d h = (
  ground (arith),
  ground (arith, eq_iff (trim d) d),
  ground (arith, eq_iff (replace_gaps false d) d),
)

is_entry-IsTidy : (d : String) → is_entry d ≡ true → IsTidy d
is_entry-IsTidy String.[] h = cc
is_entry-IsTidy (String.◌∷◌ c s) h = record {
  trimmed = ground (arith, eq_iff (trim (String.◌∷◌ c s)) (String.◌∷◌ c s));
  inhabited = λ p. cc p;
}

module _ (upper : String → String) (capital : (s : String) → is_capital s ≡ true → upper s ≡ s)
    (N : Type 0) (allowed : List String) (entries : are_entries allowed ≡ true) where
  key-entry : (d : String) → is_entry d ≡ true → normalize_enum_key upper d ≡ d
  unfolding normalize_enum_key
  key-entry d h =
      let (capitals, trimmed, plain) = is_entry-parts d h in
      ap (λ t. replace_gaps false (upper t)) trimmed
      ∙ ap (replace_gaps false) (capital d capitals)
      ∙ plain

  pub enum_value-read :
      (d : String) → Memᴰ d allowed → normalize_enum_value upper {N = N} (str d) allowed ≡ some d
  enum_value-read d m =
      let entry = mem-is_entry d allowed entries m in
      (normalize_enum_value_iff upper {N = N} (str d) allowed d).1
        (d, to_non_empty_string-tidy N d (is_entry-IsTidy d entry), m, sym (key-entry d entry))

  collect-entries :
      (xs : List String)
      → All (λ x. Memᴰ x allowed) xs
      → collect (λ entry. normalize_enum_value upper {N = N} (str entry) allowed) xs ≡ xs
  collect-entries [] h = refl
  collect-entries (x ∷ xs) (m, h) =
      rw (enum_value-read x m) (ap (λ ys. x ∷ ys) (collect-entries xs h))

  selection-tidy : (xs : List String) → All (λ x. Memᴰ x allowed) xs → All IsTidy xs
  selection-tidy [] h = tt
  selection-tidy (x ∷ xs) (m, h) =
      (is_entry-IsTidy x (mem-is_entry x allowed entries m), selection-tidy xs h)

  -- A selection of entries is read as it is.
  pub enum_values-read :
      (xs : List String)
      → IsSelection allowed xs
      → normalize_enum_values upper {N = N} (arr (text_items xs)) allowed ≡ some xs
  unfolding normalize_enum_values
  enum_values-read xs h =
      let tidy : IsTidyList xs = record {
        tidy = selection-tidy xs h.allowed_each;
        once = h.once;
        inhabited = h.inhabited;
      } in
      rw
        (
          normalize_string_list-tidy N xs tidy,
          normalize_enum_values,
          collect-entries xs h.allowed_each,
        )
        (unique_list_self xs tidy)

module _ (upper : String → String) (N : Type 0) (allowed : List String) where
  pub enum_value-missing : normalize_enum_value upper {N = N} undefined allowed ≡ none
  unfolding normalize_enum_value to_non_empty_string
  enum_value-missing = refl

  pub enum_values-missing : normalize_enum_values upper {N = N} undefined allowed ≡ none
  unfolding normalize_enum_values
  enum_values-missing = rw (normalize_enum_values, normalize_string_list-missing N) refl
