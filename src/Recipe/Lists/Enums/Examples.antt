-- ===== src/Recipe/Lists/Enums/Examples.antt =====
-- The theorems of the lists of texts and of enumeration values, at small lists.
use recipe_import_from_anyth.Base.{◌≡◌, refl, ℕ, String, some, List, [], ◌∷◌, trim, is_space}
use recipe_import_from_anyth.Value.{Value, arr, nil, cons, str}
use recipe_import_from_anyth.Recipe.Texts.{to_non_empty_string}
use recipe_import_from_anyth.Recipe.Lists.{
  normalize_string_list, trimmed_pieces, split_list, split_from, unique_list,
  normalize_string_array,
}
use recipe_import_from_anyth.Recipe.Lists.Enums.{
  recipe_categories, normalize_enum_key, normalize_enum_value, normalize_enum_values, find_entry,
  replace_gaps,
}

abbrev same : String → String
same s = s

abbrev keywords : Value ℕ
keywords = str "soup, warm;soup"

abbrev keyword_list : List String
keyword_list = "soup" ∷ "warm" ∷ []

keywords_read : normalize_string_list keywords ≡ some keyword_list
unfolding normalize_string_list to_non_empty_string trim trimmed_pieces split_list unique_list
    split_from is_space
keywords_read = refl

abbrev categories : Value ℕ
categories = arr (cons (str "SOUP") (cons (str "STEW") (cons (str "SOUP") nil)))

categories_read : normalize_enum_values same categories recipe_categories ≡ some ("SOUP" ∷ [])
unfolding normalize_enum_values normalize_string_list normalize_string_array to_non_empty_string
    trim normalize_enum_value normalize_enum_key replace_gaps find_entry unique_list is_space
categories_read = refl
