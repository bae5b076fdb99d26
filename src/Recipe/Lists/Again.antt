-- ===== src/Recipe/Lists/Again.antt =====
-- An image that is read again is as it was.
use recipe_import_from_anyth.Base.{
  ◌≡◌, refl, ap, String, Option, none, some, List, OnSome, OnSome-intro,
}
use recipe_import_from_anyth.Value.{Value, undefined, str, arr}
use recipe_import_from_anyth.Recipe.Texts.{
  to_non_empty_string, to_non_empty_string-IsTidy, to_non_empty_string-tidy, IsTidy,
}
use recipe_import_from_anyth.Recipe.Lists.{
  Image, one, many, image_of, text_items, normalize_image, normalize_string_array,
  normalize_string_array-IsTidyList, normalize_string_array-tidy, IsTidyList,
}

module _ (N : Type 0) where
  abbrev pub image_value : Image → Value N
  image_value (one s) = str s
  image_value (many xs) = arr (text_items xs)

  image_of-read :
      (single : Option String) (several : Option (List String))
      → OnSome IsTidy single
      → OnSome IsTidyList several
      → OnSome (λ i. normalize_image (image_value i) ≡ some i) (image_of single several)
  unfolding normalize_image
  image_of-read (some s) several h k = rw (to_non_empty_string-tidy N s h) refl
  image_of-read none (some xs) h k =
      unfold to_non_empty_string in ap (image_of none) (normalize_string_array-tidy N xs k)
  image_of-read none none h k = tt

  -- An image that is read, one text or several, is read again as it is.
  pub image-read :
      (v : Value N) → OnSome (λ i. normalize_image (image_value i) ≡ some i) (normalize_image v)
  unfolding normalize_image
  image-read v =
      image_of-read _ _ (OnSome-intro _ (to_non_empty_string-IsTidy v))
        (OnSome-intro _ (normalize_string_array-IsTidyList v))

  pub image-missing : normalize_image {N = N} undefined ≡ none
  unfolding normalize_image normalize_string_array to_non_empty_string
  image-missing = refl
