-- ===== src/Recipe/Texts.antt =====
-- `toNonEmptyString` of recipe-jsonld.normalizers.ts.
use recipe_import_from_anyth.Base.{
  ◌≡◌, ◌≢◌, refl, subst, false, String, Option, none, some, if◌then◌else◌, is_empty, trim,
  trim_idem, OnSome, OnSome-intro,
}
use mathlib.Core.Option.{some-injective}
use recipe_import_from_anyth.Value.{Value, str, get}

abbrev pub nonempty_text : String → Option String
nonempty_text s = if is_empty s then none else some s

unfoldable pub to_non_empty_string : {N : Type 0} → Value N → Option String
to_non_empty_string (str value) = nonempty_text (trim value)
to_non_empty_string _ = none

abbrev pub text_at : {N : Type 0} → String → Value N → Option String
text_at key value = to_non_empty_string (get key value)

-- A text without white space at its ends, and not empty.
pub record IsTidy (s : String) : Type 0 where
  pub trimmed : trim s ≡ s
  pub inhabited : s ≢ ""

nonempty_text-IsTidy : (s t : String) → trim s ≡ s → nonempty_text s ≡ some t → IsTidy t
nonempty_text-IsTidy String.[] t h e = cc
nonempty_text-IsTidy (String.◌∷◌ c s) t h e =
    subst IsTidy (some-injective _ _ e) (record { trimmed = h; inhabited = λ p. cc p })

-- What is read is tidy.
pub to_non_empty_string-IsTidy :
    {N : Type 0} (v : Value N) (t : String) → to_non_empty_string v ≡ some t → IsTidy t
unfolding to_non_empty_string
to_non_empty_string-IsTidy (str s) t e = nonempty_text-IsTidy (trim s) t (trim_idem s) e
to_non_empty_string-IsTidy _ t e = cc

pub text_at-IsTidy :
    {N : Type 0} (key : String) (value : Value N) → OnSome IsTidy (text_at key value)
text_at-IsTidy key value = OnSome-intro _ (to_non_empty_string-IsTidy (get key value))

pub ne-empty : (s : String) → is_empty s ≡ false → s ≢ ""
ne-empty String.[] h = cc
ne-empty (String.◌∷◌ c s) h = λ p. cc p

nonempty_text_self : (t : String) → t ≢ "" → nonempty_text t ≡ some t
nonempty_text_self String.[] h = absurd (h refl)
nonempty_text_self (String.◌∷◌ c s) h = refl

-- A tidy text is read as it is.
pub to_non_empty_string-tidy :
    (N : Type 0) (t : String) → IsTidy t → to_non_empty_string {N = N} (str t) ≡ some t
unfolding to_non_empty_string
to_non_empty_string-tidy N t h = rw (h.trimmed) (nonempty_text_self t h.inhabited)
