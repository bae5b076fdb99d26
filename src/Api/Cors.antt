-- ===== src/Api/Cors.antt =====
-- src/api/plugins/cors.ts: which origins may call the service.
use Prim.Native.Char.{code}
use Prim.Native.String.{[], ◌∷◌}
use recipe_import_from_anyth.Base.{
  push, ◌≡◌, refl, Bool, true, false, not, String, ◌==◌, Option, none, some, List, eqb, is_empty,
  trim, is_space, map, filter_by, if◌then◌else◌,
}
use mathlib.Core.List.{List, [], ◌∷◌}
use recipe_import_from_anyth.Mistral.Settings.{Env}

abbrev default_allowed_origins : List String
default_allowed_origins = "http://localhost:3000" ∷ "http://127.0.0.1:3000" ∷ []

-- `value.split(",")`
split_commas : String → List String
split_commas [] = "" ∷ []
split_commas (c ∷ s) =
    let rest = split_commas s in if eqb (code c) b',' then "" ∷ rest else push c rest

abbrev or_default : List String → List String
or_default [] = default_allowed_origins
or_default (value ∷ values) = value ∷ values

split_comma_separated_values : String → List String
unfolding split_commas
split_comma_separated_values value =
    or_default (filter_by (λ item. not (is_empty item)) (map trim (split_commas value)))

allowed_origins : Option String → List String
allowed_origins none = default_allowed_origins
allowed_origins (some value) =
    if is_empty value then default_allowed_origins else split_comma_separated_values value

has : List String → String → Bool
has [] origin = false
has (allowed ∷ origins) origin = if allowed == origin then true else has origins origin

-- what `origin` of `getCorsOptions` calls back with
allows_origin : Env → Option String → Bool
unfolding has
allows_origin env none = false
allows_origin env (some origin) =
    let found = has (allowed_origins (env "CORS_ALLOWED_ORIGINS")) origin in
    if is_empty origin then false else found

listed_test :
    split_comma_separated_values "https://a.test, ,https://b.test"
    ≡ "https://a.test" ∷ "https://b.test" ∷ []
unfolding split_comma_separated_values trim is_space
listed_test = refl

blank_test : allows_origin (λ name. some " , ") (some "http://localhost:3000") ≡ true
unfolding allows_origin allowed_origins split_comma_separated_values trim is_space
blank_test = refl
