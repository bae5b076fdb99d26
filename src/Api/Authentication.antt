-- ===== src/Api/Authentication.antt =====
-- src/api/plugins/authentication.ts: the hook that authenticates a request before its handler. The
-- port's `authenticate` is an argument.
use recipe_import_from_anyth.Base.{String, append, Option, none, some, List, [], ◌∷◌}
use recipe_import_from_anyth.Base.Map.{Map, set}
use recipe_import_from_anyth.Effects.{Outcome, ok, thrown, api_error}
use recipe_import_from_anyth.Ids.{UserId}

-- The value of a header of Fastify's request.
pub data HeaderValue : Type 0 where
  text : String → HeaderValue
  texts : List String → HeaderValue
  missing : HeaderValue

-- `values.join(",")`
pub join_values : String → List String → String
join_values value [] = value
join_values value (next ∷ values) = append value (append "," (join_values next values))

abbrev keep_value : String → HeaderValue → Map String → Map String
keep_value key (text value) headers = set key value headers
keep_value key (texts []) headers = headers
keep_value key (texts (value ∷ values)) headers = set key (join_values value values) headers
keep_value key missing headers = headers

-- The entries so far are `headers`.
pub add_headers : List (String × HeaderValue) → Map String → Map String
add_headers [] headers = headers
add_headers ((key, value) ∷ entries) headers = add_headers entries (keep_value key value headers)

pub to_header_record : List (String × HeaderValue) → Map String
to_header_record entries = add_headers entries []

abbrev authenticated : Outcome UserId → Outcome UserId
authenticated (ok user) = ok user
authenticated (thrown f) = thrown (api_error 401 "UNAUTHORIZED")

-- the user that the hook sets in the request
unfoldable pub auth_pre_handler :
    (Map String → Outcome UserId) → List (String × HeaderValue) → Outcome UserId
auth_pre_handler authenticate entries = authenticated (authenticate (to_header_record entries))

unfoldable pub require_user_id : Option UserId → Outcome UserId
require_user_id none = thrown (api_error 401 "UNAUTHORIZED")
require_user_id (some user) = ok user
