-- ===== src/Auth/Strategies.antt =====
-- src/infrastructure/auth/strategies and strategy-auth-port.ts: who a request comes from, by a
-- token or, outside production, by a header; and src/api/plugins/authentication.ts.
use Prim.Native.Char.{code}
use Prim.Native.String.{[], ◌∷◌}
use recipe_import_from_anyth.Base.{
  ℕ, ◌+◌, ◌*◌, ◌/◌, ◌≤◌, ◌≡◌, refl, ap, ◌∙◌, Bool, true, false, not, ◌&&◌, String, append,
  cons-append, nil-append, Option, none, some, is_some, [], ◌∷◌, eqb, ltb, if◌then◌else◌, is_empty,
  trim, arith,
}
use recipe_import_from_anyth.Effects.{Outcome, ok, thrown, error}
use recipe_import_from_anyth.Ids.{UserId, new_user_id}
use recipe_import_from_anyth.Value.{Value, num, get, as_string, lookup}
use recipe_import_from_anyth.Auth.{
  AuthStrategy, insert, sort_strategies, choose, authenticate_by, authenticate,
}
use recipe_import_from_anyth.Auth.Jwt.{Codec, JwtService, verify_token, create_token, claims}
use recipe_import_from_anyth.Auth.Jwt.RoundTrip.{is_part, verify_token-create_token}

-- `request.headers`, by lower-case names
abbrev pub Headers : Type 0
Headers = String → Option String

-- what follows a prefix, where the text starts with it
pub strip_prefix : String → String → Option String
strip_prefix [] s = some s
strip_prefix (p ∷ prefix) [] = none
strip_prefix (p ∷ prefix) (c ∷ s) =
    let rest = strip_prefix prefix s in if eqb (code p) (code c) then rest else none

abbrev bearer_token : Option String → Option String
bearer_token none = none
bearer_token (some header) = strip_prefix "Bearer " header

user_of : Option UserId → Outcome UserId
user_of none = thrown (error "UserId cannot be empty")
user_of (some user) = ok user

-- `new UserId(payload.sub)`, which throws where that is no text
pub user_of_text : Option String → Outcome UserId
user_of_text none = thrown (error "UserId cannot be empty")
user_of_text (some sub) = user_of (new_user_id sub)

module _ (C : Codec) (service : JwtService) (now : ℕ) where
  user_of_claims : Outcome (Value C.Num) → Outcome UserId
  user_of_claims (thrown f) = thrown f
  user_of_claims (ok payload) = user_of_text (as_string (get "sub" payload))

  by_token : Option String → Outcome UserId
  by_token none = thrown (error "Missing or invalid Authorization header")
  by_token (some token) = user_of_claims (verify_token C service token now)

  pub jwt_auth_strategy : AuthStrategy Headers
  jwt_auth_strategy = record {
    priority = 100;
    supports = λ headers. is_some (bearer_token (headers "authorization"));
    authenticate = λ headers. by_token (bearer_token (headers "authorization"));
  }

has_text : Option String → Bool
has_text none = false
has_text (some s) = not (is_empty (trim s))

by_header : Option String → Outcome UserId
by_header none = thrown (error "Missing x-user-id header in dev mode")
by_header (some user) =
    if is_empty user
    then thrown (error "Missing x-user-id header in dev mode")
    else user_of_text (some user)

pub dev_auth_strategy : Bool → AuthStrategy Headers
dev_auth_strategy is_production = record {
  priority = 10;
  supports = λ headers. not is_production && has_text (headers "x-user-id");
  authenticate = λ headers.
      if is_production
      then thrown (error "Dev authentication is not allowed in production")
      else by_header (headers "x-user-id");
}

module _ (C : Codec) (service : JwtService) where
  -- `StrategyAuthPort.authenticate`
  pub authenticate_request : Bool → ℕ → Headers → Outcome UserId
  authenticate_request is_production now headers =
      authenticate headers
        (sort_strategies (jwt_auth_strategy C service now ∷ dev_auth_strategy is_production ∷ []))

eqb_same : (n : ℕ) → eqb n n ≡ true
eqb_same n = ground arith

-- A request with a bearer token is authenticated by that token.
authenticate_request-bearer :
    (C : Codec) (service : JwtService) (is_production : Bool) (now : ℕ) (headers : Headers)
    (token : String)
    → bearer_token (headers "authorization") ≡ some token
    → authenticate_request C service is_production now headers ≡ by_token C service now (some token)
unfolding authenticate_request authenticate sort_strategies insert choose authenticate_by
    jwt_auth_strategy dev_auth_strategy
authenticate_request-bearer C service is_production now headers token e =
    rw (e, is_some) (ap (by_token C service now) e)

strip_prefix-append : (p s : String) → strip_prefix p (append p s) ≡ some s
unfolding strip_prefix
strip_prefix-append [] s = rw (nil-append s) refl
strip_prefix-append (c ∷ p) s = rw (cons-append c p s) (
    ap (λ b. if b then strip_prefix p (append p s) else none) (eqb_same (code c))
    ∙ strip_prefix-append p s)

module _ (C : Codec) (service : JwtService)
    -- Base64url has no dots.
    (encode-part : (v : Value C.Num) → is_part (C.encode v) ≡ true)
    (hmac-part : (k t : String) → is_part (C.hmac k t) ≡ true)
    -- A whole number is compared as it is.
    (earlier-num : (n ms : ℕ) → C.earlier (num (C.of_nat n)) ms ≡ ltb (n * 1000) ms) where
  -- Where the text of a token's claims is read back as they are, signatures and claims are encoded
  -- without dots and whole numbers are compared as they are: the token that is created for a user,
  -- as a request's bearer token, authenticates that user until it expires, in production or not,
  -- unless the user's id is blank.
  pub authenticate_request-create_token :
      (is_production : Bool) (user : UserId) (token : String) (now later : ℕ) (headers : Headers)
      → C.decode (C.encode (claims C service user.value now)) ≡ ok (claims C service user.value now)
      → create_token C service user.value now ≡ ok token
      → later ≤ (now / 1000 + service.expiration_minutes * 60) * 1000
      → headers "authorization" ≡ some (append "Bearer " token)
      → new_user_id user.value ≡ some user
      → authenticate_request C service is_production later headers ≡ ok user
  unfolding by_token user_of_claims user_of_text user_of claims get lookup
  authenticate_request-create_token is_production user token now later headers read_back made live
        sent known =
      let bearer : bearer_token (headers "authorization") ≡ some token =
        ap bearer_token sent ∙ strip_prefix-append "Bearer " token in
      authenticate_request-bearer C service is_production later headers token bearer
      ∙ ap (user_of_claims C service later) (
          verify_token-create_token C service encode-part hmac-part earlier-num user.value token now
            later read_back made live)
      ∙ ap user_of known
