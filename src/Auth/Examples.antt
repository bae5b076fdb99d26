-- ===== src/Auth/Examples.antt =====
-- The choice of a strategy between one for tokens and one for development.
use recipe_import_from_anyth.Base.{
  ℕ, ◌*◌, ◌≡◌, refl, arith, Bool, true, false, String, ◌==◌, Option, none, some, List, [], ◌∷◌, eqb,
  ltb, trim,
}
use recipe_import_from_anyth.Effects.{ok}
use recipe_import_from_anyth.Ids.{UserId, new_user_id}
use recipe_import_from_anyth.Value.{Value, num, str, obj, field, end}
use recipe_import_from_anyth.Auth.Jwt.{Codec, JwtService, claims, create_token}
use recipe_import_from_anyth.Auth.Jwt.RoundTrip.{is_part}
use recipe_import_from_anyth.Auth.Strategies.{
  Headers, authenticate_request, authenticate_request-create_token,
}
use recipe_import_from_anyth.Auth.{AuthStrategy, insert, sort_strategies, choose}

abbrev alice : UserId
alice = record { value = "alice" }

abbrev token_strategy : AuthStrategy ℕ
token_strategy = record { priority = 100; supports = λ r. true; authenticate = λ r. ok alice }

abbrev dev_strategy : AuthStrategy ℕ
dev_strategy = record { priority = 1; supports = λ r. true; authenticate = λ r. ok alice }

abbrev strategies : List (AuthStrategy ℕ)
strategies = dev_strategy ∷ token_strategy ∷ []

chosen : choose 7 (sort_strategies strategies) ≡ some token_strategy
unfolding choose sort_strategies insert
chosen = refl

abbrev service : JwtService
service = record {
  secret = some "key";
  issuer = "recipe-import";
  audience = "recipe-import-api";
  expiration_minutes = 15;
}

-- The claims of the token that alice gets in the fifth second.
abbrev alice_claims : Value ℕ
alice_claims = obj (
    field "sub" (str "alice") (
      field "iss" (str "recipe-import")
        (field "aud" (str "recipe-import-api") (field "iat" (num 5) (field "exp" (num 905) end)))))

abbrev earlier_number : Value ℕ → ℕ → Bool
earlier_number (num n) ms = ltb (n * 1000) ms
earlier_number _ ms = false

abbrev codec : Codec
codec = record {
  Num = ℕ;
  of_nat = λ n. n;
  is_zero = λ n. eqb n 0;
  earlier = earlier_number;
  encode = λ value. "e30";
  decode = λ text. ok alice_claims;
  hmac = λ secret text. "c2ln";
}

abbrev bearer : Headers
bearer name = if_authorization (name == "authorization")
  where
    if_authorization : Bool → Option String
    if_authorization true = some "Bearer e30.e30.c2ln"
    if_authorization false = none

authenticate_request-create_token_example :
    authenticate_request codec service true 600000 bearer ≡ ok alice
unfolding is_part claims create_token new_user_id trim
authenticate_request-create_token_example =
    authenticate_request-create_token codec service (λ v. refl) (λ k t. refl) (λ n ms. refl) true
      alice "e30.e30.c2ln" 5000 600000 bearer refl refl (omega arith) refl refl
