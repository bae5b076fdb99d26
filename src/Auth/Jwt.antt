-- ===== src/Auth/Jwt.antt =====
-- src/infrastructure/jwt-service.ts: tokens that carry a user's id. Base64url of a JSON text, its
-- decoding, the HMAC and JavaScript's comparison with a number are parameters.
pub mod RoundTrip
use Prim.Native.Char.{Char, code}
use Prim.Native.String.{[], ◌∷◌}
use recipe_import_from_anyth.Base.{
  push, ℕ, ◌+◌, ◌*◌, ◌/◌, ◌≡◌, refl, sym, ap, ◌∙◌, Bool, true, false, not, ◌&&◌, String, ◌==◌,
  append, cons-append, nil-append, Option, none, some, List, eqb, ltb, if◌then◌else◌, is_empty,
  Bool-cases, inl, inr,
}
use mathlib.Core.List.{List, [], ◌∷◌}
use recipe_import_from_anyth.Effects.{Outcome, ok, thrown, error}
use recipe_import_from_anyth.Value.{
  Value, undefined, null, bool, num, str, arr, obj, field, end, get,
}

-- `JSON.parse(Buffer.from(text, "base64url").toString("utf8"))` is `decode`, and `encode` is the
-- other way; `hmac secret text` is the SHA-256 digest in base64url; `earlier value ms` is
-- `value < ms / 1000`; `is_zero` holds of the numbers that are falsy.
pub record Codec : Type 1 where
  pub Num : Type 0
  pub of_nat : ℕ → Num
  pub is_zero : Num → Bool
  pub earlier : Value Num → ℕ → Bool
  pub encode : Value Num → String
  pub decode : String → Outcome (Value Num)
  pub hmac : String → String → String

pub record JwtService : Type 0 where
  pub secret : Option String
  pub issuer : String
  pub audience : String
  pub expiration_minutes : ℕ

abbrev pub is_dot : Char → Bool
is_dot c = eqb (code c) b'.'

-- `token.split(".")`
pub split : String → List String
split [] = "" ∷ []
split (c ∷ s) = let rest = split s in if is_dot c then "" ∷ rest else push c rest

abbrev pub with_dot : String → String → String
with_dot a b = append a (append "." b)

-- A secret that is set and not empty.
abbrev pub given_secret : Option String → Option String
given_secret none = none
given_secret (some s) = if is_empty s then none else some s

module _ (C : Codec) where
  open C use {Num, of_nat, is_zero, earlier, encode, decode, hmac}

  pub is_truthy : Value Num → Bool
  is_truthy undefined = false
  is_truthy null = false
  is_truthy (bool b) = b
  is_truthy (num n) = not (is_zero n)
  is_truthy (str s) = not (is_empty s)
  is_truthy _ = true

  -- `value !== text`
  abbrev pub differs : Value Num → String → Bool
  differs (str s) text = not (s == text)
  differs _ text = true

  module _ (service : JwtService) where
    -- `payload.exp` of `null` throws a TypeError.
    pub check_claims : Value Num → ℕ → Outcome (Value Num)
    check_claims null now = thrown (error "Cannot read properties of null (reading 'exp')")
    check_claims payload now =
        let exp = get "exp" payload in
        let iss = get "iss" payload in
        let aud = get "aud" payload in
        if is_truthy exp && earlier exp now
        then thrown (error "Token expired")
        else (if is_truthy iss && differs iss service.issuer
            then thrown (error "Invalid token issuer")
            else (if is_truthy aud && differs aud service.audience
                then thrown (error "Invalid token audience")
                else ok payload))

    pub check_decoded : Outcome (Value Num) → ℕ → Outcome (Value Num)
    check_decoded (thrown f) now = thrown f
    check_decoded (ok payload) now = check_claims payload now

    pub verify_parts : String → List String → ℕ → Outcome (Value Num)
    verify_parts secret (header ∷ payload ∷ signature ∷ []) now =
        if signature == hmac secret (with_dot header payload)
        then check_decoded (decode payload) now
        else thrown (error "Invalid token signature")
    verify_parts secret parts now = thrown (error "Invalid token format")

    pub verify_with : Option String → String → ℕ → Outcome (Value Num)
    verify_with none token now = thrown (error "JWT_SECRET is required for JWT authentication")
    verify_with (some secret) token now = verify_parts secret (split token) now

    -- `now` is in milliseconds.
    pub verify_token : String → ℕ → Outcome (Value Num)
    verify_token token now = verify_with (given_secret service.secret) token now

    abbrev pub token_header : Value Num
    token_header = obj (field "alg" (str "HS256") (field "typ" (str "JWT") end))

    unfoldable pub claims : String → ℕ → Value Num
    claims user now = obj (
        field "sub" (str user) (
          field "iss" (str service.issuer) (
            field "aud" (str service.audience) (
              field "iat" (num (of_nat (now / 1000)))
                (field "exp" (num (of_nat (now / 1000 + service.expiration_minutes * 60))) end)))))

    unfoldable pub create_with : Option String → String → ℕ → Outcome String
    create_with none user now = thrown (error "JWT_SECRET is required for JWT token generation")
    create_with (some secret) user now =
        let signed = with_dot (encode token_header) (encode (claims user now)) in
        ok (with_dot signed (hmac secret signed))

    unfoldable pub create_token : String → ℕ → Outcome String
    unfolding create_with
    create_token user now = create_with (given_secret service.secret) user now
