-- ===== src/Auth/Jwt/RoundTrip.antt =====
-- Tokens that are made, and then verified.
use Prim.Native.Char.{Char}
use Prim.Native.String.{[], ◌∷◌}
use recipe_import_from_anyth.Base.{
  ℕ, ◌+◌, ◌*◌, ◌/◌, ◌≤◌, ◌≡◌, refl, ap, ◌∙◌, Bool, true, false, not, ◌&&◌, String, ◌==◌, append,
  cons-append, nil-append, text_append_assoc, Option, none, some, [], ◌∷◌, ltb, is_empty, eq_refl,
  arith,
}
use recipe_import_from_anyth.Effects.{ok}
use recipe_import_from_anyth.Value.{Value, num, get, lookup}
use recipe_import_from_anyth.Auth.Jwt.{
  Codec, JwtService, is_dot, split, with_dot, given_secret, is_truthy, check_claims, check_decoded,
  verify_parts, verify_with, verify_token, token_header, claims, create_with, create_token,
}

-- A text without a dot.
unfoldable pub is_part : String → Bool
is_part [] = true
is_part (c ∷ s) = not (is_dot c) && is_part s

not-true : (a b : Bool) → not a && b ≡ true → (a ≡ false) × (b ≡ true)
not-true a b h = ground arith

split-part : (s : String) → is_part s ≡ true → split s ≡ s ∷ []
unfolding split is_part
split-part [] h = refl
split-part (c ∷ s) h =
    let (plain, rest) = not-true (is_dot c) (is_part s) h in rw (plain, split-part s rest) refl

split-head : (c : Char) (t : String) → is_dot c ≡ true → split (append (c ∷ []) t) ≡ "" ∷ split t
unfolding split
split-head c t h = rw (cons-append c [] t, nil-append t, h) refl

split-dot : (t : String) → split (append "." t) ≡ "" ∷ split t
split-dot t = split-head _ t refl

split-with_dot : (s t : String) → is_part s ≡ true → split (with_dot s t) ≡ s ∷ split t
unfolding split is_part
split-with_dot [] t h = rw (nil-append (append "." t)) (split-dot t)
split-with_dot (c ∷ s) t h =
    let (plain, rest) = not-true (is_dot c) (is_part s) h in
    rw (cons-append c s (append "." t), plain, split-with_dot s t rest) refl

split-token :
    (h p g : String)
    → is_part h ≡ true
    → is_part p ≡ true
    → is_part g ≡ true
    → split (with_dot (with_dot h p) g) ≡ h ∷ p ∷ g ∷ []
split-token h p g a b c =
    let dots : with_dot (with_dot h p) g ≡ with_dot h (with_dot p g) = simp text_append_assoc in
    ap split dots
    ∙ split-with_dot h (with_dot p g) a
    ∙ ap (λ xs. h ∷ xs) (split-with_dot p g b ∙ ap (λ xs. p ∷ xs) (split-part g c))

not_other : (s : String) (b : Bool) → b && not (s == s) ≡ false
not_other s b = ground (arith, eq_refl s)

module _ (C : Codec) (service : JwtService)
    -- Base64url has no dots.
    (encode-part : (v : Value C.Num) → is_part (C.encode v) ≡ true)
    (hmac-part : (k t : String) → is_part (C.hmac k t) ≡ true)
    -- A whole number is compared as it is.
    (earlier-num : (n ms : ℕ) → C.earlier (num (C.of_nat n)) ms ≡ ltb (n * 1000) ms) where
  not_expired :
      (z : Bool) (n later : ℕ)
      → later ≤ n * 1000
      → not z && C.earlier (num (C.of_nat n)) later ≡ false
  not_expired z n later h = ground (arith, earlier-num n later, h)

  check_claims-claims :
      (user : String) (now later : ℕ)
      → later ≤ (now / 1000 + service.expiration_minutes * 60) * 1000
      → check_claims C service (claims C service user now) later ≡ ok (claims C service user now)
  unfolding check_claims claims get lookup is_truthy
  check_claims-claims user now later h =
      let n = now / 1000 + service.expiration_minutes * 60 in
      rw
        (
          not_expired (C.is_zero (C.of_nat n)) n later h,
          not_other service.issuer (not (is_empty service.issuer)),
          not_other service.audience (not (is_empty service.audience)),
        )
        refl

  verify_with-create_with :
      (secret : Option String) (user token : String) (now later : ℕ)
      → C.decode (C.encode (claims C service user now)) ≡ ok (claims C service user now)
      → create_with C service secret user now ≡ ok token
      → later ≤ (now / 1000 + service.expiration_minutes * 60) * 1000
      → verify_with C service secret token later ≡ ok (claims C service user now)
  unfolding create_with verify_with verify_parts check_decoded
  verify_with-create_with none user token now later d e h = cc e
  verify_with-create_with (some secret) user token now later d e h =
      let head = C.encode (token_header C service) in
      let body = C.encode (claims C service user now) in
      let signature = C.hmac secret (with_dot head body) in
      let same : token ≡ with_dot (with_dot head body) signature = cc e in
      rw
        (
          same,
          split-token head body signature (encode-part _) (encode-part _) (hmac-part _ _),
          verify_parts,
          eq_refl signature,
          d,
        )
        (check_claims-claims user now later h)

  -- A token whose claims are read back as they are is taken as long as it lives, and gives them.
  pub verify_token-create_token :
      (user token : String) (now later : ℕ)
      → C.decode (C.encode (claims C service user now)) ≡ ok (claims C service user now)
      → create_token C service user now ≡ ok token
      → later ≤ (now / 1000 + service.expiration_minutes * 60) * 1000
      → verify_token C service token later ≡ ok (claims C service user now)
  unfolding create_token verify_token
  verify_token-create_token user token now later d e h =
      verify_with-create_with (given_secret service.secret) user token now later d e h
