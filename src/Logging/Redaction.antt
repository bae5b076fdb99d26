-- ===== src/Logging/Redaction.antt =====
-- `redactObject` of src/infrastructure/logger.ts.
use recipe_import_from_anyth.Base.{
  ◌≡◌, ◌⊎◌, inl, inr, refl, Bool, true, false, ◌||◌, ◌&&◌, String, ◌==◌, List, [], ◌∷◌,
  if◌then◌else◌,
}
use Prim.Native.String.{[], ◌∷◌}
use recipe_import_from_anyth.Value.{
  Value, undefined, null, bool, num, str, arr, obj, Items, nil, cons, Fields, end, field,
}

starts_with : String → String → Bool
starts_with [] s = true
starts_with (c ∷ t) [] = false
starts_with (c ∷ t) (d ∷ s) = (c ∷ []) == (d ∷ []) && starts_with t s

-- `text.includes(part)`
pub includes : String → String → Bool
unfolding starts_with
includes part [] = starts_with part []
includes part (c ∷ s) = starts_with part (c ∷ s) || includes part s

abbrev sensitive_keys : List String
sensitive_keys =
    "secret" ∷ "password" ∷ "token" ∷ "apiKey" ∷ "api_key" ∷ "privateKey" ∷ "private_key" ∷ "jwt"
    ∷ "authorization" ∷ "cookie" ∷ []

includes_any : List String → String → Bool
includes_any [] s = false
includes_any (part ∷ parts) s = includes part s || includes_any parts s

unfoldable pub is_sensitive : String → Bool
unfolding includes includes_any
is_sensitive lower_key = includes_any sensitive_keys lower_key

module _ {N : Type 0} (lower : String → String) where
  mutual
    pub redact_object : Value N → Value N
    redact_object (arr xs) = arr (redact_items xs)
    redact_object (obj fs) = obj (redact_fields fs)
    redact_object v = v

    pub redact_items : Items N → Items N
    redact_items nil = nil
    redact_items (cons x xs) = cons (redact_object x) (redact_items xs)

    pub redact_fields : Fields N → Fields N
    redact_fields end = end
    redact_fields (field key value fs) =
        let kept = redact_object value in
        field key (if is_sensitive (lower key) then str "[REDACTED]" else kept) (redact_fields fs)

-- whether a key, in small letters, names a secret
pub is_secret : String → Bool
is_secret key =
    includes "secret" key
    || (includes "password" key
        || (includes "token" key
            || (includes "apiKey" key
                || (includes "api_key" key
                    || (includes "privateKey" key
                        || (includes "private_key" key
                            || (includes "jwt" key
                                || (includes "authorization" key || (includes "cookie" key)))))))))

or_false : (b : Bool) → (b || false) ≡ b
or_false true = refl
or_false false = refl

is_sensitive-is_secret : (key : String) → is_sensitive key ≡ is_secret key
unfolding is_sensitive is_secret includes_any
is_sensitive-is_secret key = rw (or_false (includes "cookie" key)) refl

module _ {N : Type 0} (lower : String → String) where
  -- `r` is `v` with the mark in place of each value under a key that names a secret, at any depth,
  -- and with all else as it is in `v`.
  unfoldable mutual
    pub IsRedactionOf : Value N → Value N → Type 0
    IsRedactionOf (arr xs) r = (ys : Items N) × (r ≡ arr ys) × AreRedactionsOf xs ys
    IsRedactionOf (obj fs) r = (gs : Fields N) × (r ≡ obj gs) × AreFieldsOf fs gs
    IsRedactionOf v r = r ≡ v

    pub AreRedactionsOf : Items N → Items N → Type 0
    AreRedactionsOf nil ys = ys ≡ nil
    AreRedactionsOf (cons x xs) ys =
        (y : Value N) × (rest : Items N) × (ys ≡ cons y rest)
        × IsRedactionOf x y
        × AreRedactionsOf xs rest

    pub AreFieldsOf : Fields N → Fields N → Type 0
    AreFieldsOf end gs = gs ≡ end
    AreFieldsOf (field key value fs) gs =
        (r : Value N) × (rest : Fields N) × (gs ≡ field key r rest)
        × (is_secret (lower key) ≡ true → r ≡ str "[REDACTED]")
        × (is_secret (lower key) ≡ false → IsRedactionOf value r)
        × AreFieldsOf fs rest

  mutual
    unfolding redact_object IsRedactionOf

    object-IsRedactionOf : (v : Value N) → IsRedactionOf v (redact_object lower v)
    object-IsRedactionOf undefined = refl
    object-IsRedactionOf null = refl
    object-IsRedactionOf (bool b) = refl
    object-IsRedactionOf (num n) = refl
    object-IsRedactionOf (str s) = refl
    object-IsRedactionOf (arr xs) = (_, refl, redact_items-AreRedactionsOf xs)
    object-IsRedactionOf (obj fs) = (_, refl, redact_fields-AreFieldsOf fs)

    redact_items-AreRedactionsOf : (xs : Items N) → AreRedactionsOf xs (redact_items lower xs)
    redact_items-AreRedactionsOf nil = refl
    redact_items-AreRedactionsOf (cons x xs) =
        (_, _, refl, object-IsRedactionOf x, redact_items-AreRedactionsOf xs)

    redact_fields-AreFieldsOf : (fs : Fields N) → AreFieldsOf fs (redact_fields lower fs)
    redact_fields-AreFieldsOf end = refl
    redact_fields-AreFieldsOf (field key value fs) = (
      _,
      _,
      refl,
      λ h. rw (is_sensitive-is_secret (lower key)) (rw h refl),
      λ h. rw (is_sensitive-is_secret (lower key)) (rw h (object-IsRedactionOf value)),
      redact_fields-AreFieldsOf fs,
    )

  -- What is redacted is the value with the mark in place of what each key names whose small
  -- letters have "secret", "password", "token", "apiKey", "api_key", "privateKey", "private_key",
  -- "jwt", "authorization" or "cookie" in them, at any depth of objects and arrays, and with all
  -- else as it was.
  pub redact_object-IsRedactionOf : (v : Value N) → IsRedactionOf v (redact_object lower v)
  redact_object-IsRedactionOf v = object-IsRedactionOf v

  -- A property whose key is "apikey" or "privatekey" in small letters keeps its text, though the
  -- list of sensitive keys names both.
  pub redact_object-api_key :
      (key secret : String) (fs : Fields N)
      → (lower key ≡ "apikey") ⊎ (lower key ≡ "privatekey")
      → redact_object lower (obj (field key (str secret) fs))
        ≡ obj (field key (str secret) (redact_fields lower fs))
  unfolding redact_object is_sensitive
  redact_object-api_key key secret fs (inl e) = rw e refl
  redact_object-api_key key secret fs (inr e) = rw e refl
