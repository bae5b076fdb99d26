-- ===== src/Logging/Examples.antt =====
-- Messages and objects with secrets.
use recipe_import_from_anyth.Base.{ℕ, ◌≡◌, inl, refl, is_space, String, ◌==◌, if◌then◌else◌}
use recipe_import_from_anyth.Value.{Value, obj, field, end, str, arr, cons, nil}
use recipe_import_from_anyth.Logging.Redaction.{
  redact_object, redact_fields, IsRedactionOf, redact_object-IsRedactionOf, redact_object-api_key,
}
use recipe_import_from_anyth.Logging.Patterns.{redact_sensitive, replace_all}

password_test :
    redact_sensitive "login password = 'hunter2', user ann" ≡ "login [REDACTED], user ann"
unfolding redact_sensitive replace_all is_space
password_test = refl

bearer_test : redact_sensitive "Authorization: Bearer abc.def== done" ≡ "[REDACTED] done"
unfolding redact_sensitive replace_all is_space
bearer_test = refl

-- The quote that JSON puts after a key keeps the pattern from matching.
quoted_test : redact_sensitive "{\"password\":\"hunter2\"}" ≡ "{\"password\":\"hunter2\"}"
unfolding redact_sensitive replace_all is_space
quoted_test = refl

abbrev lower_of : String → String
lower_of s = if s == "apiKey" then "apikey" else s

abbrev context : Value ℕ
context = obj (field "userTokens" (arr (cons (obj (field "jwt" (str "eyJ") end)) nil)) end)

redact_object-IsRedactionOf_example :
    IsRedactionOf lower_of context (redact_object lower_of context)
redact_object-IsRedactionOf_example = redact_object-IsRedactionOf lower_of context

redact_object-api_key_example :
    redact_object {N = ℕ} lower_of (obj (field "apiKey" (str "sk-1") end))
    ≡ obj (field "apiKey" (str "sk-1") (redact_fields lower_of end))
redact_object-api_key_example = redact_object-api_key lower_of "apiKey" "sk-1" end (inl refl)
