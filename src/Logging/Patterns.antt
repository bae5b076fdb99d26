-- ===== src/Logging/Patterns.antt =====
-- SENSITIVE_PATTERNS and `redactSensitive` of src/infrastructure/logger.ts. A pattern is a list of
-- atoms. None of the patterns ever has to give back what an atom took, since no atom takes what the
-- next one begins with, so matching goes straight through.
use Prim.Native.Char.{Char, code}
use Prim.Native.String.{[], ◌∷◌}
use mathlib.Core.List.{[], ◌∷◌, ◌++◌}
use recipe_import_from_anyth.Base.{
  ℕ, zero, suc, ◌+◌, ◌-◌, Bool, not, ◌||◌, ◌&&◌, String, append, Option, none, some, List, leb, eqb,
  is_space, if◌then◌else◌,
}

pub data Atom : Type 0 where
  -- one character, `x?`, `x*` and `x+`
  single optional star plus : (Char → Bool) → Atom

abbrev pub Pattern : Type 0
Pattern = List Atom

-- the longest run of characters of a class: how many, and the rest
abbrev count_one : ℕ × String → ℕ × String
count_one (n, s) = (suc n, s)

pub run : (Char → Bool) → String → ℕ × String
run p [] = (0, [])
run p (c ∷ s) = if p c then count_one (run p s) else (0, c ∷ s)

abbrev drop_one : (Char → Bool) → String → ℕ × String
drop_one p [] = (0, [])
drop_one p (c ∷ s) = if p c then (1, s) else (0, c ∷ s)

abbrev add_to : ℕ → Option ℕ → Option ℕ
add_to n none = none
add_to n (some m) = some (n + m)

-- how many characters the pattern matches at the head of a text
pub match_pattern : Pattern → String → Option ℕ
unfolding run
match_pattern [] s = some 0
match_pattern (single p ∷ atoms) [] = none
match_pattern (single p ∷ atoms) (c ∷ s) =
    let rest = match_pattern atoms s in if p c then add_to 1 rest else none
match_pattern (optional p ∷ atoms) s =
    let (n, rest) = drop_one p s in add_to n (match_pattern atoms rest)
match_pattern (star p ∷ atoms) s = let (n, rest) = run p s in add_to n (match_pattern atoms rest)
match_pattern (plus p ∷ atoms) s =
    let (n, rest) = run p s in
    let found = add_to n (match_pattern atoms rest) in if eqb n 0 then none else found

abbrev redacted : String
redacted = "[REDACTED]"

-- What is left of a text of which `n` characters are still those of the last match.
pub replace_from : Pattern → ℕ → String → String
unfolding match_pattern
replace_from pattern n [] = []
replace_from pattern (suc n) (c ∷ s) = replace_from pattern n s
replace_from pattern zero (c ∷ s) = elim (match_pattern pattern (c ∷ s)) [
  | none ↦ c ∷ replace_from pattern 0 s
  | some n ↦ append redacted (replace_from pattern (n - 1) s)
]

-- `text.replace(pattern, "[REDACTED]")` with the flag `g`
unfoldable pub replace_all : Pattern → String → String
unfolding replace_from
replace_all pattern s = replace_from pattern 0 s

abbrev is_char : ℕ → Char → Bool
is_char k c = eqb (code c) k

-- a letter in either case, as the flag `i` matches it
abbrev any_case : ℕ → Char → Bool
any_case k c = eqb (code c) k || eqb (code c) (k - 32)

abbrev letter : ℕ → Atom
letter k = single (any_case k)

-- The atoms of a word of small letters and underscores, without regard to case.
abbrev word : String → Pattern
word [] = []
word (c ∷ s) = (if eqb (code c) b'_' then single (is_char b'_') else letter (code c)) ∷ word s

-- `["']`
abbrev is_quote : Char → Bool
is_quote c = is_char b'"' c || is_char b'\'' c

-- `[:=]`
abbrev is_sign : Char → Bool
is_sign c = is_char b':' c || is_char b'=' c

-- `[^"'\s,}]`
abbrev pub is_value : Char → Bool
is_value c = not (is_quote c || is_space c || is_char b',' c || is_char b'}' c)

-- `[_-]`
abbrev is_joint : Char → Bool
is_joint c = is_char b'_' c || is_char b'-' c

abbrev in_range : ℕ → ℕ → Char → Bool
in_range a b c = leb a (code c) && leb (code c) b

abbrev is_alphanumeric : Char → Bool
is_alphanumeric c = in_range b'a' b'z' c || in_range b'A' b'Z' c || in_range b'0' b'9' c

-- `\s*[:=]\s*["']?([^"'\s,}]+)["']?`
abbrev assigned : Pattern
assigned =
    star is_space
    ∷ single is_sign
    ∷ star is_space
    ∷ optional is_quote
    ∷ plus is_value
    ∷ optional is_quote
    ∷ []

-- `[a-z0-9\-._~+/]` with the flag `i`
abbrev is_bearer : Char → Bool
is_bearer c =
    is_alphanumeric c
    || is_char b'-' c
    || is_char b'.' c
    || is_char b'_' c
    || is_char b'~' c
    || is_char b'+' c
    || is_char b'/' c

-- `[a-zA-Z0-9_-]+`
abbrev part : Atom
part = plus (λ c. is_alphanumeric c || is_joint c)

abbrev authorization_header : Pattern
authorization_header =
    word "authorization"
    ++ star is_space
      ∷ single (is_char b':')
      ∷ star is_space
      ∷ (word "bearer" ++ plus is_space ∷ plus is_bearer ∷ star (is_char b'=') ∷ [])

abbrev jwt_token : Pattern
jwt_token =
    single (is_char b'e')
    ∷ single (is_char b'y')
    ∷ single (is_char b'J')
    ∷ part
    ∷ single (is_char b'.')
    ∷ part
    ∷ single (is_char b'.')
    ∷ part
    ∷ []

abbrev pub sensitive_patterns : List Pattern
sensitive_patterns =
    (word "secret" ++ assigned)
    ∷ (word "password" ++ assigned)
    ∷ (word "token" ++ assigned)
    ∷ (word "api" ++ optional is_joint ∷ (word "key" ++ assigned))
    ∷ (word "private" ++ optional is_joint ∷ (word "key" ++ assigned))
    ∷ authorization_header
    ∷ jwt_token
    ∷ (word "jwt_secret" ++ assigned)
    ∷ (word "api_key" ++ assigned)
    ∷ (word "database_url" ++ assigned)
    ∷ (word "redis_url" ++ assigned)
    ∷ []

pub redact_all : List Pattern → String → String
unfolding replace_all
redact_all [] s = s
redact_all (pattern ∷ patterns) s = redact_all patterns (replace_all pattern s)

unfoldable pub redact_sensitive : String → String
unfolding redact_all
redact_sensitive message = redact_all sensitive_patterns message
