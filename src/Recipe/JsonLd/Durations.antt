-- ===== src/Recipe/JsonLd/Durations.antt =====
-- `normalizeMinutes` of recipe-jsonld.normalizers.ts: minutes from a number, an ISO 8601 duration
-- or a text in hours and minutes.
pub mod Iso
pub mod Examples
use Prim.Native.Char.{Char, code}
use Prim.Native.String.{[], ◌∷◌}
use recipe_import_from_anyth.Base.{
  ℕ, ◌-◌, Bool, true, false, not, ◌||◌, ◌&&◌, String, Option, none, some, ◌or◌, eqb, leb,
  if◌then◌else◌, is_empty, is_space, trim,
}
use recipe_import_from_anyth.Value.{Value, num, str}
use recipe_import_from_anyth.Recipe.Numbers.{
  Floats, is_digit, span, parse_string_number, to_non_negative_integer,
}
use recipe_import_from_anyth.Recipe.JsonLd.Yield.{leading_number}

-- a letter that the patterns match without regard to case
abbrev is_letter : ℕ → Char → Bool
is_letter lower c = eqb (code c) lower || eqb (code c) (lower - 32)

-- `[a-z]` with the flag `i`
abbrev is_word : Char → Bool
is_word c = (leb b'a' (code c) && leb (code c) b'z') || (leb b'A' (code c) && leb (code c) b'Z')

-- what follows a letter at the head of a text
pub after_letter : ℕ → String → Option String
after_letter lower [] = none
after_letter lower (c ∷ s) = if is_letter lower c then some s else none

abbrev counted : String → String → Option String → Option String × String
counted s digits none = (none, s)
counted s digits (some rest) = if is_empty digits then (none, s) else (some digits, rest)

-- `(?:(\d+)X)?`: the digits, where the letter follows them, and the rest
pub count_of : ℕ → String → Option String × String
count_of lower s =
    let (digits, rest) = span is_digit s in counted s digits (after_letter lower rest)

abbrev all_matched :
    Option String
    → Option String × Option String × String
    → Option (Option String × Option String × Option String)
all_matched days (hours, minutes, rest) =
    if is_empty rest then some (days, hours, minutes) else none

abbrev time_part : String → Option String × Option String × String
time_part s =
    let (hours, rest) = count_of b'h' s in
    let (minutes, left) = count_of b'm' rest in (hours, minutes, left)

-- `(?:T(?:(\d+)H)?(?:(\d+)M)?)?$`
abbrev after_days :
    Option String → String → Option String → Option (Option String × Option String × Option String)
after_days days s none = all_matched days (none, none, s)
after_days days s (some time) = all_matched days (time_part time)

abbrev date_part : Option String → Option (Option String × Option String × Option String)
date_part none = none
date_part (some s) =
    let (days, rest) = count_of b'd' s in after_days days rest (after_letter b't' rest)

-- ISO_DURATION_PATTERN: its three groups
pub match_iso_duration : String → Option (Option String × Option String × Option String)
match_iso_duration s = date_part (after_letter b'p' s)

abbrev unit_rest : Option String → Option String
unit_rest none = none
unit_rest (some s) = let (letters, rest) = span is_word s in some rest

-- a number, white space, and a word that begins with a letter: the number and the rest
abbrev numbered : ℕ → Option (String × String) → Option (String × String)
numbered lower none = none
numbered lower (some (number, s)) =
    let (gap, rest) = span is_space s in
    elim (unit_rest (after_letter lower rest)) [ none ↦ none | some left ↦ some (number, left) ]

pub number_with_unit : ℕ → String → Option (String × String)
number_with_unit lower s = numbered lower (leading_number s)

-- MINUTE_DURATION_PATTERN: its group
abbrev whole_match : Option (String × String) → Option String
whole_match none = none
whole_match (some (number, rest)) = if is_empty rest then some number else none

pub match_minute_duration : String → Option String
match_minute_duration s = whole_match (number_with_unit b'm' s)

abbrev with_minutes : String → Option String → Option (String × Option String)
with_minutes hours none = none
with_minutes hours (some minutes) = some (hours, some minutes)

abbrev hours_match : Option (String × String) → Option (String × Option String)
hours_match none = none
hours_match (some (hours, s)) =
    let (gap, rest) = span is_space s in
    if is_empty rest then some (hours, none) else with_minutes hours (match_minute_duration rest)

-- HOUR_DURATION_PATTERN: its two groups
pub match_hour_duration : String → Option (String × Option String)
match_hour_duration s = hours_match (number_with_unit b'h' s)

module _ (F : Floats) where
  open F use {Num, to_number, add, multiply, round, of_index}

  abbrev number_or_0 : Option String → Num
  number_or_0 digits = to_number (digits or "0")

  iso_minutes : Option String × Option String × Option String → Num
  iso_minutes (days, hours, minutes) =
      add
        (add (multiply (multiply (number_or_0 days) (of_index 24)) (of_index 60))
          (multiply (number_or_0 hours) (of_index 60)))
        (number_or_0 minutes)

  hour_minutes : String × Option String → Num
  hour_minutes (hours, minutes) = round (
      add (multiply (parse_string_number F hours or of_index 0) (of_index 60))
        (parse_string_number F (minutes or "0") or of_index 0))

  abbrev rounded : Option Num → Option Num
  rounded none = none
  rounded (some x) = some (round x)

  abbrev minute_minutes : Option String → Option Num
  minute_minutes none = none
  minute_minutes (some minutes) = rounded (parse_string_number F minutes)

  abbrev by_hours : Option (String × Option String) → Option Num → Option Num
  by_hours (some groups) rest = some (hour_minutes groups)
  by_hours none rest = rest

  abbrev by_iso : Option (Option String × Option String × Option String) → Option Num → Option Num
  by_iso (some groups) rest = some (iso_minutes groups)
  by_iso none rest = rest

  pub text_minutes : String → Option Num
  text_minutes s =
      if is_empty s
      then none
      else by_iso (match_iso_duration s)
          (by_hours (match_hour_duration s) (minute_minutes (match_minute_duration s)))

  abbrev minutes_or_text : Option Num → Value Num → Option Num
  minutes_or_text (some minutes) value = some minutes
  minutes_or_text none (str s) = text_minutes (trim s)
  minutes_or_text none _ = none

  pub normalize_minutes : Value Num → Option Num
  normalize_minutes value = minutes_or_text (to_non_negative_integer F value) value
