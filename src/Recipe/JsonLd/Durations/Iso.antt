-- ===== src/Recipe/JsonLd/Durations/Iso.antt =====
-- The ISO 8601 durations of hours and minutes.
use Prim.Native.Char.{Char}
use Prim.Native.String.{[], ◌∷◌}
use recipe_import_from_anyth.Base.{
  sym, subst, trim, is_space, IsInked, cons-IsInked, append-IsInked, trim-IsInked, letter-IsInked,
  ℕ, ◌≡◌, refl, ap, ◌∙◌, Bool, true, false, not, ◌&&◌, String, append, cons-append, nil-append,
  none, some, is_empty, and-true,
}
use recipe_import_from_anyth.Value.{str}
use recipe_import_from_anyth.Recipe.Numbers.{Floats, is_digit, span, to_non_negative_integer}
use recipe_import_from_anyth.Recipe.Numbers.Words.{to_non_negative_integer-word}
use recipe_import_from_anyth.Recipe.JsonLd.Durations.{
  is_letter, after_letter, count_of, all_matched, time_part, match_iso_duration, iso_minutes,
  text_minutes, normalize_minutes,
}

-- a text of digits
unfoldable pub are_digits : String → Bool
are_digits [] = true
are_digits (c ∷ s) = is_digit c && are_digits s

-- a text of one digit or more
unfoldable pub is_count : String → Bool
is_count s = not (is_empty s) && are_digits s

span-digits :
    (s t : String) (c : Char)
    → are_digits s ≡ true
    → is_digit c ≡ false
    → span is_digit (append s (c ∷ t)) ≡ (s, c ∷ t)
unfolding span are_digits
span-digits [] t c h n = rw (nil-append (c ∷ t), n) refl
span-digits (d ∷ s) t c h n =
    let (digit, rest) = and-true (is_digit d) (are_digits s) h in
    rw (cons-append d s (c ∷ t), digit, span-digits s t c rest n) refl

count_of-digits :
    (lower : ℕ) (s t : String) (c : Char)
    → is_count s ≡ true
    → is_digit c ≡ false
    → is_letter lower c ≡ true
    → count_of lower (append s (c ∷ t)) ≡ (some s, t)
unfolding count_of after_letter is_count
count_of-digits lower [] t c h n l = cc
count_of-digits lower (d ∷ s) t c h n l = rw (span-digits (d ∷ s) t c h n, l) refl

-- `PT${hours}H${minutes}M`
abbrev pub duration_text : String → String → String
duration_text hours minutes = append "PT" (append hours (append "H" (append minutes "M")))

letter-append : (c : Char) (t : String) → append (c ∷ []) t ≡ c ∷ t
letter-append c t = cons-append c [] t ∙ ap (λ s. c ∷ s) (nil-append t)

duration_text-cons :
    (hours minutes : String)
    → duration_text hours minutes ≡ "P" ∷ ("T" ∷ append hours ("H" ∷ append minutes "M"))
duration_text-cons hours minutes =
    cons-append "P" "T" _
    ∙ ap (λ s. "P" ∷ s)
        (letter-append "T" _
          ∙ ap (λ s. "T" ∷ append hours s) (letter-append "H" (append minutes "M")))

match_iso_duration-time :
    (s : String) → match_iso_duration ("P" ∷ ("T" ∷ s)) ≡ all_matched none (time_part s)
unfolding match_iso_duration count_of after_letter span
match_iso_duration-time s = refl

time_part-counts :
    (hours minutes : String)
    → is_count hours ≡ true
    → is_count minutes ≡ true
    → time_part (append hours ("H" ∷ append minutes "M")) ≡ (some hours, some minutes, "")
time_part-counts hours minutes h m =
    rw
      (
        count_of-digits b'h' hours (append minutes "M") "H" h refl refl,
        count_of-digits b'm' minutes "" "M" m refl refl,
      )
      refl

P-ink : is_space "P" ≡ false
unfolding is_space
P-ink = refl

M-ink : is_space "M" ≡ false
unfolding is_space
M-ink = refl

duration-IsInked :
    (hours minutes : String) → IsInked ("P" ∷ ("T" ∷ append hours ("H" ∷ append minutes "M")))
duration-IsInked hours minutes = cons-IsInked "P" _ (
    cons-IsInked "T" _ (
      append-IsInked hours _
        (cons-IsInked "H" _ (append-IsInked minutes "M" (letter-IsInked "M" M-ink)))))

trim-duration :
    (hours minutes : String)
    → trim ("P" ∷ ("T" ∷ append hours ("H" ∷ append minutes "M")))
      ≡ "P" ∷ ("T" ∷ append hours ("H" ∷ append minutes "M"))
trim-duration hours minutes = trim-IsInked "P" _ P-ink (duration-IsInked hours minutes)

trim-duration_text :
    (hours minutes : String) → trim (duration_text hours minutes) ≡ duration_text hours minutes
trim-duration_text hours minutes =
    subst (λ s. trim s ≡ s) (sym (duration_text-cons hours minutes)) (trim-duration hours minutes)

-- The text of a duration is read as its hours and minutes.
match_iso_duration-duration_text :
    (hours minutes : String)
    → is_count hours ≡ true
    → is_count minutes ≡ true
    → match_iso_duration (duration_text hours minutes) ≡ some (none, some hours, some minutes)
match_iso_duration-duration_text hours minutes h m =
    ap match_iso_duration (duration_text-cons hours minutes)
    ∙ match_iso_duration-time _
    ∙ ap (λ t. all_matched none t) (time_part-counts hours minutes h m)

module _ (F : Floats) where
  open F use {Num, to_number, is_finite, add, multiply, of_index}

  duration_text-refused :
      ((s : String) → is_finite (to_number ("P" ∷ s)) ≡ false)
      → (hours minutes : String)
      → to_non_negative_integer F (str (duration_text hours minutes)) ≡ none
  duration_text-refused nan hours minutes =
      ap (λ s. to_non_negative_integer F (str s)) (duration_text-cons hours minutes)
      ∙ to_non_negative_integer-word F "P" _ refl refl nan (trim-duration hours minutes)

  abbrev minutes_in : String → String → Num
  minutes_in hours minutes =
      add
        (add (multiply (multiply (to_number "0") (of_index 24)) (of_index 60))
          (multiply (to_number hours) (of_index 60)))
        (to_number minutes)

  text_minutes-duration_text :
      (hours minutes : String)
      → is_count hours ≡ true
      → is_count minutes ≡ true
      → text_minutes F (duration_text hours minutes) ≡ some (minutes_in hours minutes)
  unfolding text_minutes iso_minutes
  text_minutes-duration_text hours minutes h m =
      rw (match_iso_duration-duration_text hours minutes h m, duration_text-cons hours minutes) refl

  -- An ISO 8601 duration that is printed with hours and minutes, both texts of digits, is read as
  -- 60 minutes for each hour and the minutes (and no days), where a text that begins with "P" has
  -- no finite number.
  pub normalize_minutes-duration_text :
      ((s : String) → is_finite (to_number ("P" ∷ s)) ≡ false)
      → (hours minutes : String) → is_count hours ≡ true
      → is_count minutes ≡ true
      → normalize_minutes F (str (duration_text hours minutes)) ≡ some (minutes_in hours minutes)
  unfolding normalize_minutes
  normalize_minutes-duration_text nan hours minutes h m =
      rw (duration_text-refused nan hours minutes, trim-duration_text hours minutes)
        (text_minutes-duration_text hours minutes h m)
