-- ===== src/Base/Text.antt =====
-- `String.prototype.trim` over code points.
use Prim.Native.Char.{Char, code}
use Prim.Native.String.{String, [], ◌∷◌, ◌++◌ as append}
use text.Mathlib.TextLemmas.{cons-append, nil-append}
use mathlib.Core.List.{List, [], ◌∷◌}
use mathlib.Core.Bool.{Bool, true, false, ◌&&◌, ◌||◌}
use mathlib.Core.Path.{◌≡◌, refl, sym, ap, ◌∙◌, subst}
use mathlib.Core.Logic.{inl, inr}
use recipe_import_from_anyth.Base.Tests.{leb, eqb, if◌then◌else◌, Bool-cases}

-- The white space and the line ends of ECMAScript.
unfoldable pub is_space : Char → Bool
is_space c =
    let k = code c in
    (leb 9 k && leb k 13)
    || eqb k 32
    || eqb k 160
    || eqb k 0x1680
    || (leb 0x2000 k && leb k 0x200a)
    || eqb k 0x2028
    || eqb k 0x2029
    || eqb k 0x202f
    || eqb k 0x205f
    || eqb k 0x3000
    || eqb k 0xfeff

abbrev pub is_empty : String → Bool
is_empty [] = true
is_empty (c ∷ s) = false

unfoldable pub trim_start : String → String
trim_start [] = []
trim_start (c ∷ s) = if is_space c then trim_start s else c ∷ s

pub trim_end : String → String
trim_end [] = []
trim_end (c ∷ s) = let r = trim_end s in if is_space c && is_empty r then [] else c ∷ r

unfoldable pub trim : String → String
unfolding trim_start trim_end is_space
trim s = trim_end (trim_start s)

trim_end_idem : (s : String) → trim_end (trim_end s) ≡ trim_end s
unfolding trim_end
trim_end_idem [] = refl
trim_end_idem (c ∷ s) = elim (Bool-cases (is_space c && is_empty (trim_end s))) [
  | inl gone ↦ rw (gone, trim_end)
  | inr kept ↦ rw (kept, trim_end, trim_end_idem s, kept)
]

-- What is left by `trim_start` does not begin with a space, also after `trim_end`.
trim_start-trim_end : (s : String) → trim_start (trim_end (trim_start s)) ≡ trim_end (trim_start s)
unfolding trim_start trim_end
trim_start-trim_end [] = refl
trim_start-trim_end (c ∷ s) = elim (Bool-cases (is_space c)) [
  | inl space ↦ rw (space, trim_start) (trim_start-trim_end s)
  | inr ink ↦ rw (ink, trim_start, ink, trim_end) (rw (ink, trim_start))
]

-- Trimming a trimmed text changes nothing.
pub trim_idem : (s : String) → trim (trim s) ≡ trim s
unfolding trim
trim_idem s = ap trim_end (trim_start-trim_end s) ∙ trim_end_idem (trim_start s)

-- A text that does not end with white space.
pub record IsInked (s : String) : Type 0 where
  pub kept : trim_end s ≡ s
  pub inhabited : is_empty s ≡ false

pub cons-IsInked : (c : Char) (s : String) → IsInked s → IsInked (c ∷ s)
unfolding trim_end
cons-IsInked c s h = record {
  kept = elim (Bool-cases (is_space c)) [
    | inl space ↦ rw (h.kept, space, h.inhabited) refl
    | inr ink ↦ rw (h.kept, ink) refl
  ];
  inhabited = refl;
}

pub append-IsInked : (s t : String) → IsInked t → IsInked (append s t)
append-IsInked [] t h = subst IsInked (sym (nil-append t)) h
append-IsInked (c ∷ s) t h =
    subst IsInked (sym (cons-append c s t)) (cons-IsInked c (append s t) (append-IsInked s t h))

pub trim-IsInked :
    (c : Char) (s : String) → is_space c ≡ false → IsInked (c ∷ s) → trim (c ∷ s) ≡ c ∷ s
unfolding trim trim_start
trim-IsInked c s ink h = rw ink (h.kept)

pub letter-IsInked : (c : Char) → is_space c ≡ false → IsInked (c ∷ [])
unfolding trim_end
letter-IsInked c ink = record { kept = rw ink refl; inhabited = refl }

-- a character before the first of some texts
abbrev pub push : Char → List String → List String
push c [] = (c ∷ []) ∷ []
push c (part ∷ parts) = (c ∷ part) ∷ parts

abbrev starts_space : String → Bool
starts_space [] = false
starts_space (c ∷ s) = is_space c

-- `text.split(/\s+/)`
pub split_words : String → List String
split_words [] = "" ∷ []
split_words (c ∷ s) =
    let words = split_words s in
    if is_space c then (if starts_space s then words else "" ∷ words) else push c words
