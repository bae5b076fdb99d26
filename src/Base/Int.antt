-- ===== src/Base/Int.antt =====
-- The integers, and `Number.parseInt(text, 10)` on texts that stand for an integer below 2^53,
-- where JavaScript's numbers are exact.
pub mod Decimal
use Prim.Native.Char.{Char, code}
use Prim.Native.Nat.{ℕ, zero, suc, ◌+◌, ◌-◌, ◌*◌, ◌/◌, ◌%◌}
use Prim.Native.String.{String, [], ◌∷◌, ◌++◌ as append}
use mathlib.Core.Bool.{◌&&◌}
use mathlib.Core.Option.{Option, none, some}
use recipe_import_from_anyth.Base.Tests.{ltb, leb, eqb, if◌then◌else◌}
use recipe_import_from_anyth.Base.Text.{trim_start}

pub data ℤ : Type 0 where
  pos : ℕ → ℤ
  negsuc : ℕ → ℤ

abbrev negate : ℕ → ℤ
negate zero = pos 0
negate (suc n) = negsuc n

abbrev digit : Char → Option ℕ
digit c = if leb b'0' (code c) && leb (code c) b'9' then some (code c - b'0') else none

-- The value of the digits from here on, after those that make `n`.
more_digits : ℕ → String → ℕ
more_digits n [] = n
more_digits n (c ∷ s) = elim (digit c) [ none ↦ n | some d ↦ more_digits (n * 10 + d) s ]

-- the longest prefix of digits, with `none` where there is none
digits : String → Option ℕ
digits [] = none
digits (c ∷ s) = elim (digit c) [ none ↦ none | some d ↦ some (more_digits d s) ]

abbrev signed : (ℕ → ℤ) → Option ℕ → Option ℤ
signed f none = none
signed f (some n) = some (f n)

after_space : String → Option ℤ
unfolding digits
after_space [] = none
after_space (c ∷ s) =
    if eqb (code c) b'-'
    then signed negate (digits s)
    else (if eqb (code c) b'+' then signed pos (digits s) else signed pos (digits (c ∷ s)))

-- `Number.parseInt(text, 10)`, with `none` for NaN
unfoldable pub parse_int : String → Option ℤ
unfolding trim_start after_space digits more_digits
parse_int s = after_space (trim_start s)

abbrev digit_text : ℕ → String
digit_text zero = "0"
digit_text (suc zero) = "1"
digit_text (suc (suc zero)) = "2"
digit_text (suc (suc (suc zero))) = "3"
digit_text (suc (suc (suc (suc zero)))) = "4"
digit_text (suc (suc (suc (suc (suc zero))))) = "5"
digit_text (suc (suc (suc (suc (suc (suc zero)))))) = "6"
digit_text (suc (suc (suc (suc (suc (suc (suc zero))))))) = "7"
digit_text (suc (suc (suc (suc (suc (suc (suc (suc zero)))))))) = "8"
digit_text _ = "9"

-- The digits of `n`, on fuel; `n` is fuel enough.
decimal_from : ℕ → ℕ → String
decimal_from zero n = digit_text n
decimal_from (suc fuel) n =
    let higher = decimal_from fuel (n / 10) in
    if ltb n 10 then digit_text n else append higher (digit_text (n % 10))

-- A number in a template text.
unfoldable pub decimal : ℕ → String
unfolding decimal_from
decimal n = decimal_from n n

abbrev units : Char → ℕ
units c = if leb 0x10000 (code c) then 2 else 1

-- `text.slice(0, n)`, which counts UTF-16 units; a character that is cut in two is left out.
unfoldable pub head_units : ℕ → String → String
head_units n [] = []
head_units n (c ∷ s) =
    let rest = head_units (n - units c) s in if leb (units c) n then c ∷ rest else []

-- `text.length`
unfoldable pub utf16_length : String → ℕ
utf16_length [] = 0
utf16_length (c ∷ s) = units c + utf16_length s
