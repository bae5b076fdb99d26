-- ===== src/Base/Int/Decimal.antt =====
-- A number that is written in digits is read back.
use Prim.Native.Char.{Char, code}
use Prim.Native.Nat.{ℕ, zero, suc, ◌+◌, ◌*◌, ◌/◌, ◌%◌, ◌≤◌, ◌<◌}
use Prim.Native.String.{String, [], ◌∷◌, ◌++◌ as append}
use mathlib.Core.Path.{◌≡◌, refl, ap, sym, subst, ◌∙◌}
use mathlib.Core.Logic.{inl, inr}
use mathlib.Core.Bool.{false}
use mathlib.Core.Option.{Option, none, some}
use native.Mathlib.Omega.{arith}
use text.Mathlib.TextLemmas.{append_assoc, append-nil, cons-append, nil-append}
use recipe_import_from_anyth.Base.Tests.{ltb, eqb, Bool-cases}
use recipe_import_from_anyth.Base.Text.{trim_start, is_space}
use recipe_import_from_anyth.Base.Int.{
  pos, digit, more_digits, digits, after_space, signed, parse_int, digit_text, decimal_from,
  decimal,
}

-- The character that stands for a digit.
record IsDigit (d : ℕ) : Type 0 where
  char : Char
  text : digit_text d ≡ char ∷ []
  value : digit char ≡ some d
  ink : is_space char ≡ false
  unsigned : (eqb (code char) b'-' ≡ false) × (eqb (code char) b'+' ≡ false)

digit_text-IsDigit : (d : ℕ) → d < 10 → IsDigit d
unfolding is_space
digit_text-IsDigit zero h = record {
  char = "0";
  text = refl;
  value = refl;
  ink = refl;
  unsigned = (refl, refl);
}
digit_text-IsDigit (suc zero) h = record {
  char = "1";
  text = refl;
  value = refl;
  ink = refl;
  unsigned = (refl, refl);
}
digit_text-IsDigit (suc (suc zero)) h = record {
  char = "2";
  text = refl;
  value = refl;
  ink = refl;
  unsigned = (refl, refl);
}
digit_text-IsDigit (suc (suc (suc zero))) h = record {
  char = "3";
  text = refl;
  value = refl;
  ink = refl;
  unsigned = (refl, refl);
}
digit_text-IsDigit (suc (suc (suc (suc zero)))) h = record {
  char = "4";
  text = refl;
  value = refl;
  ink = refl;
  unsigned = (refl, refl);
}
digit_text-IsDigit (suc (suc (suc (suc (suc zero))))) h = record {
  char = "5";
  text = refl;
  value = refl;
  ink = refl;
  unsigned = (refl, refl);
}
digit_text-IsDigit (suc (suc (suc (suc (suc (suc zero)))))) h = record {
  char = "6";
  text = refl;
  value = refl;
  ink = refl;
  unsigned = (refl, refl);
}
digit_text-IsDigit (suc (suc (suc (suc (suc (suc (suc zero))))))) h = record {
  char = "7";
  text = refl;
  value = refl;
  ink = refl;
  unsigned = (refl, refl);
}
digit_text-IsDigit (suc (suc (suc (suc (suc (suc (suc (suc zero)))))))) h = record {
  char = "8";
  text = refl;
  value = refl;
  ink = refl;
  unsigned = (refl, refl);
}
digit_text-IsDigit (suc (suc (suc (suc (suc (suc (suc (suc (suc zero))))))))) h = record {
  char = "9";
  text = refl;
  value = refl;
  ink = refl;
  unsigned = (refl, refl);
}
digit_text-IsDigit (suc (suc (suc (suc (suc (suc (suc (suc (suc (suc n)))))))))) h =
    absurd (omega arith)

digit_text-cons :
    (d : ℕ) (h : d < 10) (s : String) → append (digit_text d) s ≡ (digit_text-IsDigit d h).char ∷ s
digit_text-cons d h s =
    let e = digit_text-IsDigit d h in
    ap (λ t. append t s) e.text ∙ cons-append e.char [] s ∙ ap (λ t. e.char ∷ t) (nil-append s)

more_digits-cons :
    (n d : ℕ) (c : Char) (s : String)
    → digit c ≡ some d
    → more_digits n (c ∷ s) ≡ more_digits (n * 10 + d) s
unfolding more_digits
more_digits-cons n d c s e =
    ap (λ (o : Option ℕ). elim o [ none ↦ n | some k ↦ more_digits (n * 10 + k) s ]) e

more_digits-digit :
    (n d : ℕ) (s : String)
    → d < 10
    → more_digits n (append (digit_text d) s) ≡ more_digits (n * 10 + d) s
more_digits-digit n d s h =
    ap (more_digits n) (digit_text-cons d h s)
    ∙ more_digits-cons n d _ s (digit_text-IsDigit d h).value

-- The digits of a number have a first one, and make the number.
record IsRead (text : String) (n : ℕ) : Type 0 where
  head : ℕ
  bound : head < 10
  tail : String
  shape : text ≡ append (digit_text head) tail
  total : (rest : String) → more_digits head (append tail rest) ≡ more_digits n rest

digit_text-IsRead : (d : ℕ) → d < 10 → IsRead (digit_text d) d
digit_text-IsRead d h = record {
  head = d;
  bound = h;
  tail = [];
  shape = sym (append-nil (digit_text d));
  total = λ rest. ap (more_digits d) (nil-append rest);
}

append-IsRead :
    (text : String) (m d : ℕ)
    → IsRead text m
    → d < 10
    → IsRead (append text (digit_text d)) (m * 10 + d)
append-IsRead text m d r h = record {
  head = r.head;
  bound = r.bound;
  tail = append r.tail (digit_text d);
  shape = ap (λ t. append t (digit_text d)) r.shape ∙ append_assoc _ _ _;
  total = λ rest.
      ap (more_digits r.head) (append_assoc _ _ _)
      ∙ r.total (append (digit_text d) rest)
      ∙ more_digits-digit m d rest h;
}

decimal_from-IsRead : (fuel n : ℕ) → n ≤ fuel → IsRead (decimal_from fuel n) n
unfolding decimal_from
decimal_from-IsRead zero n h = digit_text-IsRead n (omega arith)
decimal_from-IsRead (suc fuel) n h = elim (Bool-cases (ltb n 10)) [
  | inl small ↦ rw small (digit_text-IsRead n (ground arith))
  | inr large ↦ rw large (
      subst (IsRead _) (omega arith) (
        append-IsRead _ (n / 10) (n % 10) (decimal_from-IsRead fuel (n / 10) (ground arith))
          (omega arith)))
]

digits-cons :
    (d : ℕ) (c : Char) (s : String) → digit c ≡ some d → digits (c ∷ s) ≡ some (more_digits d s)
unfolding digits
digits-cons d c s e =
    ap (λ (o : Option ℕ). elim o [ none ↦ none | some k ↦ some (more_digits k s) ]) e

parse_int-cons :
    (c : Char) (s : String)
    → is_space c ≡ false
    → eqb (code c) b'-' ≡ false
    → eqb (code c) b'+' ≡ false
    → parse_int (c ∷ s) ≡ signed pos (digits (c ∷ s))
unfolding parse_int after_space trim_start
parse_int-cons c s ink minus plus = rw (ink, after_space, minus, plus) refl

IsRead-parse_int : (text : String) (n : ℕ) → IsRead text n → parse_int text ≡ some (pos n)
unfolding more_digits
IsRead-parse_int text n r =
    let e = digit_text-IsDigit r.head r.bound in
    ap parse_int (r.shape ∙ digit_text-cons r.head r.bound r.tail)
    ∙ parse_int-cons e.char r.tail e.ink (e.unsigned.0) (e.unsigned.1)
    ∙ ap (signed pos) (digits-cons r.head e.char r.tail e.value)
    ∙ ap (λ k. some (pos k)) (ap (more_digits r.head) (sym (append-nil r.tail)) ∙ r.total [])

-- A natural number that is written out is parsed as itself.
pub parse_int-decimal : (n : ℕ) → parse_int (decimal n) ≡ some (pos n)
unfolding decimal
parse_int-decimal n = IsRead-parse_int _ n (decimal_from-IsRead n n (omega arith))
