-- ===== src/Recipe/Numbers/Counts.antt =====
-- Numbers that are read once are read again as they are.
use recipe_import_from_anyth.Base.{
  ℕ, ◌≡◌, refl, ap, ◌∙◌, true, false, ◌||◌, Option, none, some, Bool-cases, OnSome, inl, inr,
}
use recipe_import_from_anyth.Value.{Value, undefined, num}
use recipe_import_from_anyth.Recipe.Numbers.{
  Floats, to_finite_number, to_non_negative_integer, non_negative, positive, to_positive_integer,
}

-- What the normalizers rely on of JavaScript's numbers, the infinite ones and NaN among them: a
-- rounded number is whole and not on the other side of 0, and so is an index.
pub record FloatLaws (F : Floats) : Type 0 where
  pub round-negative : (x : F.Num) → F.is_negative x ≡ false → F.is_negative (F.round x) ≡ false
  pub round_idem : (x : F.Num) → F.round (F.round x) ≡ F.round x
  pub index-negative : (i : ℕ) → F.is_negative (F.of_index i) ≡ false
  pub round-index : (i : ℕ) → F.round (F.of_index i) ≡ F.of_index i
  pub at_least_one-positive :
      (x : F.Num)
      → (F.is_negative (F.at_least_one x) ≡ false) × (F.is_zero (F.at_least_one x) ≡ false)
  pub at_least_one-round :
      (x : F.Num)
      → F.at_least_one (F.round (F.at_least_one (F.round x))) ≡ F.at_least_one (F.round x)

pub OnSome-map {ℓ κ μ} :
    {A : Type ℓ} (P : A → Type κ) (Q : A → Type μ)
    → ((a : A) → P a → Q a)
    → (o : Option A) → OnSome P o
    → OnSome Q o
OnSome-map P Q f none h = tt
OnSome-map P Q f (some a) h = f a h

pub OnSome-both {ℓ κ μ ν} :
    {A : Type ℓ} (P : A → Type κ) (Q : A → Type μ) (S : A → Type ν)
    → ((a : A) → P a → Q a → S a)
    → (o : Option A) → OnSome P o
    → OnSome Q o
    → OnSome S o
OnSome-both P Q S f none h k = tt
OnSome-both P Q S f (some a) h k = f a h k

module _ (F : Floats) (L : FloatLaws F) where
  open F use {
    Num, to_number, is_finite, is_negative, is_zero, add, divide, round, at_least_one, of_index,
  }

  abbrev pub IsFinite : Num → Type 0
  IsFinite x = is_finite x ≡ true

  finite-some : (x : Num) → is_finite x ≡ true → to_finite_number F (num x) ≡ some x
  unfolding to_finite_number
  finite-some x h = rw h refl

  -- A finite number is read as it is.
  pub finite-read :
      (o : Option Num) → OnSome IsFinite o → OnSome (λ x. to_finite_number F (num x) ≡ some x) o
  finite-read o h = OnSome-map _ _ finite-some o h

  -- A number that is whole, or not finite, and not negative.
  pub record IsWhole (x : Num) : Type 0 where
    pub sign : is_negative x ≡ false
    pub whole : round x ≡ x

  pub round-IsWhole : (x : Num) → is_negative x ≡ false → IsWhole (round x)
  round-IsWhole x s = record { sign = L.round-negative x s; whole = L.round_idem x }

  pub index-IsWhole : (i : ℕ) → IsWhole (of_index i)
  index-IsWhole i = record { sign = L.index-negative i; whole = L.round-index i }

  non_negative-IsWhole : (o : Option Num) → OnSome IsWhole (non_negative F o)
  non_negative-IsWhole none = tt
  non_negative-IsWhole (some x) = elim (Bool-cases (is_negative x)) [
    | inl below ↦ rw below tt
    | inr sign ↦ rw sign (round-IsWhole x sign)
  ]

  pub non_negative_integer-IsWhole : (v : Value Num) → OnSome IsWhole (to_non_negative_integer F v)
  unfolding to_non_negative_integer
  non_negative_integer-IsWhole v = non_negative-IsWhole _

  non_negative_self : (x : Num) → IsWhole x → non_negative F (some x) ≡ some x
  non_negative_self x h = rw (h.sign) (ap some h.whole)

  count-read : (x : Num) → IsWhole x → IsFinite x → to_non_negative_integer F (num x) ≡ some x
  unfolding to_non_negative_integer
  count-read x h f = ap (non_negative F) (finite-some x f) ∙ non_negative_self x h

  pub whole-read :
      (o : Option Num)
      → OnSome IsWhole o
      → OnSome IsFinite o
      → OnSome (λ x. to_non_negative_integer F (num x) ≡ some x) o
  whole-read o h f = OnSome-both IsWhole IsFinite _ count-read o h f

  positive_self :
      (x : Num) → positive F (some (at_least_one (round x))) ≡ some (at_least_one (round x))
  positive_self x =
      let (sign, nonzero) = L.at_least_one-positive (round x) in
      rw (sign, nonzero) (ap some (L.at_least_one-round x))

  positive-read :
      (o : Option Num)
      → OnSome IsFinite (positive F o)
      → OnSome (λ x. to_positive_integer F (num x) ≡ some x) (positive F o)
  unfolding to_positive_integer
  positive-read none f = tt
  positive-read (some x) f = elim (Bool-cases (is_negative x || is_zero x)) [
    | inl low ↦ rw low tt
    | inr high ↦ rw high (ap (positive F) (finite-some _ (rw high at f)) ∙ positive_self x)
  ]

  pub positive_integer-read :
      (v : Value Num)
      → OnSome IsFinite (to_positive_integer F v)
      → OnSome (λ x. to_positive_integer F (num x) ≡ some x) (to_positive_integer F v)
  unfolding to_positive_integer
  positive_integer-read v f = positive-read _ f

  pub non_negative_integer-missing : to_non_negative_integer F undefined ≡ none
  unfolding to_non_negative_integer to_finite_number
  non_negative_integer-missing = refl

  pub positive_integer-missing : to_positive_integer F undefined ≡ none
  unfolding to_positive_integer to_finite_number
  positive_integer-missing = refl
