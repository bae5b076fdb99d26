-- ===== src/Identity/Shallow.antt =====
-- When `shallowEqual` takes two objects for equal.
use recipe_import_from_anyth.Base.{
  ℕ, suc, ◌≤◌, ◌≡◌, ◌≢◌, ◌↔◌, inl, inr, refl, ap, sym, ◌∙◌, Bool, true, false, ◌&&◌, String, ◌==◌,
  Option, none, some, [], ◌∷◌, length, eqb, if◌then◌else◌, Bool-cases, and-true, All, arith, eq_iff,
  eq_refl,
}
use recipe_import_from_anyth.Base.Map.{Map, get, delete, get-delete}
use recipe_import_from_anyth.Identity.{
  Comparison, read, same_value, all_same, compare_entries, shallow_equal,
}

-- An object has each key once.
abbrev pub HasKeysOnce : {V : Type 0} → Map V → Type 0
HasKeysOnce [] = Unit
HasKeysOnce ((key, v) ∷ m) = (get key m ≡ none) × HasKeysOnce m

module _ {V : Type 0} where
  -- every entry of `a` is one of `b`
  abbrev Within : Map V → Map V → Type 0
  Within [] b = Unit
  Within ((key, v) ∷ a) b = (get key b ≡ some v) × Within a b

  delete_missing : (key : String) (b : Map V) → get key b ≡ none → delete key b ≡ b
  unfolding get delete
  delete_missing key [] h = refl
  delete_missing key ((j, w) ∷ b) h = elim (Bool-cases (j == key)) [
    | inl same ↦ absurd (ground arith)
    | inr other ↦ rw other (ap (λ m. (j, w) ∷ m) (delete_missing key b (rw (other, get) at h)))
  ]

  length-delete :
      (key : String) (b : Map V) (v : V)
      → HasKeysOnce b
      → get key b ≡ some v
      → length b ≡ suc (length (delete key b))
  unfolding get delete
  length-delete key [] v k h = cc
  length-delete key ((j, w) ∷ b) v (new, k) h = elim (Bool-cases (j == key)) [
    | inl same ↦
        let gone : get key b ≡ none = ground (arith, eq_iff j key) in
        rw same (ap (λ m. suc (length m)) (sym (delete_missing key b gone)))
    | inr other ↦ rw other (ap suc (length-delete key b v k (rw (other, get) at h)))
  ]

  delete-HasKeysOnce : (key : String) (b : Map V) → HasKeysOnce b → HasKeysOnce (delete key b)
  unfolding delete
  delete-HasKeysOnce key [] h = tt
  delete-HasKeysOnce key ((j, w) ∷ b) (new, h) = elim (Bool-cases (j == key)) [
    | inl same ↦ rw same (delete-HasKeysOnce key b h)
    | inr other ↦ rw other (ground (arith, get-delete j key b), delete-HasKeysOnce key b h)
  ]

  -- Entries with other keys are still there without the key.
  Within-delete :
      (key : String) (a b : Map V) → get key a ≡ none → Within a b → Within a (delete key b)
  unfolding get
  Within-delete key [] b h w = tt
  Within-delete key ((j, v) ∷ a) b h (here, w) = (
    ground (arith, eq_iff j key, eq_iff key j, get-delete j key b),
    Within-delete key a b (ground arith) w,
  )

  -- An object whose entries are all in another with no more of them has the same entries.
  Within-get :
      (a b : Map V)
      → HasKeysOnce a
      → HasKeysOnce b
      → Within a b
      → length a ≡ length b
      → (k : String) → get k a ≡ get k b
  unfolding get
  Within-get [] [] h l w e k = refl
  Within-get [] (x ∷ b) h l w e k = absurd (omega (arith, e))
  Within-get ((key, v) ∷ a) b (new, h) l (here, w) e k =
      let shorter = length-delete key b v l here in
      let rest =
        Within-get a (delete key b) h (delete-HasKeysOnce key b l) (Within-delete key a b new w)
          (omega (arith, e, shorter)) k in
      ground (arith, eq_iff key k, rest, get-delete k key b)

  length-Within : (a b : Map V) → HasKeysOnce a → HasKeysOnce b → Within a b → length a ≤ length b
  length-Within [] b h l w = omega arith
  length-Within ((key, v) ∷ a) b (new, h) l (here, w) = omega (
    arith,
    length-delete key b v l here,
    length-Within a (delete key b) h (delete-HasKeysOnce key b l) (Within-delete key a b new w),
  )

  Within-cons :
      (j : String) (v : V) (a b : Map V) → get j a ≡ none → Within a b → Within a ((j, v) ∷ b)
  unfolding get
  Within-cons j v [] b h w = tt
  Within-cons j v ((k, x) ∷ a) b h (here, w) =
      (ground (arith, eq_iff j k, eq_iff k j), Within-cons j v a b (ground arith) w)

  Within-self : (a : Map V) → HasKeysOnce a → Within a a
  unfolding get
  Within-self [] h = tt
  Within-self ((k, v) ∷ a) (new, h) =
      (rw (eq_refl k) refl, Within-cons k v a a new (Within-self a h))

  Within-same : (e a b : Map V) → ((k : String) → get k a ≡ get k b) → Within e a → Within e b
  Within-same [] a b same w = tt
  Within-same ((k, v) ∷ e) a b same (here, w) = (sym (same k) ∙ here, Within-same e a b same w)

  -- Objects with the same properties have as many of them.
  length-same :
      (a b : Map V)
      → HasKeysOnce a
      → HasKeysOnce b
      → ((k : String) → get k a ≡ get k b)
      → length a ≡ length b
  length-same a b h l same = omega (
    arith,
    length-Within a b h l (Within-same a a b same (Within-self a h)),
    length-Within b a l h (Within-same b b a (λ k. sym (same k)) (Within-self b l)),
  )

if-eqb : (m n : ℕ) (c : Bool) → (if eqb m n then c else false) ≡ true → (m ≡ n) × (c ≡ true)
if-eqb m n c h = (ground arith, ground arith)

if-eqb_intro : (m n : ℕ) (c : Bool) → m ≡ n → c ≡ true → (if eqb m n then c else false) ≡ true
if-eqb_intro m n c e h = ground arith

module _ {V : Type 0} (C : Comparison V)
    (strict_iff : (a b : V) → (C.strict a b ≡ true) ↔ (a ≡ b)) where
  open C use {undefined, strict, is_dayjs}

  -- a value that is there and is no date of dayjs
  abbrev pub IsPlain : String × V → Type 0
  IsPlain (key, v) = (v ≢ undefined) × (is_dayjs v ≡ false)

  same_value_iff :
      (v : V) (o : Option V)
      → v ≢ undefined
      → is_dayjs v ≡ false
      → (same_value C v (read C o) ≡ true) ↔ (o ≡ some v)
  same_value_iff v none h d = rw d (λ e. absurd (h ((strict_iff v undefined).0 e)), λ e. cc e)
  same_value_iff v (some x) h d =
      rw d (λ e. ap some (sym ((strict_iff v x).0 e)), λ e. (strict_iff v x).1 (cc e))

  all_same_iff :
      (e a b : Map V) → All IsPlain e → Within e a → (all_same C e a b ≡ true) ↔ Within e b
  unfolding all_same
  all_same_iff [] a b p w = (λ h. tt, λ h. refl)
  all_same_iff ((k, v) ∷ e) a b ((present, plain), p) (here, w) =
      let (to, from) = same_value_iff v (get k b) present plain in
      let (found, holds) = all_same_iff e a b p w in
      rw here (
        λ h.
            let (x, y) = and-true (same_value C v (read C (get k b))) (all_same C e a b) h in
            (to x, found y),
        λ (x, y). rw (from x) (holds y),
      )

  -- Two objects, with each key once and all values of the first neither undefined nor dates of
  -- dayjs, are equal exactly when each key has the same value in both, or none, where `===` is
  -- equality, that is where no value is NaN.
  pub compare_entries_iff :
      (a b : Map V)
      → HasKeysOnce a
      → HasKeysOnce b
      → All IsPlain a
      → (shallow_equal C false (some a) (some b) ≡ true) ↔ ((k : String) → get k a ≡ get k b)
  unfolding shallow_equal compare_entries
  compare_entries_iff a b h l p =
      let (found, holds) = all_same_iff a a b p (Within-self a h) in
      (
        λ e.
            let (n, s) = if-eqb (length a) (length b) (all_same C a a b) e in
            Within-get a b h l (found s) n,
        λ same.
            if-eqb_intro (length a) (length b) (all_same C a a b) (length-same a b h l same)
              (holds (Within-same a a b same (Within-self a h))),
      )

and-false : (b : Bool) → (b && false) ≡ false
and-false true = refl
and-false false = refl

-- An object whose one value is `undefined` is equal to any object with one property of another
-- name, and the other way round they differ, unless that value is `undefined` too.
pub shallow_equal-asymmetric :
    {V : Type 0} (C : Comparison V)
    → C.is_dayjs C.undefined ≡ false
    → C.strict C.undefined C.undefined ≡ true
    → (j k : String) (v : V) → (j == k) ≡ false
    → C.strict v C.undefined ≡ false
    → (shallow_equal C false (some ((j, C.undefined) ∷ [])) (some ((k, v) ∷ [])) ≡ true)
      × (shallow_equal C false (some ((k, v) ∷ [])) (some ((j, C.undefined) ∷ [])) ≡ false)
unfolding shallow_equal compare_entries all_same get
shallow_equal-asymmetric C d u j k v ne s =
    let other : (k == j) ≡ false = ground (arith, eq_iff j k, eq_iff k j) in
    (rw (eq_refl j, other, d, u) refl, rw (eq_refl k, ne, d, and-false (C.is_dayjs v), s) refl)
