-- ===== src/Base/Lists.antt =====
-- Lists over the native numbers, predicates on all their items, and association lists.
use Prim.Native.Nat.{ℕ, suc, ◌+◌, ◌<◌}
use mathlib.Core.Path.{◌≡◌, refl, subst}
use mathlib.Core.Logic.{◌≢◌, inl, inr}
use mathlib.Core.Bool.{Bool}
use mathlib.Core.Option.{Option, none, some, some-injective}
use mathlib.Core.List.{List, [], ◌∷◌, ◌++◌}
use native.Mathlib.Omega.{arith}
use recipe_import_from_anyth.Base.Tests.{if◌then◌else◌, Bool-cases, Option-cases}

abbrev shift : Option ℕ → Option ℕ
shift none = none
shift (some i) = some (suc i)

abbrev pub Below : ℕ → Option ℕ → Type 0
Below n none = Unit
Below n (some i) = i < n

shift-Below : (n : ℕ) (o : Option ℕ) → Below n o → Below (suc n) (shift o)
shift-Below n none h = tt
shift-Below n (some i) h = omega arith

module _ {ℓ} {A : Type ℓ} where
  abbrev pub length : List A → ℕ
  length [] = 0
  length (x ∷ xs) = suc (length xs)

  pub length-append : (xs ys : List A) → length (xs ++ ys) ≡ length xs + length ys
  length-append [] ys = omega arith
  length-append (x ∷ xs) ys = omega (arith, length-append xs ys)

  -- `xs.findIndex(p)`, with `none` for -1
  unfoldable pub find_index : (A → Bool) → List A → Option ℕ
  find_index p [] = none
  find_index p (x ∷ xs) = if p x then some 0 else shift (find_index p xs)

  -- An index that is found is one of the list.
  pub find_index-Below : (p : A → Bool) (xs : List A) → Below (length xs) (find_index p xs)
  unfolding find_index
  find_index-Below p [] = tt
  find_index-Below p (x ∷ xs) = elim (Bool-cases (p x)) [
    | inl here ↦ rw here (omega arith)
    | inr later ↦ rw later (shift-Below (length xs) (find_index p xs) (find_index-Below p xs))
  ]

  -- `xs.filter(p)`
  abbrev pub filter_by : (A → Bool) → List A → List A
  filter_by p [] = []
  filter_by p (x ∷ xs) = if p x then x ∷ filter_by p xs else filter_by p xs

  abbrev pub All {κ} : (A → Type κ) → List A → Type κ
  All P [] = Unit
  All P (x ∷ xs) = P x × All P xs

  pub All-map {κ μ} :
      {P : A → Type κ} {Q : A → Type μ}
      → ((x : A) → P x → Q x)
      → (xs : List A) → All P xs
      → All Q xs
  All-map f [] h = tt
  All-map f (x ∷ xs) (p, h) = (f x p, All-map f xs h)

  pub All-filter_by {κ} :
      (P : A → Type κ) (p : A → Bool) (xs : List A) → All P xs → All P (filter_by p xs)
  All-filter_by P p [] h = tt
  All-filter_by P p (x ∷ xs) (here, h) = elim (Bool-cases (p x)) [
    | inl kept ↦ rw kept (here, All-filter_by P p xs h)
    | inr gone ↦ rw gone (All-filter_by P p xs h)
  ]

abbrev pub keep {ℓ} : {A : Type ℓ} → Option A → List A → List A
keep none ys = ys
keep (some y) ys = y ∷ ys

module _ {ℓ κ} {A : Type ℓ} {B : Type κ} where
  -- `xs.flatMap(f)` where `f` gives one item or none
  abbrev pub collect : (A → Option B) → List A → List B
  collect f [] = []
  collect f (x ∷ xs) = keep (f x) (collect f xs)

  -- the same, where `f` takes the item's index too
  abbrev pub collect_from : (ℕ → A → Option B) → ℕ → List A → List B
  collect_from f i [] = []
  collect_from f i (x ∷ xs) = keep (f i x) (collect_from f (suc i) xs)

  pub All-collect {μ} :
      (P : B → Type μ) (f : A → Option B)
      → ((x : A) (y : B) → f x ≡ some y → P y)
      → (xs : List A) → All P (collect f xs)
  All-collect P f h [] = tt
  All-collect P f h (x ∷ xs) = elim (Option-cases (f x)) [
    | inl e ↦ rw e (All-collect P f h xs)
    | inr (y, e) ↦ rw e (h x y e, All-collect P f h xs)
  ]

  pub All-collect_from {μ} :
      (P : B → Type μ) (f : ℕ → A → Option B)
      → ((i : ℕ) (x : A) (y : B) → f i x ≡ some y → P y)
      → (i : ℕ) (xs : List A) → All P (collect_from f i xs)
  All-collect_from P f h i [] = tt
  All-collect_from P f h i (x ∷ xs) = elim (Option-cases (f i x)) [
    | inl e ↦ rw e (All-collect_from P f h (suc i) xs)
    | inr (y, e) ↦ rw e (h i x y e, All-collect_from P f h (suc i) xs)
  ]

-- `xs.length > 0 ? xs : undefined`
abbrev pub nonempty_list {ℓ} : {A : Type ℓ} → List A → Option (List A)
nonempty_list [] = none
nonempty_list (x ∷ xs) = some (x ∷ xs)

pub nonempty_list-All {ℓ κ} :
    {A : Type ℓ} (P : A → Type κ) (xs ys : List A)
    → All P xs
    → nonempty_list xs ≡ some ys
    → All P ys × (ys ≢ [])
nonempty_list-All P [] ys h e = cc
nonempty_list-All P (x ∷ xs) ys h e =
    subst (λ zs. All P zs × (zs ≢ [])) (some-injective _ _ e) (h, λ p. cc p)

pub nonempty_list_self {ℓ} : {A : Type ℓ} (xs : List A) → xs ≢ [] → nonempty_list xs ≡ some xs
nonempty_list_self [] h = absurd (h refl)
nonempty_list_self (x ∷ xs) h = refl
