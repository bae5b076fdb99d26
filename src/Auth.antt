-- ===== src/Auth.antt =====
-- src/infrastructure/auth/registry/auth-registry.ts: which strategy authenticates a request. The
-- strategies themselves are arguments.
pub mod Jwt
pub mod Strategies
mod Examples
use recipe_import_from_anyth.Base.{
  ℕ, ◌≤◌, ◌≡◌, refl, Bool, true, false, Option, none, some, List, [], ◌∷◌, ◌++◌, ltb, if◌then◌else◌,
  All, All-map, arith, Bool-cases, inl, inr, subst,
}
use mathlib.Core.Option.{some-injective}
use recipe_import_from_anyth.Effects.{Outcome, ok, thrown, error}
use recipe_import_from_anyth.Ids.{UserId}

pub record AuthStrategy (Request : Type 0) : Type 0 where
  pub priority : ℕ
  pub supports : Request → Bool
  pub authenticate : Request → Outcome UserId

module _ {Request : Type 0} where
  -- `sort((a, b) => b.priority - a.priority)`, which keeps the order of equal priorities
  pub insert : AuthStrategy Request → List (AuthStrategy Request) → List (AuthStrategy Request)
  insert x [] = x ∷ []
  insert x (y ∷ ys) = if ltb x.priority y.priority then y ∷ insert x ys else x ∷ y ∷ ys

  pub sort_strategies : List (AuthStrategy Request) → List (AuthStrategy Request)
  sort_strategies [] = []
  sort_strategies (x ∷ xs) = insert x (sort_strategies xs)

  add_strategy : AuthStrategy Request → List (AuthStrategy Request) → List (AuthStrategy Request)
  add_strategy x xs = sort_strategies (xs ++ x ∷ [])

  pub choose : Request → List (AuthStrategy Request) → Option (AuthStrategy Request)
  choose request [] = none
  choose request (x ∷ xs) = if x.supports request then some x else choose request xs

  pub authenticate_by : Request → Option (AuthStrategy Request) → Outcome UserId
  authenticate_by request none =
      thrown (error "No authentication strategy available for this request")
  authenticate_by request (some strategy) = strategy.authenticate request

  pub authenticate : Request → List (AuthStrategy Request) → Outcome UserId
  authenticate request strategies = authenticate_by request (choose request strategies)

  -- No strategy stands before one of a higher priority.
  abbrev IsSorted : List (AuthStrategy Request) → Type 0
  IsSorted [] = Unit
  IsSorted (x ∷ xs) = All (λ y. y.priority ≤ x.priority) xs × IsSorted xs

  insert-All :
      (P : AuthStrategy Request → Type 0) (x : AuthStrategy Request)
      (xs : List (AuthStrategy Request))
      → P x
      → All P xs
      → All P (insert x xs)
  unfolding insert
  insert-All P x [] p h = (p, tt)
  insert-All P x (y ∷ ys) p (q, h) = elim (Bool-cases (ltb x.priority y.priority)) [
    | inl later ↦ rw later (q, insert-All P x ys p h)
    | inr here ↦ rw here (p, (q, h))
  ]

  insert-IsSorted :
      (x : AuthStrategy Request) (xs : List (AuthStrategy Request))
      → IsSorted xs
      → IsSorted (insert x xs)
  unfolding insert
  insert-IsSorted x [] h = (tt, tt)
  insert-IsSorted x (y ∷ ys) (lower, h) = elim (Bool-cases (ltb x.priority y.priority)) [
    | inl later ↦ rw later (
      insert-All (λ z. z.priority ≤ y.priority) x ys (ground arith) lower,
      insert-IsSorted x ys h,
    )
    | inr here ↦
        let le : y.priority ≤ x.priority = ground arith in
        rw here ((le, All-map (λ z q. omega (arith, le, q)) ys lower), (lower, h))
  ]

  sort_strategies-IsSorted : (xs : List (AuthStrategy Request)) → IsSorted (sort_strategies xs)
  unfolding sort_strategies
  sort_strategies-IsSorted [] = tt
  sort_strategies-IsSorted (x ∷ xs) =
      insert-IsSorted x (sort_strategies xs) (sort_strategies-IsSorted xs)

  uninsert :
      (P : AuthStrategy Request → Type 0) (x : AuthStrategy Request)
      (xs : List (AuthStrategy Request))
      → All P (insert x xs)
      → P x × All P xs
  unfolding insert
  uninsert P x [] (p, h) = (p, tt)
  uninsert P x (y ∷ ys) h = elim (Bool-cases (ltb x.priority y.priority)) [
    | inl later ↦
        let (q, rest) : P y × All P (insert x ys) = rw (later, insert) at h in
        let (p, tail) = uninsert P x ys rest in (p, (q, tail))
    | inr here ↦ rw (here, insert) at h
  ]

  unsort :
      (P : AuthStrategy Request → Type 0) (xs : List (AuthStrategy Request))
      → All P (sort_strategies xs)
      → All P xs
  unfolding sort_strategies
  unsort P [] h = tt
  unsort P (x ∷ xs) h = let (p, rest) = uninsert P x (sort_strategies xs) h in (p, unsort P xs rest)

  module _ (request : Request) where
    -- A strategy that serves the request has no priority above that of the chosen one.
    abbrev Yields : AuthStrategy Request → AuthStrategy Request → Type 0
    Yields s t = t.supports request ≡ true → t.priority ≤ s.priority

    choose-highest :
        (s : AuthStrategy Request) (xs : List (AuthStrategy Request))
        → IsSorted xs
        → choose request xs ≡ some s
        → (s.supports request ≡ true) × All (Yields s) xs
    unfolding choose
    choose-highest s [] h e = cc
    choose-highest s (x ∷ xs) (lower, h) e = elim (Bool-cases (x.supports request)) [
      | inl serves ↦
          let same : x ≡ s = some-injective _ _ (rw (serves, choose) at e) in
          subst (λ t. (t.supports request ≡ true) × All (Yields t) (x ∷ xs)) same
            (serves, ((λ q. omega arith), All-map (λ y le q. le) xs lower))
      | inr not_here ↦
          let (serves, rest) = choose-highest s xs h (rw (not_here, choose) at e) in
          (serves, ((λ q. absurd (ground arith)), rest))
    ]

    -- The strategy that is chosen for a request serves it, and no strategy of the registry that
    -- serves it has a higher priority.
    choose-sort_strategies :
        (s : AuthStrategy Request) (xs : List (AuthStrategy Request))
        → choose request (sort_strategies xs) ≡ some s
        → (s.supports request ≡ true) × All (Yields s) xs
    choose-sort_strategies s xs e =
        let (serves, highest) =
          choose-highest s (sort_strategies xs) (sort_strategies-IsSorted xs) e in
        (serves, unsort (Yields s) xs highest)
