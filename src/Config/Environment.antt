-- ===== src/Config/Environment.antt =====
-- src/infrastructure/config-validator.ts: the variables that a server in production must have.
-- Whether zod takes a text is its length; its message for a missing one is an argument.
use recipe_import_from_anyth.Base.{
  ◌≡◌, ◌≢◌, arith, eq_iff, ◌↔◌, ◌⊎◌, inl, inr, refl, ap, Bool, true, false, String, ◌==◌, append,
  Option, none, some, List, [], ◌∷◌, is_empty, if◌then◌else◌, All, Bool-cases,
}
use recipe_import_from_anyth.Mistral.Settings.{Env}

pub record EnvValidationResult : Type 0 where
  pub valid : Bool
  pub errors : List String

pub data Ending : Type 0 where
  -- `process.exit(1)` after the errors are written
  exited : List String → Ending
  passed : Ending

pub is_production : Option String → Bool
is_production none = false
is_production (some s) = s == "production"

abbrev pub required_variables : List String
required_variables = "REDIS_HOST" ∷ "JWT_SECRET" ∷ "JWT_ISSUER" ∷ "JWT_AUDIENCE" ∷ []

module _ (missing : String) (env : Env) where
  -- the issue that zod has of a variable
  variable_issue : String → Option String → Option String
  variable_issue name none = some (append "FATAL: " (append name (append " " missing)))
  variable_issue name (some s) =
      if is_empty s then some (append "FATAL: " (append name " cannot be empty")) else none

  abbrev with_issue : Option String → List String → List String
  with_issue none issues = issues
  with_issue (some issue) issues = issue ∷ issues

  issues_of : List String → List String
  issues_of [] = []
  issues_of (name ∷ names) = with_issue (variable_issue name (env name)) (issues_of names)

  abbrev result_of : List String → EnvValidationResult
  result_of [] = record { valid = true; errors = [] }
  result_of (e ∷ errors) = record { valid = false; errors = e ∷ errors }

  pub validate_environment : EnvValidationResult
  validate_environment =
      if is_production (env "NODE_ENV")
      then result_of (issues_of required_variables)
      else record { valid = true; errors = [] }

  pub assert_environment : Ending
  unfolding validate_environment
  assert_environment =
      if validate_environment.valid then passed else exited validate_environment.errors

  -- A variable that is set to a text that is not empty.
  abbrev pub IsProvided : String → Type 0
  IsProvided name = (v : String) × (env name ≡ some v) × (is_empty v ≡ false)

  variable_issue-IsProvided :
      (name : String) (v : Option String) (names : List String)
      → env name ≡ v
      → (with_issue (variable_issue name v) names ≡ []) ↔ (IsProvided name × (names ≡ []))
  unfolding variable_issue
  variable_issue-IsProvided name none names e = (λ h. cc, λ h. cc (h.0.1))
  variable_issue-IsProvided name (some String.[]) names e = (λ h. cc, λ h. cc (h.0.1, h.0.2))
  variable_issue-IsProvided name (some (String.◌∷◌ c v)) names e =
      (λ h. ((String.◌∷◌ c v, e, refl), h), λ h. h.1)

  issues_of-IsProvided : (names : List String) → (issues_of names ≡ []) ↔ All IsProvided names
  unfolding issues_of
  issues_of-IsProvided [] = (λ h. tt, λ h. refl)
  issues_of-IsProvided (name ∷ names) =
      let (to, from) = variable_issue-IsProvided name (env name) (issues_of names) refl in
      let (all, none_of) = issues_of-IsProvided names in
      (λ h. let (set, rest) = to h in (set, all rest), λ h. from (h.0, none_of h.1))

  passed-none :
      (errors : List String)
      → (if (result_of errors).valid then passed else exited (result_of errors).errors) ≡ passed
      → errors ≡ []
  passed-none [] h = refl
  passed-none (e ∷ errors) h = cc

  passed_iff :
      (assert_environment ≡ passed)
      ↔ ((is_production (env "NODE_ENV") ≡ false) ⊎ All IsProvided required_variables)
  unfolding assert_environment
  passed_iff = elim (Bool-cases (is_production (env "NODE_ENV"))) [
    | inl production ↦
        let (to, from) = issues_of-IsProvided required_variables in
        (
          λ h. inr (to (passed-none _ (rw production at h))),
          λ h. elim h [
            | inl other ↦ cc
            | inr set ↦ rw production (
                ap (λ r. if (result_of r).valid then passed else exited (result_of r).errors)
                  (from set))
          ],
        )
    | inr other ↦ (λ h. inl other, λ h. rw other refl)
  ]

  is_production-other : (v : Option String) → (is_production v ≡ false) ↔ (v ≢ some "production")
  unfolding is_production
  is_production-other none = (λ h e. cc e, λ h. refl)
  is_production-other (some s) =
      (λ h e. ground (arith, eq_iff s "production"), λ h. ground (arith, eq_iff s "production"))

  -- The server goes on exactly when NODE_ENV is not "production", or REDIS_HOST, JWT_SECRET,
  -- JWT_ISSUER and JWT_AUDIENCE are all set to texts that are not empty.
  pub assert_environment-passed_iff : (assert_environment ≡ passed) ↔ (
      (env "NODE_ENV" ≢ some "production")
      ⊎ (IsProvided "REDIS_HOST"
          × IsProvided "JWT_SECRET"
          × IsProvided "JWT_ISSUER"
          × IsProvided "JWT_AUDIENCE"))
  assert_environment-passed_iff =
      let (to, from) = passed_iff in
      let (other, same) = is_production-other (env "NODE_ENV") in
      (
        λ h. elim (to h) [ inl e ↦ inl (other e) | inr (a, (b, (c, (d, u)))) ↦ inr (a, b, c, d) ],
        λ h. elim h [
          | inl e ↦ from (inl (same e))
          | inr (a, b, c, d) ↦ from (inr (a, (b, (c, (d, tt)))))
        ],
      )
