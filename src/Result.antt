-- ===== src/Result.antt =====
-- packages/domain-driven-design/src/Result.ts: results with an error message. `getValue` of a
-- success without a value is `undefined`.
use recipe_import_from_anyth.Base.{
  ◌≡◌, ◌↔◌, refl, Bool, true, false, String, Option, none, List, [], ◌∷◌, is_empty, if◌then◌else◌,
  All,
}
use recipe_import_from_anyth.Effects.{Outcome, ok, thrown, error}

-- `Ok`, and `Fail` with its message and its code
pub data Result (A : Type 0) : Type 0 where
  succeeded : Option A → Result A
  failed : String → Option String → Result A

module _ {A : Type 0} where
  -- `new Fail(error, errorCode)`: the base class throws on an empty message.
  pub fail : String → Option String → Outcome (Result A)
  fail message code =
      if is_empty message
      then thrown (error "InvalidOperation: A failing result needs to contain an error message")
      else ok (failed message code)

  abbrev is_failure : Result A → Bool
  is_failure (succeeded a) = false
  is_failure (failed message code) = true

  get_value : Result A → Outcome (Option A)
  get_value (succeeded a) = ok a
  get_value (failed message code) =
      thrown (error "Can't get the value of an error result. Use 'errorValue' instead.")

  combine : List (Result A) → Result A
  combine [] = succeeded none
  combine (r ∷ results) = if is_failure r then r else combine results

  unwrap : Result A → Outcome (Option A)
  unwrap (failed message code) = thrown (error message)
  unwrap (succeeded a) = get_value (succeeded a)

  -- The combination of some results is unwrapped without a throw exactly when none of them has
  -- failed; it has no value then.
  unwrap-combine :
      (results : List (Result A))
      → (unwrap (combine results) ≡ ok none) ↔ All (λ r. is_failure r ≡ false) results
  unfolding unwrap combine get_value
  unwrap-combine [] = (λ h. tt, λ h. refl)
  unwrap-combine (succeeded a ∷ results) =
      let (to, from) = unwrap-combine results in (λ h. (refl, to h), λ h. from h.1)
  unwrap-combine (failed message code ∷ results) = (λ h. cc, λ h. cc (h.0))
