-- ===== src/Ids.antt =====
-- packages/domain/src/value-objects: identifiers of jobs and users, and idempotency keys.
use recipe_import_from_anyth.Base.{String, Option, none, some, ◌||◌, if◌then◌else◌, trim, is_empty}

pub record JobId : Type 0 where
  pub value : String

pub record UserId : Type 0 where
  pub value : String

pub record IdempotencyKey : Type 0 where
  pub value : String

-- The constructors throw on a blank value: `none`.
unfoldable pub new_user_id : String → Option UserId
new_user_id value =
    if is_empty value || is_empty (trim value) then none else some (record { value = value })

unfoldable pub new_idempotency_key : String → Option IdempotencyKey
new_idempotency_key value =
    if is_empty value || is_empty (trim value) then none else some (record { value = value })
