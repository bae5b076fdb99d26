-- ===== src/Value.antt =====
-- A JavaScript value of type `unknown`, as `JSON.parse` and the queue's storage give it. The
-- numbers are those of the parameter `N`. An object is its list of fields; a property that it
-- does not have reads as `undefined`.
use recipe_import_from_anyth.Base.{
  Bool, true, false, List, [], ◌∷◌, String, ◌==◌, if◌then◌else◌, Option, none, some, ◌≡◌, refl, ap,
  Bool-cases, inl, inr, eq_refl, eq_iff, arith,
}

mutual
  pub data Value (N : Type 0) : Type 0 where
    undefined null : Value N
    bool : Bool → Value N
    num : N → Value N
    str : String → Value N
    arr : Items N → Value N
    obj : Fields N → Value N

  pub data Items (N : Type 0) : Type 0 where
    nil : Items N
    cons : Value N → Items N → Items N

  pub data Fields (N : Type 0) : Type 0 where
    end : Fields N
    field : String → Value N → Fields N → Fields N

module _ {N : Type 0} where
  abbrev pub items : Items N → List (Value N)
  items nil = []
  items (cons x xs) = x ∷ items xs

  unfoldable pub lookup : String → Fields N → Value N
  lookup key end = undefined
  lookup key (field k v fs) = if k == key then v else lookup key fs

  -- `value.key` where `value` is an object or an array
  unfoldable pub get : String → Value N → Value N
  get key (obj fs) = lookup key fs
  get key _ = undefined

  -- `typeof value === "object" && value !== null`
  unfoldable pub is_object : Value N → Bool
  is_object (obj fs) = true
  is_object (arr xs) = true
  is_object _ = false

  -- the same without arrays: the `isRecord` of the normalizers and of the import handler
  unfoldable pub is_record : Value N → Bool
  is_record (obj fs) = true
  is_record _ = false

  -- `typeof value === "string" ? value : undefined`, and so for the others
  abbrev pub as_string : Value N → Option String
  as_string (str s) = some s
  as_string _ = none

  abbrev pub as_number : Value N → Option N
  as_number (num n) = some n
  as_number _ = none

  -- `a ?? b` on properties
  abbrev pub coalesce : Value N → Value N → Value N
  coalesce undefined b = b
  coalesce null b = b
  coalesce a b = a

  -- `{ ...fields, [key]: value }`
  unfoldable pub set_field : String → Value N → Fields N → Fields N
  set_field key value end = field key value end
  set_field key value (field k v fs) =
      let rest = set_field key value fs in if k == key then field k value fs else field k v rest

  pub lookup-set_field :
      (key : String) (value : Value N) (fs : Fields N) → lookup key (set_field key value fs) ≡ value
  unfolding lookup set_field
  lookup-set_field key value end = rw (eq_refl key) refl
  lookup-set_field key value (field k v fs) = elim (Bool-cases (k == key)) [
    | inl same ↦ rw (same, lookup, same) refl
    | inr other ↦ rw (other, lookup, other) (lookup-set_field key value fs)
  ]

  pub lookup-set_other :
      (j key : String) (value : Value N) (fs : Fields N)
      → (key == j) ≡ false
      → lookup j (set_field key value fs) ≡ lookup j fs
  unfolding lookup set_field
  lookup-set_other j key value end h = rw h refl
  lookup-set_other j key value (field k v fs) h = elim (Bool-cases (k == key)) [
    | inl same ↦
        let other : (k == j) ≡ false = ground (arith, eq_iff k key, eq_iff key j, eq_iff k j) in
        rw (same, lookup, other) refl
    | inr new ↦
        rw (new, lookup) (ap (λ t. if k == j then v else t) (lookup-set_other j key value fs h))
  ]
