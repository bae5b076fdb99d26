-- ===== src/Identity.antt =====
-- packages/domain-driven-design/src: what it is for two identifiers, entities and value objects to
-- be equal. Whether two names stand for one object in memory is an argument, as is dayjs.
pub mod Shallow
mod Examples
use recipe_import_from_anyth.Base.{
  ℕ, ◌≡◌, ◌↔◌, refl, ap, Bool, true, false, not, ◌&&◌, String, ◌==◌, Option, none, some, List, [],
  ◌∷◌, length, eqb, is_empty, if◌then◌else◌,
}
use recipe_import_from_anyth.Base.Map.{Map, get}

-- A JavaScript value as `===` and dayjs see it.
pub record Comparison (V : Type 0) : Type 0 where
  pub undefined : V
  -- `a === b`
  pub strict : V → V → Bool
  -- dayjs.isDayjs(a), and whether the times of two such values are the same
  pub is_dayjs : V → Bool
  pub same_time : V → V → Bool

module _ {V : Type 0} (C : Comparison V) where
  open C use {undefined, strict, is_dayjs, same_time}

  -- `obj[key]`
  abbrev pub read : Option V → V
  read none = undefined
  read (some v) = v

  abbrev pub same_value : V → V → Bool
  same_value a b = if is_dayjs a && is_dayjs b then same_time a b else strict a b

  -- the loop over the keys of the first object
  unfoldable pub all_same : Map V → Map V → Map V → Bool
  unfolding get
  all_same [] a b = true
  all_same ((key, v) ∷ entries) a b =
      same_value (read (get key a)) (read (get key b)) && all_same entries a b

  unfoldable pub compare_entries : Map V → Map V → Bool
  unfolding all_same
  compare_entries a b = if eqb (length a) (length b) then all_same a a b else false

  -- `shallowEqual`; an object is missing where it is null or undefined.
  unfoldable pub shallow_equal : Bool → Option (Map V) → Option (Map V) → Bool
  unfolding compare_entries
  shallow_equal true a b = true
  shallow_equal false (some a) (some b) = compare_entries a b
  shallow_equal false _ b = false

  -- `ValueObject.equals`: the other object, if there is one, and its `props`, if it has them
  unfoldable pub value_equals : Bool → Map V → Option (Option (Map V)) → Bool
  unfolding shallow_equal
  value_equals same props none = false
  value_equals same props (some none) = false
  value_equals same props (some (some others)) = shallow_equal same (some props) (some others)

-- An identifier has the name of its class, and the names of the classes that this one extends.
pub record Identifier : Type 0 where
  pub classes : List String
  pub constructor_name : String
  pub value : String

is_instance : List String → String → Bool
is_instance [] name = false
is_instance (c ∷ classes) name = if c == name then true else is_instance classes name

-- `this.equals(id)`
identifier_equals : Identifier → Option Identifier → Bool
unfolding is_instance
identifier_equals this none = false
identifier_equals this (some id) =
    is_instance id.classes this.constructor_name && id.value == this.value

-- What `Entity.equals` is called with: nothing, something that is no entity, or an entity by its
-- id.
pub data Compared : Type 0 where
  nothing no_entity : Compared
  entity : Identifier → Compared

-- `Entity.equals`
entity_equals : Identifier → Bool → Compared → Bool
entity_equals this same nothing = false
entity_equals this true other = true
entity_equals this false no_entity = false
entity_equals this false (entity id) = identifier_equals this (some id)
