-- ===== src/Recipe/Ingredients/Steps.antt =====
-- Instructions that are read again are as they were.
use recipe_import_from_anyth.Base.{
  ℕ, ◌≡◌, refl, ap, ◌∙◌, String, Option, none, some, OnSome, OnSome-intro, All, All-collect_from,
  All-map, nonempty_list_self, collect_from, nonempty_list, nonempty_list-All, Bool-cases, inl, inr,
}
use recipe_import_from_anyth.Value.{Value, undefined, str, arr, obj, items, get, lookup, coalesce}
use recipe_import_from_anyth.Recipe.Numbers.{Floats, to_finite_number}
use recipe_import_from_anyth.Recipe.Numbers.Counts.{
  FloatLaws, IsFinite, IsWhole, index-IsWhole, round-IsWhole,
}
use recipe_import_from_anyth.Recipe.Texts.{
  to_non_empty_string-IsTidy, to_non_empty_string-tidy, IsTidy, text_at-IsTidy,
}
use recipe_import_from_anyth.Recipe.Types.{CanonicalInstruction}
use recipe_import_from_anyth.Recipe.Encoding.{
  number_value, instruction_value, items_of, collect_from-items_of,
}
use recipe_import_from_anyth.Recipe.Ingredients.{
  instruction_with, text_instruction, normalize_instruction, duration_of,
  normalize_instruction_list,
}
use recipe_import_from_anyth.Recipe.Ingredients.WellFormed.{or?-OnSome, OnSome-at}
use recipe_import_from_anyth.Recipe.Ingredients.Again.{All-both, order-read, order_or-IsWhole}

module _ (F : Floats) (L : FloatLaws F) where
  open F use {Num}

  -- An instruction whose numbers are finite.
  pub record IsFiniteInstruction (i : CanonicalInstruction Num) : Type 0 where
    pub order : IsFinite F L i.order
    pub duration_min : OnSome (IsFinite F L) i.duration_min

  -- An instruction whose text is tidy and whose numbers are whole.
  record IsTold (i : CanonicalInstruction Num) : Type 0 where
    text : IsTidy i.text
    order : IsWhole F L i.order
    duration_min : OnSome (IsWhole F L) i.duration_min

  duration-read :
      (o : Option Num)
      → OnSome (IsWhole F L) o
      → OnSome (IsFinite F L) o
      → duration_of F (to_finite_number F (coalesce (number_value o) undefined)) ≡ o
  unfolding duration_of to_finite_number
  duration-read none h f = refl
  duration-read (some x) h f = rw (f, h.sign) (ap some h.whole)

  instruction_value-read :
      (index : ℕ) (i : CanonicalInstruction Num)
      → IsTold i
      → IsFiniteInstruction i
      → normalize_instruction F index (instruction_value i) ≡ some i
  unfolding normalize_instruction instruction_with get lookup
  instruction_value-read index i h f =
      rw
        (
          to_non_empty_string-tidy Num i.text h.text,
          order-read F L i.order index h.order f.order,
          duration-read i.duration_min h.duration_min f.duration_min,
        )
        refl

  duration_of-IsWhole : (o : Option Num) → OnSome (IsWhole F L) (duration_of F o)
  unfolding duration_of
  duration_of-IsWhole none = tt
  duration_of-IsWhole (some x) = elim (Bool-cases (F.is_negative x)) [
    | inl below ↦ rw below tt
    | inr sign ↦ rw sign (round-IsWhole F L x sign)
  ]

  instruction_with-IsTold :
      (index : ℕ) (v : Value Num) (text : Option String)
      → OnSome IsTidy text
      → OnSome IsTold (instruction_with F index v text)
  unfolding instruction_with
  instruction_with-IsTold index v none h = tt
  instruction_with-IsTold index v (some text) h = record {
    text = h;
    order = order_or-IsWhole F L _ index;
    duration_min = duration_of-IsWhole _;
  }

  text_instruction-IsTold :
      (index : ℕ) (text : Option String)
      → OnSome IsTidy text
      → OnSome IsTold (text_instruction F index text)
  unfolding text_instruction
  text_instruction-IsTold index none h = tt
  text_instruction-IsTold index (some text) h = record {
    text = h;
    order = index-IsWhole F L index;
    duration_min = tt;
  }

  normalize_instruction-IsTold :
      (index : ℕ) (v : Value Num) → OnSome IsTold (normalize_instruction F index v)
  unfolding normalize_instruction
  normalize_instruction-IsTold index (str s) =
      text_instruction-IsTold index _ (OnSome-intro _ (to_non_empty_string-IsTidy (str s)))
  normalize_instruction-IsTold index (obj fs) =
      instruction_with-IsTold index (obj fs) _
        (or?-OnSome IsTidy _ _ (text_at-IsTidy "text" (obj fs)) (text_at-IsTidy "name" (obj fs)))
  normalize_instruction-IsTold index _ = tt

  -- A list of instructions that is read, with finite numbers, is read again as it is.
  pub normalize_instruction_list-read :
      (v : Value Num)
      → OnSome (All IsFiniteInstruction) (normalize_instruction_list F v)
      → OnSome
          (λ xs. normalize_instruction_list F (arr (items_of instruction_value xs)) ≡ some xs)
          (normalize_instruction_list F v)
  unfolding normalize_instruction_list
  normalize_instruction_list-read (arr ys) f = OnSome-intro _ (λ xs e.
      let (told, inhabited) =
        nonempty_list-All IsTold (collect_from (normalize_instruction F) 0 (items ys)) xs
          (All-collect_from IsTold (normalize_instruction F)
            (λ i v y h. OnSome-at IsTold _ y (normalize_instruction-IsTold i v) h) 0 (items ys))
          e in
      ap nonempty_list (
        collect_from-items_of (normalize_instruction F) instruction_value 0 xs (
          All-map (λ x h index. instruction_value-read index x h.0 h.1) xs
            (All-both _ _ xs told (OnSome-at (All IsFiniteInstruction) _ xs f e))))
      ∙ nonempty_list_self xs inhabited)
  normalize_instruction_list-read _ f = tt

  pub instruction_list-missing : normalize_instruction_list F undefined ≡ none
  unfolding normalize_instruction_list
  instruction_list-missing = refl
