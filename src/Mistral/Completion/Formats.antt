-- ===== src/Mistral/Completion/Formats.antt =====
-- The response formats of packages/pipeline-contracts/src/llm.ts, and the completion that
-- mistral-client.ts reads from the provider's answer.
use recipe_import_from_anyth.Base.{
  ◌≡◌, refl, subst, Bool, true, false, not, String, ◌==◌, append, is_empty, trim, Option, none,
  some, List, [], ◌∷◌, if◌then◌else◌, ◌>>=◌, Bool-cases, inl, inr,
}
use Prim.Native.String.{[], ◌∷◌}
use mathlib.Core.Option.{some-injective}
use recipe_import_from_anyth.Mistral.Ocr.Schemas.{all_items}
use recipe_import_from_anyth.Value.{
  Value, undefined, bool, str, arr, obj, Fields, field, end, items, get, lookup, as_string,
}

pub data LlmResponseFormat (N : Type 0) : Type 0 where
  text_format : LlmResponseFormat N
  json_object_format : LlmResponseFormat N
  json_schema_format : String → Option Bool → Value N → LlmResponseFormat N
  raw_format : Fields N → LlmResponseFormat N

join : List (Option String) → String
join [] = ""
join (none ∷ parts) = join parts
join (some text ∷ parts) = append text (join parts)

-- the content of a message, normalized
abbrev normalize_parts : Option (List (Option String)) → Option String
normalize_parts none = none
normalize_parts (some parts) = some (trim (join parts))

-- the first of at least one choice, where its content is not empty
first_content : Option (List String) → Option String
first_content none = none
first_content (some []) = none
first_content (some (content ∷ rest)) = if is_empty content then none else some content

first_content-filled :
    (o : Option (List String)) (content : String)
    → first_content o ≡ some content
    → is_empty content ≡ false
unfolding first_content
first_content-filled none content e = cc e
first_content-filled (some []) content e = cc e
first_content-filled (some (c ∷ rest)) content e = elim (Bool-cases (is_empty c)) [
  | inl empty ↦ cc (rw empty at e)
  | inr filled ↦ subst (λ t. is_empty t ≡ false) (some-injective _ _ (rw filled at e)) filled
]

-- `z.string().min(1)`
filled : String → Option String
filled s = if is_empty s then none else some s

filled-named : (name : String) → not (is_empty name) ≡ true → filled name ≡ some name
unfolding filled
filled-named [] h = cc h
filled-named (c ∷ s) h = refl

module _ {N : Type 0} where
  -- `z.boolean().optional()`
  optional_bool : Value N → Option (Option Bool)
  optional_bool undefined = some none
  optional_bool (bool b) = some (some b)
  optional_bool _ = none

  filled_string : Value N → Option String
  filled_string (str s) = filled s
  filled_string _ = none

  parse_json_schema : Value N → Option (LlmResponseFormat N)
  parse_json_schema (obj fs) = do
    name ← filled_string (get "name" (obj fs))
    strict ← optional_bool (get "strict" (obj fs))
    some (json_schema_format name strict (get "schema" (obj fs)))
  parse_json_schema _ = none

  parse_raw : Value N → Option (LlmResponseFormat N)
  parse_raw (obj fs) = some (raw_format fs)
  parse_raw _ = none

  format_of_type : String → Value N → Option (LlmResponseFormat N)
  format_of_type kind value =
      if kind == "text"
      then some text_format
      else (if kind == "json_object"
          then some json_object_format
          else (if kind == "json_schema"
              then parse_json_schema (get "json_schema" value)
              else (if kind == "raw" then parse_raw (get "value" value) else none)))

  pub parse_llm_response_format : Value N → Option (LlmResponseFormat N)
  parse_llm_response_format (obj fs) = do
    kind ← as_string (get "type" (obj fs))
    format_of_type kind (obj fs)
  parse_llm_response_format _ = none

  abbrev strict_field : Option Bool → Fields N → Fields N
  strict_field none rest = rest
  strict_field (some b) rest = field "strict" (bool b) rest

  pub resolve_response_format_payload : LlmResponseFormat N → Value N
  resolve_response_format_payload (raw_format fs) = obj fs
  resolve_response_format_payload text_format = obj (field "type" (str "text") end)
  resolve_response_format_payload json_object_format = obj (field "type" (str "json_object") end)
  resolve_response_format_payload (json_schema_format name strict schema) = obj (
      field "type" (str "json_schema") (
        field "json_schema"
          (obj (field "name" (str name) (strict_field strict (field "schema" schema end)))) end))

  -- A format other than a raw one, whose schema has a name.
  abbrev pub is_named : LlmResponseFormat N → Bool
  is_named text_format = true
  is_named json_object_format = true
  is_named (json_schema_format name strict schema) = not (is_empty name)
  is_named (raw_format fs) = false

  -- The payload of a format that is not raw, and whose schema has a name that is not empty, is read
  -- as that same format.
  pub parse_llm_response_format-payload :
      (f : LlmResponseFormat N)
      → is_named f ≡ true
      → parse_llm_response_format (resolve_response_format_payload f) ≡ some f
  unfolding parse_llm_response_format resolve_response_format_payload format_of_type
      parse_json_schema get lookup optional_bool filled_string
  parse_llm_response_format-payload text_format h = refl
  parse_llm_response_format-payload json_object_format h = refl
  parse_llm_response_format-payload (json_schema_format name none schema) h =
      rw (filled-named name h) refl
  parse_llm_response_format-payload (json_schema_format name (some b) schema) h =
      rw (filled-named name h) refl
  parse_llm_response_format-payload (raw_format fs) h = cc h

  -- `contentPartSchema`: the text of a part, `part.text ?? ""`
  optional_string : Value N → Option (Option String)
  optional_string undefined = some none
  optional_string (str s) = some (some s)
  optional_string _ = none

  parse_content_part : Value N → Option (Option String)
  parse_content_part (obj fs) = do
    kind ← optional_string (get "type" (obj fs))
    optional_string (get "text" (obj fs))
  parse_content_part _ = none

  normalize_content : Value N → Option String
  normalize_content (str s) = some s
  normalize_content (arr xs) = normalize_parts (all_items parse_content_part (items xs))
  normalize_content _ = none

  parse_message : Value N → Option String
  parse_message (obj fs) = normalize_content (get "content" (obj fs))
  parse_message _ = none

  parse_choice : Value N → Option String
  parse_choice (obj fs) = parse_message (get "message" (obj fs))
  parse_choice _ = none

  parse_choices : Value N → Option (List String)
  parse_choices (arr xs) = all_items parse_choice (items xs)
  parse_choices _ = none

  pub parse_completion_response : Value N → Option String
  parse_completion_response (obj fs) = first_content (parse_choices (get "choices" (obj fs)))
  parse_completion_response _ = none

  pub parse_completion_response-filled :
      (payload : Value N) (content : String)
      → parse_completion_response payload ≡ some content
      → is_empty content ≡ false
  unfolding parse_completion_response
  parse_completion_response-filled (obj fs) content e = first_content-filled _ content e
  parse_completion_response-filled _ content e = cc e
