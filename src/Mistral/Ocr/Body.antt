-- ===== src/Mistral/Ocr/Body.antt =====
-- The settings of mistral-ocr-client.ts, its request body and the text of a provider's error.
-- JSON.parse is a parameter.
use recipe_import_from_anyth.Base.{
  ℕ, ◌<◌, arith, true, String, append, is_empty, trim, Option, none, some, ◌or◌, List, [], ◌∷◌,
  if◌then◌else◌, head_units,
}
use recipe_import_from_anyth.Mistral.Settings.{
  Env, Settled, or_reject, sanitize_base_url, configured, positive_or, at_least_one_or,
  at_least_one_or-bound, parsed_variable,
}
use recipe_import_from_anyth.Value.{
  Value, bool, str, obj, Fields, field, end, get, is_object, as_string,
}

pub record OcrDocument : Type 0 where
  pub bytes : List ℕ
  pub filename : String
  pub mime_type : String

pub record OcrRequest (N : Type 0) : Type 0 where
  pub document : OcrDocument
  pub model : Option String
  pub document_annotation_prompt : Option String
  pub document_annotation_schema : Option (Fields N)

module _ (env : Env) where
  pub resolve_base_url : String
  resolve_base_url = elim (configured (env "MISTRAL_API_BASE_URL")) [
    | none ↦ "https://api.mistral.ai"
    | some url ↦ sanitize_base_url url
  ]

  unfoldable pub resolve_api_key : Settled String
  resolve_api_key =
      or_reject "MISTRAL_API_KEY is required to use document OCR"
        (configured (env "MISTRAL_API_KEY"))

  pub resolve_timeout_ms : ℕ
  resolve_timeout_ms = positive_or 90000 (parsed_variable (env "MISTRAL_OCR_TIMEOUT_MS"))

  pub resolve_retry_attempts : ℕ
  resolve_retry_attempts = at_least_one_or 2 (parsed_variable (env "MISTRAL_OCR_RETRY_ATTEMPTS"))

  pub resolve_retry_attempts-bound : 0 < resolve_retry_attempts
  unfolding resolve_retry_attempts
  resolve_retry_attempts-bound =
      at_least_one_or-bound 2 (parsed_variable (env "MISTRAL_OCR_RETRY_ATTEMPTS")) (omega arith)

  pub resolve_retry_base_delay_ms : ℕ
  resolve_retry_base_delay_ms =
      positive_or 700 (parsed_variable (env "MISTRAL_OCR_RETRY_BASE_DELAY_MS"))

  pub resolve_ocr_model : Option String → String
  resolve_ocr_model requested =
      configured requested or configured (env "MISTRAL_OCR_MODEL") or "mistral-ocr-latest"

  module _ {N : Type 0} where
    abbrev format_field : Option (Fields N) → Fields N → Fields N
    format_field none rest = rest
    format_field (some schema) rest =
        field "document_annotation_format"
          (obj (
            field "type" (str "json_schema") (
              field "json_schema"
                (obj (
                  field "name" (str "recipe_document_extraction")
                    (field "strict" (bool true) (field "schema" (obj schema) end))))
                end)))
          rest

    abbrev prompt_field : Option String → Fields N
    prompt_field none = end
    prompt_field (some prompt) = field "document_annotation_prompt" (str prompt) end

    pub create_ocr_request_body : OcrRequest N → String → Value N
    create_ocr_request_body request file_id = obj (
        field "model" (str (resolve_ocr_model request.model)) (
          field "document" (obj (field "type" (str "file") (field "file_id" (str file_id) end))) (
            format_field request.document_annotation_schema
              (prompt_field (configured request.document_annotation_prompt)))))

-- `segments.filter(...).join(", ")`
join_filled : List String → String
join_filled [] = ""
join_filled (s ∷ rest) =
    let tail = join_filled rest in
    if is_empty s then tail else (if is_empty tail then s else append s (append ", " tail))

module _ {N : Type 0} (json : String → Option (Value N)) where
  abbrev text_field : String → Value N → String
  text_field key value = elim (as_string (get key value)) [ none ↦ "" | some s ↦ trim s ]

  abbrev labelled : String → String → String
  labelled label s = if is_empty s then "" else append label s

  segments : Value N → List String
  segments value =
      text_field "message" value
      ∷ labelled "type=" (text_field "type" value)
      ∷ labelled "code=" (text_field "code" value)
      ∷ []

  provider_message : Option (Value N) → String
  provider_message none = ""
  provider_message (some value) = if is_object value then join_filled (segments value) else ""

  pub format_provider_error_body : String → String
  format_provider_error_body value =
      let trimmed = trim value in
      let message = provider_message (json trimmed) in
      if is_empty trimmed
      then "Empty response body"
      else (if is_empty message then head_units 300 trimmed else message)
