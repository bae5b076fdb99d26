-- ===== src/Mistral/Completion.antt =====
-- src/infrastructure/mistral-client.ts: a chat completion. What its attempts meet is a parameter.
pub mod Formats
use recipe_import_from_anyth.Base.{
  ℕ, ◌<◌, ◌≡◌, refl, Bool, true, false, String, append, is_empty, Option, none, some, ◌or◌, List,
  [], ◌∷◌, if◌then◌else◌, decimal, arith,
}
use recipe_import_from_anyth.Mistral.Settings.{
  Env, Settled, fulfilled, rejected, error, or_reject, or_reject-fulfilled, sanitize_base_url,
  configured, positive_or, at_least_one_or, at_least_one_or-bound, parsed_variable,
}
use recipe_import_from_anyth.Mistral.Retry.{Try, Call, as_error, with_retries}
use recipe_import_from_anyth.Mistral.Retry.Runs.{with_retries-Reads}
use recipe_import_from_anyth.Mistral.Completion.Formats.{
  LlmResponseFormat, parse_llm_response_format, resolve_response_format_payload,
  parse_completion_response, parse_completion_response-filled,
}
use recipe_import_from_anyth.Value.{
  Value, undefined, num, str, arr, obj, Items, nil, cons, Fields, field, end,
}

pub data LlmMessageRole : Type 0 where
  system user assistant : LlmMessageRole

pub record LlmMessage : Type 0 where
  pub role : LlmMessageRole
  pub content : String

pub record LlmCompletionRequest (N : Type 0) : Type 0 where
  pub messages : List LlmMessage
  pub model : Option String
  pub temperature : Option N
  pub max_tokens : Option N
  pub response_format : Value N

abbrev role_name : LlmMessageRole → String
role_name system = "system"
role_name user = "user"
role_name assistant = "assistant"

module _ (env : Env) where
  pub resolve_endpoint : String
  resolve_endpoint =
      append
        (sanitize_base_url (configured (env "MISTRAL_API_BASE_URL") or "https://api.mistral.ai"))
        "/v1/chat/completions"

  unfoldable pub resolve_api_key : Settled String
  resolve_api_key =
      or_reject "MISTRAL_API_KEY is required to use the text LLM pipeline"
        (configured (env "MISTRAL_API_KEY"))

  pub resolve_timeout_ms : ℕ
  resolve_timeout_ms = positive_or 45000 (parsed_variable (env "MISTRAL_TIMEOUT_MS"))

  pub resolve_model : Option String → String
  resolve_model requested =
      configured requested or configured (env "MISTRAL_MODEL") or "mistral-small-latest"

  pub resolve_retry_attempts : ℕ
  resolve_retry_attempts = at_least_one_or 2 (parsed_variable (env "MISTRAL_RETRY_ATTEMPTS"))

  pub resolve_retry_base_delay_ms : ℕ
  resolve_retry_base_delay_ms =
      positive_or 500 (parsed_variable (env "MISTRAL_RETRY_BASE_DELAY_MS"))

module _ {N : Type 0} where
  messages_value : List LlmMessage → Items N
  messages_value [] = nil
  messages_value (m ∷ ms) =
      cons (obj (field "role" (str (role_name m.role)) (field "content" (str m.content) end)))
        (messages_value ms)

  -- the format of a request, where it is a valid one
  parse_response_format : Value N → Option (Option (LlmResponseFormat N))
  parse_response_format undefined = some none
  parse_response_format value = elim (parse_llm_response_format value) [
    | none ↦ none
    | some f ↦ some (some f)
  ]

  abbrev format_field : Option (LlmResponseFormat N) → Fields N
  format_field none = end
  format_field (some f) = field "response_format" (resolve_response_format_payload f) end

  abbrev max_tokens_field : Option N → Fields N → Fields N
  max_tokens_field none rest = rest
  max_tokens_field (some n) rest = field "max_tokens" (num n) rest

  -- `nought` is the number 0.
  pub build_request_body : N → Env → LlmCompletionRequest N → Option (Value N)
  build_request_body nought env request = elim (parse_response_format request.response_format) [
    | none ↦ none
    | some format ↦ some (
        obj (
          field "model" (str (resolve_model env request.model)) (
            field "messages" (arr (messages_value request.messages)) (
              field "temperature" (num (request.temperature or nought))
                (max_tokens_field request.max_tokens (format_field format))))))
  ]

abbrev timed_out_or_aborted : Bool → String
timed_out_or_aborted true = "Mistral completion timed out"
timed_out_or_aborted false = "Mistral completion aborted"

abbrev pub completion_call : (N : Type 0) → Call N String
completion_call N = record {
  status_error = λ status body. append "Mistral completion failed with status " (decimal status);
  read = λ payload.
      or_reject "Invalid response received from Mistral completion API"
        (parse_completion_response payload);
  aborted_error = timed_out_or_aborted;
  unknown_error = "Unknown error while calling Mistral completion API";
  exhausted = "Mistral completion failed after exhausting retries";
}

module _ {N : Type 0} (nought : N) (env : Env) where
  -- the `try`, with the outer `catch`, which gives an error its message where it has none
  abbrev or_error : Settled String → Settled String
  or_error (fulfilled content) = fulfilled content
  or_error (rejected r) = rejected (as_error "Unknown error while calling Mistral completion API" r)

  complete_with : Settled String → Option (Value N) → (ℕ → Try N) → Settled String
  complete_with (rejected r) body tries = rejected r
  complete_with (fulfilled key) none tries =
      rejected (error "Invalid response format provided to Mistral client")
  complete_with (fulfilled key) (some body) tries =
      or_error
        (with_retries (completion_call N) (resolve_retry_attempts env)
          (resolve_retry_base_delay_ms env) tries).0

  pub complete : LlmCompletionRequest N → (ℕ → Try N) → Settled String
  complete request tries =
      complete_with (resolve_api_key env) (build_request_body nought env request) tries

  resolve_retry_attempts-bound : 0 < resolve_retry_attempts env
  unfolding resolve_retry_attempts
  resolve_retry_attempts-bound = at_least_one_or-bound 2 _ (omega arith)

  or_error-fulfilled :
      (s : Settled String) (content : String)
      → or_error s ≡ fulfilled content
      → s ≡ fulfilled content
  or_error-fulfilled (fulfilled c) content e = e
  or_error-fulfilled (rejected r) content e = cc e

  read-filled :
      (payload : Value N) (content : String)
      → (completion_call N).read payload ≡ fulfilled content
      → is_empty content ≡ false
  read-filled payload content e =
      parse_completion_response-filled payload content (or_reject-fulfilled _ _ content e)

  complete_with-filled :
      (key : Settled String) (body : Option (Value N)) (tries : ℕ → Try N) (content : String)
      → complete_with key body tries ≡ fulfilled content
      → is_empty content ≡ false
  unfolding complete_with
  complete_with-filled (rejected r) body tries content e = cc e
  complete_with-filled (fulfilled key) none tries content e = cc e
  complete_with-filled (fulfilled key) (some body) tries content e =
      let (payload, p) =
        with_retries-Reads (completion_call N) _ _ tries content resolve_retry_attempts-bound
          (or_error-fulfilled _ content e) in
      read-filled payload content p

  -- A completion that is returned is never the empty text.
  pub complete-filled :
      (request : LlmCompletionRequest N) (tries : ℕ → Try N) (content : String)
      → complete request tries ≡ fulfilled content
      → is_empty content ≡ false
  unfolding complete
  complete-filled request tries content = complete_with-filled _ _ tries content
