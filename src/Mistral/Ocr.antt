-- ===== src/Mistral/Ocr.antt =====
-- src/infrastructure/mistral-ocr-client.ts: the upload of a document, its reading, and the removal
-- of the uploaded file. `JSON.parse`, zod's tests of numbers and what the attempts meet are
-- parameters.
pub mod Schemas
pub mod Body
pub mod Removal
use recipe_import_from_anyth.Base.{
  ℕ, suc, ◌<◌, ◌≡◌, refl, sym, ap, ◌∙◌, max, Bool, true, false, ◌&&◌, String, append, is_empty,
  Option, none, some, List, [], ◌∷◌, ◌++◌, if◌then◌else◌, decimal, arith, Bool-cases, inl, inr,
  collect,
}
use recipe_import_from_anyth.Value.{Value}
use recipe_import_from_anyth.Mistral.Settings.{
  Env, Raised, Settled, fulfilled, rejected, error, parsed_variable, at_least_one_or-bound,
}
use recipe_import_from_anyth.Mistral.Retry.{Try, Call, as_error, with_retries}
use recipe_import_from_anyth.Mistral.Retry.Runs.{with_retries-Reads}
use recipe_import_from_anyth.Mistral.Ocr.Schemas.{
  OcrResponse, read_uploaded_file, read_uploaded_file-nonempty, read_ocr_response,
}
use recipe_import_from_anyth.Mistral.Ocr.Body.{
  OcrDocument, OcrRequest, resolve_base_url, resolve_api_key, resolve_retry_attempts,
  resolve_retry_base_delay_ms, create_ocr_request_body, format_provider_error_body,
}

-- The requests to the provider, each with its URL and the API key.
pub data HttpRequest (N : Type 0) : Type 0 where
  post_file : String → String → OcrDocument → HttpRequest N
  post_json : String → String → Value N → HttpRequest N
  delete_file : String → String → HttpRequest N

-- What the attempts of the two loops meet, and what `extract` reads in its `catch`.
pub record OcrWorld (N : Type 0) : Type 0 where
  pub uploads : ℕ → Try N
  pub runs : ℕ → Try N
  pub aborted : Bool
  pub timed_out : Bool

-- One request for each attempt: the first, and one after each delay.
pub one_each {ℓ} : {A : Type ℓ} → A → List ℕ → List A
one_each x [] = x ∷ []
one_each x (d ∷ delays) = x ∷ one_each x delays

abbrev pub upload_call : (N : Type 0) → Call N String
upload_call N = record {
  status_error =
      λ status body. append "Mistral OCR file upload failed with status " (decimal status);
  read = read_uploaded_file;
  aborted_error = λ timed_out. "Mistral OCR aborted";
  unknown_error = "Unknown error while uploading file to Mistral OCR";
  exhausted = "Mistral OCR file upload failed after exhausting retries";
}

abbrev pub files_url : Env → String
files_url env = append (resolve_base_url env) "/v1/files"

module _ {N : Type 0} (env : Env) where
  pub upload_file : (ℕ → Try N) → Settled String × List ℕ
  upload_file tries =
      with_retries (upload_call N) (resolve_retry_attempts env) (resolve_retry_base_delay_ms env)
        tries

module _ {N : Type 0} (is_int is_negative : N → Bool) (json : String → Option (Value N))
    (env : Env) where
  abbrev pub run_call : Call N (OcrResponse N)
  run_call = record {
    status_error = λ status body.
        append "Mistral OCR extraction failed with status "
          (append (decimal status) (append ": " (format_provider_error_body json body)));
    read = read_ocr_response is_int is_negative;
    aborted_error = λ timed_out. "Mistral OCR aborted";
    unknown_error = "Unknown error while running Mistral OCR";
    exhausted = "Mistral OCR extraction failed after exhausting retries";
  }

  pub run_ocr : (ℕ → Try N) → Settled (OcrResponse N) × List ℕ
  run_ocr tries =
      with_retries run_call (resolve_retry_attempts env) (resolve_retry_base_delay_ms env) tries

  -- What the provider answers is not read, and neither is a failure of this request.
  abbrev pub delete_uploaded_file : String → String → HttpRequest N
  delete_uploaded_file key id = delete_file (append (files_url env) (append "/" id)) key

  -- the `finally`: `if (uploadedFileId)`
  pub cleanup : String → String → List (HttpRequest N)
  cleanup key id = if is_empty id then [] else delete_uploaded_file key id ∷ []

  -- the `catch`
  abbrev pub translate : OcrWorld N → Raised → Settled (OcrResponse N)
  translate w r =
      if w.aborted && w.timed_out
      then rejected (error "Mistral OCR timed out")
      else rejected (as_error "Unknown error while calling Mistral OCR API" r)

  abbrev pub or_translate : OcrWorld N → Settled (OcrResponse N) → Settled (OcrResponse N)
  or_translate w (fulfilled response) = fulfilled response
  or_translate w (rejected r) = translate w r

  -- after `uploadFile`, with what it gave and its delays
  pub after_upload :
      OcrRequest N
      → OcrWorld N
      → String
      → Settled String × List ℕ
      → Settled (OcrResponse N) × List (HttpRequest N)
  after_upload request w key (rejected r, delays) =
      (translate w r, one_each (post_file (files_url env) key request.document) delays)
  after_upload request w key (fulfilled id, delays) =
      let (result, more) = run_ocr w.runs in
      let body = create_ocr_request_body env request id in
      (
        or_translate w result,
        one_each (post_file (files_url env) key request.document) delays
            ++ (one_each (post_json (append (resolve_base_url env) "/v1/ocr") key body) more
                ++ cleanup key id),
      )

  -- `extract`, and the requests that it sends, in their order
  pub extract_with :
      OcrRequest N → OcrWorld N → Settled String → Settled (OcrResponse N) × List (HttpRequest N)
  extract_with request w (rejected r) = (rejected r, [])
  extract_with request w (fulfilled key) = after_upload request w key (upload_file env w.uploads)

  pub extract : OcrRequest N → OcrWorld N → Settled (OcrResponse N) × List (HttpRequest N)
  extract request w = extract_with request w (resolve_api_key env)

-- What a request removes, if it is a removal.
pub removed : {N : Type 0} → HttpRequest N → Option String
removed (delete_file url key) = some url
removed _ = none

pub removals : {N : Type 0} → List (HttpRequest N) → List String
removals requests = collect removed requests
