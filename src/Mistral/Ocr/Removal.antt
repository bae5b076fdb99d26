-- ===== src/Mistral/Ocr/Removal.antt =====
-- The files that `extract` removes from the provider.
use recipe_import_from_anyth.Base.{
  ℕ, ◌≡◌, refl, ◌∙◌, Bool, false, String, append, is_empty, Option, none, List, [], ◌∷◌, ◌++◌,
}
use recipe_import_from_anyth.Value.{Value}
use recipe_import_from_anyth.Mistral.Settings.{Env, Settled, fulfilled, rejected}
use recipe_import_from_anyth.Mistral.Retry.{Try}
use recipe_import_from_anyth.Mistral.Retry.Runs.{with_retries-Reads}
use recipe_import_from_anyth.Mistral.Ocr.Schemas.{read_uploaded_file-nonempty}
use recipe_import_from_anyth.Mistral.Ocr.Body.{
  OcrRequest, resolve_base_url, resolve_api_key, resolve_retry_attempts-bound,
  create_ocr_request_body,
}
use recipe_import_from_anyth.Mistral.Ocr.{
  HttpRequest, post_file, post_json, OcrWorld, one_each, upload_call, upload_file, files_url,
  run_ocr, cleanup, after_upload, extract_with, extract, removed, removals,
}

-- The files that an upload leaves at the provider.
abbrev pub left_by : Env → Settled String → List String
left_by env (fulfilled id) = append (files_url env) (append "/" id) ∷ []
left_by env (rejected r) = []

module _ {N : Type 0} where
  removals-one_each :
      (x : HttpRequest N) (delays : List ℕ) → removed x ≡ none → removals (one_each x delays) ≡ []
  unfolding one_each removals
  removals-one_each x [] e = rw e refl
  removals-one_each x (d ∷ delays) e = rw e (removals-one_each x delays e)

  removals-append :
      (x : HttpRequest N) (delays : List ℕ) (rest : List (HttpRequest N))
      → removed x ≡ none
      → removals (one_each x delays ++ rest) ≡ removals rest
  unfolding one_each removals
  removals-append x [] rest e = rw e refl
  removals-append x (d ∷ delays) rest e = rw e (removals-append x delays rest e)

  removals-both :
      (x y : HttpRequest N) (ds es : List ℕ) (rest : List (HttpRequest N))
      → removed x ≡ none
      → removed y ≡ none
      → removals (one_each x ds ++ (one_each y es ++ rest)) ≡ removals rest
  removals-both x y ds es rest p q =
      removals-append x ds (one_each y es ++ rest) p ∙ removals-append y es rest q

  upload_file-nonempty :
      (env : Env) (tries : ℕ → Try N) (id : String)
      → (upload_file env tries).0 ≡ fulfilled id
      → is_empty id ≡ false
  unfolding upload_file
  upload_file-nonempty env tries id e =
      let (payload, p) =
        with_retries-Reads (upload_call N) _ _ tries id (resolve_retry_attempts-bound env) e in
      read_uploaded_file-nonempty payload id p

module _ {N : Type 0} (is_int is_negative : N → Bool) (json : String → Option (Value N))
    (env : Env) where
  removals-after_upload :
      (request : OcrRequest N) (w : OcrWorld N) (key : String) (result : Settled String)
      (delays : List ℕ)
      → ((id : String) → result ≡ fulfilled id → is_empty id ≡ false)
      → removals (after_upload is_int is_negative json env request w key (result, delays)).1
        ≡ left_by env result
  unfolding after_upload cleanup removals removed
  removals-after_upload request w key (rejected r) delays h = removals-one_each _ delays refl
  removals-after_upload request w key (fulfilled id) delays h =
      removals-both (post_file (files_url env) key request.document)
        (post_json (append (resolve_base_url env) "/v1/ocr") key
          (create_ocr_request_body env request id))
        delays (run_ocr is_int is_negative json env w.runs).1
        (cleanup is_int is_negative json env key id) refl refl
      ∙ rw (h id refl) refl

  -- Where the API key is configured, `extract` asks the provider to remove exactly the file that
  -- its upload left there, if the upload succeeded, whatever then happens to the OCR request, to
  -- the signal and to the timer.
  pub removals-extract :
      (request : OcrRequest N) (w : OcrWorld N) (key : String)
      → resolve_api_key env ≡ fulfilled key
      → removals (extract is_int is_negative json env request w).1
        ≡ left_by env (upload_file env w.uploads).0
  unfolding extract extract_with
  removals-extract request w key e =
      rw e (removals-after_upload request w key _ _ (upload_file-nonempty env w.uploads))
