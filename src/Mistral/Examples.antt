-- ===== src/Mistral/Examples.antt =====
-- The theorems of the clients at two attempts: the provider is unavailable, and then answers.
use recipe_import_from_anyth.Base.{
  ◌==◌, ℕ, ◌<◌, ◌≡◌, refl, eqb, Bool, true, false, String, Option, none, some, [], ◌∷◌, length,
  arith, trim,
}
use recipe_import_from_anyth.Value.{Value, str, obj, field, end}
use recipe_import_from_anyth.Mistral.Settings.{Env, fulfilled, rejected, type_error, configured}
use recipe_import_from_anyth.Mistral.Retry.{Try, with_retries}
use recipe_import_from_anyth.Mistral.Retry.Runs.{Run, Spaced, with_retries-Run, with_retries-Spaced}
use recipe_import_from_anyth.Mistral.Ocr.{OcrWorld, upload_call, upload_file, extract, removals}
use recipe_import_from_anyth.Mistral.Ocr.Body.{OcrRequest, resolve_api_key}
use recipe_import_from_anyth.Mistral.Ocr.Removal.{left_by, removals-extract}

abbrev file_f1 : Value ℕ
file_f1 = obj (field "id" (str "f1") end)

abbrev answer : ℕ → Value ℕ → Try ℕ
answer status value = record {
  fetched = fulfilled (record { status = status; text = fulfilled ""; json = fulfilled value });
  below = λ n. 0;
  aborted_at_wait = false;
  fires = false;
  aborted = false;
  timed_out = false;
}

abbrev if_first : {A : Type 0} → A → A → Bool → A
if_first a b true = a
if_first a b false = b

abbrev answers : ℕ → Try ℕ
answers n = answer (if_first 503 200 (eqb n 1)) file_f1

with_retries-Run_example :
    let end = with_retries (upload_call ℕ) 2 700 answers in
    Run (upload_call ℕ) 2 700 answers 1 end.0 end.1
with_retries-Run_example = with_retries-Run (upload_call ℕ) 2 700 answers (omega arith)

with_retries-Spaced_example :
    let delays = (with_retries (upload_call ℕ) 2 700 answers).1 in
    Spaced (upload_call ℕ) 2 700 answers 1 delays × (length delays < 2)
with_retries-Spaced_example =
    with_retries-Spaced (upload_call ℕ) 2 700 answers (omega arith) (omega arith) (λ i. omega arith)

abbrev with_key : Env
with_key name = if_first (some "secret") none (name == "MISTRAL_API_KEY")

abbrev request : OcrRequest ℕ
request = record {
  document = record { bytes = 1 ∷ []; filename = "soup.pdf"; mime_type = "application/pdf" };
  model = none;
  document_annotation_prompt = none;
  document_annotation_schema = none;
}

abbrev world : OcrWorld ℕ
world = record {
  uploads = answers;
  runs = λ n. record (answer 200 file_f1) { fetched = rejected (type_error "fetch failed") };
  aborted = false;
  timed_out = false;
}

abbrev whole : ℕ → Bool
whole n = true

abbrev below_zero : ℕ → Bool
below_zero n = false

abbrev no_json : String → Option (Value ℕ)
no_json s = none

removals-extract_example :
    removals (extract whole below_zero no_json with_key request world).1
    ≡ left_by with_key (upload_file with_key world.uploads).0
unfolding resolve_api_key configured trim
removals-extract_example =
    removals-extract whole below_zero no_json with_key request world "secret" refl
