-- ===== src/Pipelines/Images.antt =====
-- packages/pipelines/images/src: images by their references are read, checked by their first bytes,
-- and their text extracted. The store of inputs, the OCR client and what the signal says at each
-- check are inputs.
pub mod Annotation
pub mod Formats
pub mod Inputs
pub mod Extraction
mod Examples
use recipe_import_from_anyth.Base.{
  ℕ, zero, suc, ◌+◌, ◌-◌, ◌*◌, ◌<◌, ◌≤◌, ◌≡◌, refl, Bool, true, false, not, ◌&&◌, String, append,
  Option, none, some, List, [], ◌∷◌, ◌++◌, map, length, is_empty, trim, ltb, eqb, min, max,
  if◌then◌else◌, filter_by, decimal, utf16_length, arith,
}
use recipe_import_from_anyth.Domain.{job_pickup, images_loaded, ocr_started, PipelineStatus}
use recipe_import_from_anyth.Effects.{Outcome, ok, thrown, Failure, error}
use recipe_import_from_anyth.Progress.{set_status, checkpoint}
use recipe_import_from_anyth.Worker.Reporter.{Report, reported, log}
use recipe_import_from_anyth.Worker.ImportResult.{Warning}
use recipe_import_from_anyth.Pipelines.Images.Formats.{PreparedImage, prepare}

abbrev join_with : String → String → List String → String
join_with separator s [] = s
join_with separator s (t ∷ ts) = append s (append separator (join_with separator t ts))

-- `texts.join(separator)`
pub join : String → List String → String
join separator [] = ""
join separator (s ∷ texts) = join_with separator s texts

-- A confidence is a fraction of whole numbers, where the source divides floats.
pub record Fraction : Type 0 where
  pub numerator : ℕ
  pub denominator : ℕ

-- in hundredths: 30 where more than 100 characters are extracted on average, 15 above 50
pub length_bonus : ℕ → ℕ → ℕ
length_bonus successful total_length =
    if ltb (100 * successful) total_length
    then 30
    else (if ltb (50 * successful) total_length then 15 else 0)

pub calculate_extraction_confidence : ℕ → ℕ → ℕ → Fraction
calculate_extraction_confidence zero successful total_length = record {
  numerator = 0;
  denominator = 1;
}
calculate_extraction_confidence (suc n) successful total_length = record {
  numerator = min (100 * suc n) (70 * successful + length_bonus successful total_length * suc n);
  denominator = 100 * suc n;
}

-- What a run meets: the store of inputs, the OCR client's pages for the image of an index, where a
-- client is configured, and whether the signal has fired at the checks.
pub record ImagesWorld : Type 0 where
  pub input : String → Option (List ℕ)
  pub ocr : Option (ℕ → PreparedImage → Outcome (List String))
  pub aborted_first : Bool
  pub aborted_at : ℕ → Bool
  pub aborted_loaded : Bool
  pub aborted_last : Bool
  pub now : ℕ

abbrev add_image :
    Option PreparedImage → Outcome (List PreparedImage) → Outcome (List PreparedImage)
add_image none rest = rest
add_image (some image) (ok images) = ok (image ∷ images)
add_image (some image) (thrown f) = thrown f

-- the references from an index on
pub collect_images : ImagesWorld → ℕ → List String → Outcome (List PreparedImage)
collect_images w index [] = ok []
collect_images w index (ref ∷ refs) =
    let rest = collect_images w (suc index) refs in
    if w.aborted_at index
    then thrown (error "Pipeline aborted")
    else add_image (prepare index ref (w.input ref)) rest

pub record OcrOutcome : Type 0 where
  pub markdown : String
  pub success : Bool

-- `markdown.trim().length > 20`
pub is_significant_ocr_result : String → Bool
is_significant_ocr_result markdown = ltb 20 (utf16_length (trim markdown))

pub process_image_with_ocr : Outcome (List String) → OcrOutcome
process_image_with_ocr (thrown f) = record { markdown = ""; success = false }
process_image_with_ocr (ok pages) =
    let markdown = join "\n\n" (filter_by (λ s. not (is_empty s)) (map trim pages)) in
    record { markdown = markdown; success = is_significant_ocr_result markdown }

-- each image with its index in the list of those collected
pub process_from :
    (ℕ → PreparedImage → Outcome (List String)) → ℕ → List PreparedImage → List OcrOutcome
process_from ocr index [] = []
process_from ocr index (image ∷ images) =
    process_image_with_ocr (ocr index image) ∷ process_from ocr (suc index) images

pub process_images :
    Option (ℕ → PreparedImage → Outcome (List String))
    → List PreparedImage
    → Outcome (List OcrOutcome)
process_images none images = thrown (error "OCR client is not configured for images pipeline")
process_images (some ocr) images = ok (process_from ocr 0 images)

-- the markdown of the images that succeeded
pub successful_markdowns : List OcrOutcome → List String
successful_markdowns results = map (λ r. r.markdown) (filter_by (λ r. r.success) results)

pub total_text_length : List String → ℕ
total_text_length [] = 0
total_text_length (text ∷ texts) = utf16_length text + total_text_length texts

pub record ImagesExtraction : Type 0 where
  pub raw_text : String
  pub artifact_refs : List String
  pub source_value : String
  pub extraction_confidence : Fraction
  pub warnings : Option (List Warning)

-- A warning where fewer images succeeded than there are.
pub partial_warning : ℕ → ℕ → Option (List Warning)
partial_warning images successful =
    if ltb successful images
    then some (
        record {
          code = "PARTIAL_EXTRACTION";
          message = append (decimal (images - successful)) " image(s) could not be processed";
        }
        ∷ [])
    else none

pub extraction_of : List String → List PreparedImage → List String → ImagesExtraction
extraction_of refs images markdowns = record {
  raw_text = join "\n\n---\n\n" markdowns;
  artifact_refs = refs;
  source_value = join "," refs;
  extraction_confidence =
      calculate_extraction_confidence (length images) (length markdowns)
        (total_text_length markdowns);
  warnings = partial_warning (length images) (length markdowns);
}

pub processed_logs : ℕ → ℕ → List Report
processed_logs zero total = []
processed_logs (suc left) total =
    log (append "Processed image " (append (decimal (total - left)) (append "/" (decimal total))))
    ∷ processed_logs left total

-- A run so far: the reports that were made, and how it goes on or ends.
abbrev pub Run : Type 0
Run = List Report × Outcome ImagesExtraction

pub after_ocr :
    ImagesWorld → List String → List PreparedImage → List Report → Outcome (List OcrOutcome) → Run
after_ocr w refs images reports (thrown f) = (reports, thrown f)
after_ocr w refs images reports (ok results) =
    let markdowns = successful_markdowns results in
    let count = length markdowns in
    if eqb count 0
    then (reports, thrown (error "No recipe data could be extracted from any image"))
    else (
      reports ++ processed_logs count count,
      if w.aborted_last
          then thrown (error "Pipeline aborted")
          else ok (extraction_of refs images markdowns),
    )

pub after_collecting : ImagesWorld → List String → List Report → Outcome (List PreparedImage) → Run
after_collecting w refs reports (thrown f) = (reports, thrown f)
after_collecting w refs reports (ok []) =
    (reports, thrown (error "No supported images available to process"))
after_collecting w refs reports (ok (image ∷ images)) =
    let loaded = reports ++ reported (checkpoint images_loaded w.now) ∷ [] in
    let started =
      loaded
      ++ (reported (set_status PipelineStatus.extracting w.now)
          ∷ reported (checkpoint ocr_started w.now)
          ∷ []) in
    if w.aborted_loaded
    then (loaded, thrown (error "Pipeline aborted"))
    else after_ocr w refs (image ∷ images) started (process_images w.ocr (image ∷ images))

pub execute : ImagesWorld → List String → Run
execute w refs =
    let picked_up = reported (checkpoint job_pickup w.now) ∷ [] in
    if w.aborted_first
    then (picked_up, thrown (error "Pipeline aborted"))
    else after_collecting w refs
        (picked_up ++ reported (set_status PipelineStatus.collecting w.now) ∷ [])
        (collect_images w 0 refs)
