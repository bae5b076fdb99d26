-- ===== src/Pipelines/Images/Extraction.antt =====
-- What a run of the images pipeline that succeeds gives.
use recipe_import_from_anyth.Base.{
  ℕ, suc, ◌<◌, Option, some, map, filter_by, trim, utf16_length, is_empty, not, ◌≤◌, ◌≡◌, false,
  String, List, [], ◌∷◌, length,
}
use recipe_import_from_anyth.Effects.{Outcome, ok, thrown}
use recipe_import_from_anyth.Pipelines.Images.Formats.{PreparedImage}
use recipe_import_from_anyth.Pipelines.Images.{
  ImagesWorld, ImagesExtraction, collect_images, join, extraction_of,
}

-- How the OCR client's answer for an image adds to the texts of the images after it: pages that it
-- fails to give add nothing, and what their texts join to is a text where it has more than 20
-- characters, trimmed.
abbrev AddsText : Outcome (List String) → List String → List String → Type 0
AddsText (thrown f) rest texts = texts ≡ rest
AddsText (ok pages) rest texts =
    let markdown = join "\n\n" (filter_by (λ s. not (is_empty s)) (map trim pages)) in
    (20 < utf16_length (trim markdown) → texts ≡ markdown ∷ rest)
    × (utf16_length (trim markdown) ≤ 20 → texts ≡ rest)

-- The texts of images, from an index on.
unfoldable pub AreTextsOf :
    (ℕ → PreparedImage → Outcome (List String)) → ℕ → List PreparedImage → List String → Type 0
AreTextsOf ocr index [] texts = texts ≡ []
AreTextsOf ocr index (image ∷ images) texts =
    (rest : List String) × AreTextsOf ocr (suc index) images rest
    × AddsText (ocr index image) rest texts

-- The texts are those that a client read.
abbrev AreRead :
    Option (ℕ → PreparedImage → Outcome (List String)) → List PreparedImage → List String → Type 0
AreRead client images texts =
    (ocr : ℕ → PreparedImage → Outcome (List String)) × (client ≡ some ocr)
    × AreTextsOf ocr 0 images texts

-- How the images and their texts make an extraction; its confidence is from 0 to 1.
pub record IsExtraction (w : ImagesWorld) (refs : List String) (e : ImagesExtraction) : Type 0 where
  pub images : List PreparedImage
  pub texts : List String
  pub collected : collect_images w 0 refs ≡ ok images
  pub read : AreRead w.ocr images texts
  pub made : e ≡ extraction_of refs images texts
  pub some_text : 0 < length texts
  pub each_active : (i : ℕ) → i < length refs → w.aborted_at i ≡ false
  pub active : (w.aborted_first ≡ false) × (w.aborted_loaded ≡ false) × (w.aborted_last ≡ false)
  pub at_most_one : e.extraction_confidence.numerator ≤ e.extraction_confidence.denominator
