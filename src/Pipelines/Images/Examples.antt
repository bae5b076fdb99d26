-- ===== src/Pipelines/Images/Examples.antt =====
-- The images pipeline on one JPEG.
use recipe_import_from_anyth.Base.{ℕ, false, String, some, List, [], ◌∷◌}
use recipe_import_from_anyth.Effects.{ok}
use recipe_import_from_anyth.Pipelines.Images.Formats.{PreparedImage}
use recipe_import_from_anyth.Pipelines.Images.{ImagesWorld, ImagesExtraction, extraction_of}

abbrev jpeg : List ℕ
jpeg = 0xff ∷ 0xd8 ∷ 0xff ∷ 0xe0 ∷ []

abbrev page : String
page = "Soup of the day, for four people"

abbrev one_image : ImagesWorld
one_image = record {
  input = λ ref. some jpeg;
  ocr = some (λ index image. ok (page ∷ []));
  aborted_first = false;
  aborted_at = λ index. false;
  aborted_loaded = false;
  aborted_last = false;
  now = 7;
}

abbrev image : PreparedImage
image = record {
  input_ref = "tmp/a.bin";
  bytes = jpeg;
  filename = "recipe-1.jpg";
  mime_type = "image/jpeg";
}

abbrev soup_text : ImagesExtraction
soup_text = extraction_of ("tmp/a.bin" ∷ []) (image ∷ []) (page ∷ [])
