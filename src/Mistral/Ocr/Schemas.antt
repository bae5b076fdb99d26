-- ===== src/Mistral/Ocr/Schemas.antt =====
-- The schemas of mistral-ocr-client.ts and the response that `runOcr` makes of the provider's. The
-- tests of numbers that zod makes are parameters.
use recipe_import_from_anyth.Base.{
  ◌≡◌, Bool, false, not, ◌&&◌, String, is_empty, trim, Option, none, some, List, [], ◌∷◌,
  if◌then◌else◌, ◌>>=◌, inl, inr, Bool-cases, subst,
}
use recipe_import_from_anyth.Mistral.Settings.{Settled, fulfilled, or_reject, or_reject-fulfilled}
use mathlib.Core.Option.{some-injective}
use recipe_import_from_anyth.Value.{
  Value, undefined, null, str, num, arr, obj, items, get, as_string, as_number,
}

pub record OcrPage (N : Type 0) : Type 0 where
  pub index : N
  pub markdown : String

pub record OcrUsageInfo (N : Type 0) : Type 0 where
  pub pages_processed : Option N
  pub doc_size_bytes : Option N

pub record OcrResponse (N : Type 0) : Type 0 where
  pub model : String
  pub pages : List (OcrPage N)
  pub document_annotation : Option String
  pub usage : Option (OcrUsageInfo N)

-- `z.array(schema)` on the array's items
pub all_items {ℓ} :
    {N : Type 0} {A : Type ℓ} → (Value N → Option A) → List (Value N) → Option (List A)
all_items parse [] = some []
all_items parse (x ∷ xs) = elim (parse x) [
  | none ↦ none
  | some y ↦ elim (all_items parse xs) [ none ↦ none | some ys ↦ some (y ∷ ys) ]
]

-- `z.object({ id: z.string().trim().min(1) })`, and the file's id
abbrev nonempty_id : Option String → Option String
nonempty_id none = none
nonempty_id (some s) = let t = trim s in if is_empty t then none else some t

uploaded_id : {N : Type 0} → Value N → Option String
uploaded_id (obj fs) = nonempty_id (as_string (get "id" (obj fs)))
uploaded_id _ = none

unfoldable pub read_uploaded_file : {N : Type 0} → Value N → Settled String
unfolding uploaded_id
read_uploaded_file payload =
    or_reject "Invalid upload response from Mistral OCR" (uploaded_id payload)

module _ {N : Type 0} (is_int is_negative : N → Bool) where
  -- `z.number().int().optional()`
  optional_int : Value N → Option (Option N)
  optional_int undefined = some none
  optional_int (num n) = if is_int n then some (some n) else none
  optional_int _ = none

  page_of : N → String → Option (OcrPage N)
  page_of index markdown =
      if is_int index && not (is_negative index)
      then some (record { index = index; markdown = markdown })
      else none

  parse_page : Value N → Option (OcrPage N)
  parse_page (obj fs) = do
    index ← as_number (get "index" (obj fs))
    markdown ← as_string (get "markdown" (obj fs))
    page_of index markdown
  parse_page _ = none

  parse_pages : Value N → Option (List (OcrPage N))
  parse_pages (arr xs) = all_items parse_page (items xs)
  parse_pages _ = none

  -- `z.string().nullable().optional()`, and what the response keeps of it: a text that is not empty
  abbrev kept_text : String → Option String
  kept_text s = if is_empty s then none else some s

  parse_annotation : Value N → Option (Option String)
  parse_annotation undefined = some none
  parse_annotation null = some none
  parse_annotation (str s) = some (kept_text s)
  parse_annotation _ = none

  parse_usage : Value N → Option (Option (OcrUsageInfo N))
  parse_usage undefined = some none
  parse_usage (obj fs) = do
    processed ← optional_int (get "pages_processed" (obj fs))
    size ← optional_int (get "doc_size_bytes" (obj fs))
    some (some (record { pages_processed = processed; doc_size_bytes = size }))
  parse_usage _ = none

  parse_ocr_response : Value N → Option (OcrResponse N)
  parse_ocr_response (obj fs) = do
    model ← as_string (get "model" (obj fs))
    pages ← parse_pages (get "pages" (obj fs))
    annotation ← parse_annotation (get "document_annotation" (obj fs))
    usage ← parse_usage (get "usage_info" (obj fs))
    some (record { model = model; pages = pages; document_annotation = annotation; usage = usage })
  parse_ocr_response _ = none

  pub read_ocr_response : Value N → Settled (OcrResponse N)
  read_ocr_response payload =
      or_reject "Invalid OCR response from Mistral" (parse_ocr_response payload)

nonempty_id-filled :
    (o : Option String) (id : String) → nonempty_id o ≡ some id → is_empty id ≡ false
nonempty_id-filled none id e = cc e
nonempty_id-filled (some s) id e = elim (Bool-cases (is_empty (trim s))) [
  | inl empty ↦ cc (rw empty at e)
  | inr filled ↦ subst (λ t. is_empty t ≡ false) (some-injective _ _ (rw filled at e)) filled
]

uploaded_id-filled :
    {N : Type 0} (payload : Value N) (id : String)
    → uploaded_id payload ≡ some id
    → is_empty id ≡ false
unfolding uploaded_id
uploaded_id-filled (obj fs) id e = nonempty_id-filled (as_string (get "id" (obj fs))) id e
uploaded_id-filled _ id e = cc e

-- The id that an upload gives is not empty.
pub read_uploaded_file-nonempty :
    {N : Type 0} (payload : Value N) (id : String)
    → read_uploaded_file payload ≡ fulfilled id
    → is_empty id ≡ false
unfolding read_uploaded_file
read_uploaded_file-nonempty payload id e =
    uploaded_id-filled payload id (or_reject-fulfilled _ _ id e)
