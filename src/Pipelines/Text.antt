-- ===== src/Pipelines/Text.antt =====
-- packages/pipelines/text/src: the text of the request is the extraction.
use recipe_import_from_anyth.Base.{
  ℕ, String, Option, none, some, List, [], ◌∷◌, is_empty, trim, if◌then◌else◌, head_units,
}
use recipe_import_from_anyth.Domain.{StepCategory, job_pickup, PipelineStatus}
use recipe_import_from_anyth.Progress.{set_status, checkpoint}
use recipe_import_from_anyth.Recipe.Numbers.{Floats}
use recipe_import_from_anyth.Registry.{PipelineMeta}
use recipe_import_from_anyth.Value.{Value, str, obj, field, end, get, as_string}
use recipe_import_from_anyth.Worker.Reporter.{Report, reported}
use recipe_import_from_anyth.Worker.JobWorld.{TextExtractionResult}

module _ {N : Type 0} where
  abbrev text_object : Option String → Option (Value N)
  text_object none = none
  text_object (some s) =
      let t = trim s in if is_empty t then none else some (obj (field "text" (str t) end))

  -- `textInputSchema.safeParse`
  pub text_input_schema : Value N → Option (Value N)
  text_input_schema (obj fs) = text_object (as_string (get "text" (obj fs)))
  text_input_schema _ = none

  abbrev pub text_meta : PipelineMeta N
  text_meta = record {
    pipeline_id = "text";
    title = "Text Import";
    steps =
        record { id = "extracting"; label = "Reading text"; category = StepCategory.extracting }
        ∷ [];
    input_schema = text_input_schema;
  }

-- `execute`: its reports, made at the times given, and the extraction of the text
pub execute_text : (F : Floats) → String → ℕ → ℕ → List Report × TextExtractionResult F.Num
execute_text F text picked_up extracting = (
  reported (checkpoint job_pickup picked_up)
      ∷ reported (set_status PipelineStatus.extracting extracting)
      ∷ [],
  record {
    raw_text = text;
    artifact_refs = none;
    source_type = "text";
    source_value = some (head_units 100 text);
    extraction_confidence = F.to_number "1";
    warnings = none;
  },
)
