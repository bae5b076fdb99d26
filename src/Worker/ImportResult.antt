-- ===== src/Worker/ImportResult.antt =====
-- packages/domain/src/entities/import-result.ts: the result of a job. Its random id and the time at
-- which it is made are left out.
use recipe_import_from_anyth.Base.{String, Option, none, some, List, [], ◌or◌}
use recipe_import_from_anyth.Value.{Value}
use recipe_import_from_anyth.Recipe.Numbers.{Floats}
use recipe_import_from_anyth.Recipe.Types.{CanonicalRecipe}
use recipe_import_from_anyth.Recipe.Canonical.{normalize_canonical_recipe}
use recipe_import_from_anyth.Worker.Scoring.{Confidence}

pub record Warning : Type 0 where
  pub code : String
  pub message : String

pub record EvidenceDebug (N : Type 0) : Type 0 where
  pub raw_text : String
  pub extraction_confidence : N
  pub recipe_confidence : N
  pub source_type : String

pub record EvidenceBundle (N : Type 0) : Type 0 where
  pub artifact_refs : List String
  pub debug : Option (EvidenceDebug N)

-- `Partial<EvidenceBundle>`
pub record GivenEvidence (N : Type 0) : Type 0 where
  pub artifact_refs : Option (List String)
  pub debug : Option (EvidenceDebug N)

pub record ImportResult (N : Type 0) : Type 0 where
  pub recipe : CanonicalRecipe N
  pub confidence : Confidence N
  pub evidence : EvidenceBundle N
  pub warnings : List Warning
  pub source_type : String
  pub source_value : String

unfoldable pub normalize_evidence : {N : Type 0} → Option (GivenEvidence N) → EvidenceBundle N
normalize_evidence none = record { artifact_refs = []; debug = none }
normalize_evidence (some e) = record { artifact_refs = e.artifact_refs or []; debug = e.debug }

-- The constructor normalizes the recipe once more.
unfoldable pub new_import_result :
    (F : Floats) (upper : String → String)
    → Value F.Num
    → Confidence F.Num
    → Option (GivenEvidence F.Num)
    → List Warning
    → String
    → String
    → ImportResult F.Num
unfolding normalize_evidence
new_import_result F upper recipe confidence evidence warnings source_type source_value = record {
  recipe = normalize_canonical_recipe F upper recipe;
  confidence = confidence;
  evidence = normalize_evidence evidence;
  warnings = warnings;
  source_type = source_type;
  source_value = source_value;
}
