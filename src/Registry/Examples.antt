-- ===== src/Registry/Examples.antt =====
-- The registry before anything is loaded.
use recipe_import_from_anyth.Base.{ℕ, ◌≡◌, some, []}
use recipe_import_from_anyth.Base.Map.{get}
use recipe_import_from_anyth.Effects.{ok}
use recipe_import_from_anyth.Registry.{
  PipelineMeta, Modules, Registry, IsRegistry, pipeline_configs, load_meta, load_runtime, get_meta,
  get_runtime, get_meta-load,
}

abbrev pub images_meta : PipelineMeta ℕ
images_meta = record {
  pipeline_id = "images";
  title = "Images";
  steps = [];
  input_schema = λ value. some value;
}

abbrev pub modules : Modules ℕ
modules = record {
  Runtime = ℕ;
  import_meta = λ entry. ok (some images_meta);
  import_runtime = λ entry. ok (some 7);
}

abbrev pub empty_registry : Registry modules pipeline_configs
empty_registry = record { meta_cache = []; runtime_cache = [] }

pub empty_registry-IsRegistry : IsRegistry modules pipeline_configs empty_registry
unfolding get
empty_registry-IsRegistry = record { metas = λ id v e. cc e; runtimes = λ id v e. cc e }

get_meta-load_example :
    ((get_meta modules pipeline_configs "images" empty_registry).0
      ≡ load_meta modules pipeline_configs "images")
    × IsRegistry modules pipeline_configs
        (get_meta modules pipeline_configs "images" empty_registry).1
    × ((get_runtime modules pipeline_configs "images" empty_registry).0
        ≡ load_runtime modules pipeline_configs "images")
    × IsRegistry modules pipeline_configs
        (get_runtime modules pipeline_configs "images" empty_registry).1
get_meta-load_example =
    get_meta-load modules pipeline_configs "images" empty_registry empty_registry-IsRegistry
