-- ===== src/Registry.antt =====
-- src/core/registry/pipeline-registry.ts and src/config/pipelines.config.ts: which pipelines there
-- are, and what is loaded of them. `import()` of a pipeline's modules is a parameter; it gives the
-- `meta` or `runtime` that the module exports, where that has the right shape.
pub mod Examples
use recipe_import_from_anyth.Base.{
  ◌≡◌, refl, sym, subst, ap, ◌∙◌, Bool, true, false, String, ◌==◌, append, Option, none, some,
  ◌or?◌, List, [], ◌∷◌, if◌then◌else◌, Bool-cases, Option-cases, inl, inr, eq_iff, arith,
}
use recipe_import_from_anyth.Base.Map.{Map, get, set, get-set}
use mathlib.Core.Option.{some-injective}
use recipe_import_from_anyth.Domain.{StepDefinition}
use recipe_import_from_anyth.Effects.{Exec, Outcome, ok, thrown, error}
use recipe_import_from_anyth.Value.{Value}

pub record PipelineConfig : Type 0 where
  pub pipeline_id : String
  pub meta_entry : String
  pub runtime_entry : String

-- `input_schema` is the schema's `safeParse`.
pub record PipelineMeta (N : Type 0) : Type 0 where
  pub pipeline_id : String
  pub title : String
  pub steps : List StepDefinition
  pub input_schema : Value N → Option (Value N)

abbrev pub pipeline_configs : List PipelineConfig
pipeline_configs =
    record {
      pipeline_id = "images";
      meta_entry = "@recipe/pipeline-images/meta";
      runtime_entry = "@recipe/pipeline-images/runtime";
    }
    ∷ record {
      pipeline_id = "text";
      meta_entry = "@recipe/pipeline-text/meta";
      runtime_entry = "@recipe/pipeline-text/runtime";
    }
    ∷ []

-- The map that the constructor makes keeps the last configuration of an id.
unfoldable pub get_config : List PipelineConfig → String → Option PipelineConfig
get_config [] id = none
get_config (config ∷ configs) id =
    get_config configs id or? (if config.pipeline_id == id then some config else none)

-- the imports of modules
pub record Modules (N : Type 0) : Type 1 where
  pub Runtime : Type 0
  pub import_meta : String → Outcome (Option (PipelineMeta N))
  pub import_runtime : String → Outcome (Option Runtime)

module _ {N : Type 0} (M : Modules N) (configs : List PipelineConfig) where
  open M use {Runtime, import_meta, import_runtime}

  pub record Registry : Type 0 where
    pub meta_cache : Map (PipelineMeta N)
    pub runtime_cache : Map Runtime

  checked_meta : String → Outcome (Option (PipelineMeta N)) → Outcome (PipelineMeta N)
  checked_meta id (thrown f) = thrown f
  checked_meta id (ok none) = thrown (error (append "Invalid meta export for pipeline: " id))
  checked_meta id (ok (some meta)) =
      if meta.pipeline_id == id
      then ok meta
      else thrown (error (append "Pipeline meta mismatch for " id))

  load_meta_by : String → Option PipelineConfig → Outcome (PipelineMeta N)
  load_meta_by id none = thrown (error (append "Pipeline not registered: " id))
  load_meta_by id (some config) = checked_meta id (import_meta config.meta_entry)

  -- a pipeline's meta, as it is loaded where it is not cached
  unfoldable pub load_meta : String → Outcome (PipelineMeta N)
  unfolding load_meta_by checked_meta
  load_meta id = load_meta_by id (get_config configs id)

  keep_meta : String → Outcome (PipelineMeta N) → Exec Registry (PipelineMeta N)
  keep_meta id (thrown f) registry = (thrown f, registry)
  keep_meta id (ok meta) registry =
      (ok meta, record registry { meta_cache = set id meta registry.meta_cache })

  meta_or_load : String → Option (PipelineMeta N) → Exec Registry (PipelineMeta N)
  meta_or_load id (some meta) registry = (ok meta, registry)
  meta_or_load id none registry = keep_meta id (load_meta id) registry

  pub get_meta : String → Exec Registry (PipelineMeta N)
  get_meta id registry = meta_or_load id (get id registry.meta_cache) registry

  checked_runtime : String → Outcome (Option Runtime) → Outcome Runtime
  checked_runtime id (thrown f) = thrown f
  checked_runtime id (ok none) = thrown (error (append "Invalid runtime export for pipeline: " id))
  checked_runtime id (ok (some runtime)) = ok runtime

  load_runtime_by : String → Option PipelineConfig → Outcome Runtime
  load_runtime_by id none = thrown (error (append "Pipeline not registered: " id))
  load_runtime_by id (some config) = checked_runtime id (import_runtime config.runtime_entry)

  pub load_runtime : String → Outcome Runtime
  load_runtime id = load_runtime_by id (get_config configs id)

  keep_runtime : String → Outcome Runtime → Exec Registry Runtime
  keep_runtime id (thrown f) registry = (thrown f, registry)
  keep_runtime id (ok runtime) registry =
      (ok runtime, record registry { runtime_cache = set id runtime registry.runtime_cache })

  runtime_or_load : String → Option Runtime → Exec Registry Runtime
  runtime_or_load id (some runtime) registry = (ok runtime, registry)
  runtime_or_load id none registry = keep_runtime id (load_runtime id) registry

  pub get_runtime : String → Exec Registry Runtime
  get_runtime id registry = runtime_or_load id (get id registry.runtime_cache) registry

  -- What is cached is what is loaded.
  abbrev pub IsCache {ℓ} : {V : Type ℓ} → (String → Outcome V) → Map V → Type ℓ
  IsCache {V = V} load cache = (id : String) (v : V) → get id cache ≡ some v → load id ≡ ok v

  pub record IsRegistry (registry : Registry) : Type 0 where
    pub metas : IsCache load_meta registry.meta_cache
    pub runtimes : IsCache load_runtime registry.runtime_cache

  module _ {V : Type 0} (load : String → Outcome V) where
    set-IsCache :
        (id : String) (v : V) (cache : Map V)
        → IsCache load cache
        → load id ≡ ok v
        → IsCache load (set id v cache)
    set-IsCache id v cache h e j u g = elim (Bool-cases (id == j)) [
      | inl same ↦
          let found : some v ≡ some u = rw (get-set j id v cache, same) at g in
          subst (λ k. load k ≡ ok u) ((eq_iff id j).0 same) (e ∙ ap ok (some-injective _ _ found))
      | inr other ↦ h j u (rw (get-set j id v cache, other) at g)
    ]

  keep_meta-IsRegistry :
      (id : String) (o : Outcome (PipelineMeta N)) (registry : Registry)
      → load_meta id ≡ o
      → IsRegistry registry
      → ((keep_meta id o registry).0 ≡ o) × IsRegistry (keep_meta id o registry).1
  unfolding keep_meta
  keep_meta-IsRegistry id (thrown f) registry e h = (refl, h)
  keep_meta-IsRegistry id (ok meta) registry e h =
      (refl, record { metas = set-IsCache load_meta id meta _ h.metas e; runtimes = h.runtimes })

  meta_or_load-IsRegistry :
      (id : String) (cached : Option (PipelineMeta N)) (registry : Registry)
      → get id registry.meta_cache ≡ cached
      → IsRegistry registry
      → ((meta_or_load id cached registry).0 ≡ load_meta id)
        × IsRegistry (meta_or_load id cached registry).1
  unfolding meta_or_load
  meta_or_load-IsRegistry id (some meta) registry e h = (sym (h.metas id meta e), h)
  meta_or_load-IsRegistry id none registry e h = keep_meta-IsRegistry id _ registry refl h

  keep_runtime-IsRegistry :
      (id : String) (o : Outcome Runtime) (registry : Registry)
      → load_runtime id ≡ o
      → IsRegistry registry
      → ((keep_runtime id o registry).0 ≡ o) × IsRegistry (keep_runtime id o registry).1
  unfolding keep_runtime
  keep_runtime-IsRegistry id (thrown f) registry e h = (refl, h)
  keep_runtime-IsRegistry id (ok runtime) registry e h = (
    refl,
    record { metas = h.metas; runtimes = set-IsCache load_runtime id runtime _ h.runtimes e },
  )

  runtime_or_load-IsRegistry :
      (id : String) (cached : Option Runtime) (registry : Registry)
      → get id registry.runtime_cache ≡ cached
      → IsRegistry registry
      → ((runtime_or_load id cached registry).0 ≡ load_runtime id)
        × IsRegistry (runtime_or_load id cached registry).1
  unfolding runtime_or_load
  runtime_or_load-IsRegistry id (some runtime) registry e h = (sym (h.runtimes id runtime e), h)
  runtime_or_load-IsRegistry id none registry e h = keep_runtime-IsRegistry id _ registry refl h

  -- A registry whose caches hold what is loaded gives for each pipeline the same meta and the same
  -- runtime, or the same error, as a load of its module, and its caches still hold what is loaded.
  pub get_meta-load :
      (id : String) (registry : Registry)
      → IsRegistry registry
      → ((get_meta id registry).0 ≡ load_meta id)
        × IsRegistry (get_meta id registry).1
        × ((get_runtime id registry).0 ≡ load_runtime id)
        × IsRegistry (get_runtime id registry).1
  unfolding get_meta get_runtime
  get_meta-load id registry h =
      let (meta, kept) = meta_or_load-IsRegistry id _ registry refl h in
      let (runtime, still) = runtime_or_load-IsRegistry id _ registry refl h in
      (meta, kept, runtime, still)
