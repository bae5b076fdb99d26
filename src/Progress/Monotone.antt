-- ===== src/Progress/Monotone.antt =====
-- When the reported percentage does not fall.
use recipe_import_from_anyth.Base.{◌≡◌, ◌≢◌, ◌≤◌, ℕ, some, arith, refl}
use recipe_import_from_anyth.Domain.{PipelineStatus, pending, JobProgress}
use recipe_import_from_anyth.Progress.{ProgressLayout, with_status, status_percent}

-- A change of status never lowers a percentage of at most 100, but for the status "pending", which
-- resets it to 0.
with_status-percent_mono :
    (layout : ProgressLayout) (status : PipelineStatus) (p : JobProgress ℕ) (timestamp : ℕ)
    → p.percent ≤ 100
    → (status ≢ pending → p.percent ≤ (with_status layout status (some p) timestamp).percent)
      × (status ≡ pending → (with_status layout status (some p) timestamp).percent ≡ 0)
unfolding with_status status_percent
with_status-percent_mono layout pending p timestamp h = ((λ ne. absurd (ne refl)), λ e. refl)
with_status-percent_mono layout _ p timestamp h = ground arith
