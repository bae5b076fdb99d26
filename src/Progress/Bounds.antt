-- ===== src/Progress/Bounds.antt =====
-- Bounds of the layout of a pipeline's steps, and of every progress that a tracker reports.
use recipe_import_from_anyth.Base.{
  ◌-◌, ◌≤◌, ◌<◌, ◌≡◌, ℕ, min, Option, none, some, List, [], ◌∷◌, arith, length, Below,
  find_index-Below,
}
use recipe_import_from_anyth.Domain.{StepCategory, StepDefinition, JobProgress}
use recipe_import_from_anyth.Progress.{
  ProgressLayout, same_category, find_category, resolve_step_index, layout_of,
  resolve_progress_layout, with_status, with_checkpoint, ProgressCall, set_status, checkpoint,
  track, track_all, status_step_index, status_percent,
}

find_category-Below :
    (steps : List StepDefinition) (c : StepCategory) → Below (length steps) (find_category steps c)
unfolding find_category
find_category-Below steps c = find_index-Below (λ step. same_category step.category c) steps

resolve_step_index-lt-length :
    (steps : List StepDefinition) (c : StepCategory) (fallback : ℕ)
    → 0 < length steps
    → resolve_step_index steps c fallback < length steps
unfolding resolve_step_index
resolve_step_index-lt-length steps c fallback p = ground (arith, find_category-Below steps c)

-- Each index of a layout is one of its steps.
pub record IsLayout (layout : ProgressLayout) : Type 0 where
  pub collecting_lt : layout.collecting_index < layout.total_steps
  pub extracting_lt : layout.extracting_index < layout.total_steps
  pub formatting_lt : layout.formatting_index < layout.total_steps

-- The layout of any list of steps is a layout: its three indices lie below the number of steps.
pub resolve_progress_layout-IsLayout :
    (steps : List StepDefinition) → IsLayout (resolve_progress_layout steps)
unfolding resolve_progress_layout layout_of
resolve_progress_layout-IsLayout [] = omega arith
resolve_progress_layout-IsLayout (step ∷ steps) = ground (
  arith,
  find_category-Below (step ∷ steps) StepCategory.finalizing,
  resolve_step_index-lt-length (step ∷ steps) StepCategory.collecting 0,
  resolve_step_index-lt-length (step ∷ steps) StepCategory.extracting
      (min 1 (length (step ∷ steps) - 1)),
)

pub record InRange (layout : ProgressLayout) (progress : JobProgress ℕ) : Type 0 where
  pub percent_le : progress.percent ≤ 100
  pub step_index_lt : progress.step_index < progress.total_steps
  pub total_steps_eq : progress.total_steps ≡ layout.total_steps

abbrev pub Each : (JobProgress ℕ → Type 0) → Option (JobProgress ℕ) → Type 0
Each P none = Unit
Each P (some progress) = P progress

pub track-InRange :
    (layout : ProgressLayout) (current : Option (JobProgress ℕ)) (call : ProgressCall)
    → IsLayout layout
    → Each (InRange layout) current
    → InRange layout (track layout current call)
unfolding track with_status with_checkpoint status_step_index status_percent
track-InRange layout none (set_status s t) l h = ground arith
track-InRange layout (some p) (set_status s t) l h = ground arith
track-InRange layout none (checkpoint c t) l h = ground arith
track-InRange layout (some p) (checkpoint c t) l h = ground arith

track_all-Each :
    (layout : ProgressLayout) (current : Option (JobProgress ℕ)) (calls : List ProgressCall)
    → IsLayout layout
    → Each (InRange layout) current
    → Each (InRange layout) (track_all layout current calls)
unfolding track_all
track_all-Each layout current [] l h = h
track_all-Each layout current (call ∷ calls) l h =
    track_all-Each layout (some (track layout current call)) calls l
      (track-InRange layout current call l h)

-- A tracker made for any list of steps, after any calls of its methods, reports nothing or a
-- progress of at most 100 percent whose step lies below its number of steps, which is the layout's.
pub track_all-InRange :
    (steps : List StepDefinition) (calls : List ProgressCall)
    → let layout = resolve_progress_layout steps in
      Each (InRange layout) (track_all layout none calls)
track_all-InRange steps calls =
    track_all-Each (resolve_progress_layout steps) none calls
      (resolve_progress_layout-IsLayout steps) tt
