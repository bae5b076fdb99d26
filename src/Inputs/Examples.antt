-- ===== src/Inputs/Examples.antt =====
-- The store's theorems on a saved file that a cleanup a day later removes.
use recipe_import_from_anyth.Base.{String, append, ◌≤◌, ◌≡◌, none, List, [], ◌∷◌}
use recipe_import_from_anyth.Inputs.{files, StoreCall, save_call, cleanup_call, run_call, run_calls}
use recipe_import_from_anyth.Inputs.Refinement.{
  total_bytes, specified, has_room, view, run_calls-specified,
}

abbrev in_tmp : String → String
in_tmp = append "tmp/"

abbrev saved : List StoreCall
saved = save_call "a" (1 ∷ 2 ∷ []) 5 ∷ []

run_calls-specified_example :
    let folder = run_calls in_tmp none saved in
    (view (run_call in_tmp folder (cleanup_call 90000000)) "tmp/a.bin"
      ≡ specified in_tmp
          (has_room folder (cleanup_call 90000000))
          (cleanup_call 90000000)
          (view folder)
          "tmp/a.bin")
    × (total_bytes (files folder) ≤ 1073741824)
run_calls-specified_example = run_calls-specified in_tmp saved (cleanup_call 90000000) "tmp/a.bin"
