-- ===== src/Inputs/Size.antt =====
-- The limit of the store's size.
use recipe_import_from_anyth.Base.{
  ℕ, ◌≤◌, ◌≡◌, refl, Bool, true, false, not, String, ◌==◌, none, some, List, [], ◌∷◌, filter_by,
  arith, Bool-cases, inl, inr,
}
use recipe_import_from_anyth.Inputs.{
  StoredFile, Folder, max_total_size, files, without, total_size, get_current_size, delete, path_of,
  fits, write, save_if, save, is_old, cleanup, StoreCall, save_call, delete_call, cleanup_call,
  run_call, run_calls,
}

total_size-filter_by :
    (p : StoredFile → Bool) (fs : List StoredFile) → total_size (filter_by p fs) ≤ total_size fs
unfolding total_size
total_size-filter_by p [] = omega arith
total_size-filter_by p (f ∷ fs) =
    let rest = total_size-filter_by p fs in
    elim (Bool-cases (p f)) [ inl kept ↦ rw kept (omega arith) | inr gone ↦ rw gone (omega arith) ]

save_if-size :
    (room : Bool) (base : String → String) (uuid : String) (bytes : List ℕ) (now : ℕ)
    (folder : Folder)
    → fits bytes folder ≡ room
    → get_current_size folder ≤ max_total_size
    → get_current_size (save_if room base uuid bytes now folder).1 ≤ max_total_size
unfolding save_if fits get_current_size write total_size without
save_if-size true base uuid bytes now folder e h =
    ground (arith, e, total_size-filter_by (λ f. not (f.path == path_of base uuid)) (files folder))
save_if-size false base uuid bytes now folder e h = h

run_call-size :
    (base : String → String) (folder : Folder) (c : StoreCall)
    → get_current_size folder ≤ max_total_size
    → get_current_size (run_call base folder c) ≤ max_total_size
unfolding run_call save delete cleanup get_current_size without
run_call-size base folder (save_call uuid bytes now) h =
    save_if-size (fits bytes folder) base uuid bytes now folder refl h
run_call-size base none (delete_call ref) h = h
run_call-size base (some fs) (delete_call ref) h =
    omega (arith, h, total_size-filter_by (λ f. not (f.path == ref)) fs)
run_call-size base none (cleanup_call now) h = h
run_call-size base (some fs) (cleanup_call now) h =
    omega (arith, h, total_size-filter_by (λ f. not (is_old now f)) fs)

-- Whatever is saved, deleted and cleaned up one call after the other, a folder that keeps the limit
-- of 1 GB keeps it.
pub run_calls-size :
    (base : String → String) (folder : Folder) (calls : List StoreCall)
    → get_current_size folder ≤ max_total_size
    → get_current_size (run_calls base folder calls) ≤ max_total_size
unfolding run_calls
run_calls-size base folder [] h = h
run_calls-size base folder (c ∷ calls) h =
    run_calls-size base (run_call base folder c) calls (run_call-size base folder c h)
