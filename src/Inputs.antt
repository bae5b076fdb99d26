-- ===== src/Inputs.antt =====
-- src/infrastructure/temp-input-store.ts: uploaded files, kept for a day within a limit of 1 GB.
-- The state is the folder's files by their paths, `none` while the folder does not exist; each
-- operation takes the time at which it runs, and `save` the UUID that it draws. A `stat` or
-- `unlink` that fails leaves its file out.
pub mod Size
pub mod Refinement
mod Examples
use recipe_import_from_anyth.Base.{
  ℕ, ◌+◌, ◌-◌, ◌*◌, ◌≤◌, ◌<◌, ◌≡◌, refl, sym, ◌∙◌, ap, Bool, true, false, not, String, ◌==◌, append,
  Option, none, some, List, [], ◌∷◌, ltb, leb, if◌then◌else◌, length, filter_by, decimal, arith,
  Bool-cases, inl, inr, eq_refl, eq_iff,
}
use recipe_import_from_anyth.Effects.{Exec, Outcome, ok, thrown, error}

pub record StoredFile : Type 0 where
  pub path : String
  pub bytes : List ℕ
  pub modified : ℕ

abbrev pub Folder : Type 0
Folder = Option (List StoredFile)

abbrev pub max_total_size : ℕ
max_total_size = 1024 * 1024 * 1024

abbrev pub file_ttl_ms : ℕ
file_ttl_ms = 24 * 60 * 60 * 1000

abbrev pub files : Folder → List StoredFile
files none = []
files (some fs) = fs

-- `readFile`
pub find_file : String → List StoredFile → Option StoredFile
find_file path [] = none
find_file path (f ∷ fs) = if f.path == path then some f else find_file path fs

abbrev pub bytes_of : Option StoredFile → Option (List ℕ)
bytes_of none = none
bytes_of (some f) = some f.bytes

-- `unlink`
pub without : String → List StoredFile → List StoredFile
without path fs = filter_by (λ f. not (f.path == path)) fs

unfoldable pub total_size : List StoredFile → ℕ
total_size [] = 0
total_size (f ∷ fs) = length f.bytes + total_size fs

unfoldable pub get_current_size : Folder → ℕ
unfolding total_size
get_current_size folder = total_size (files folder)

pub get : String → Folder → Option (List ℕ)
get ref folder = bytes_of (find_file ref (files folder))

pub delete : String → Folder → Folder
delete ref none = none
delete ref (some fs) = some (without ref fs)

abbrev ensure_base_path_exists : Folder → Folder
ensure_base_path_exists folder = some (files folder)

-- `join(basePath, filename)`; node's `join` at the folder's path is the argument.
abbrev pub path_of : (String → String) → String → String
path_of base uuid = base (append uuid ".bin")

pub size_error : ℕ → String
size_error size =
    append "Temp input store size limit exceeded: "
      (append (decimal size) (append " > " (decimal max_total_size)))

-- `writeFile`
pub write : String → List ℕ → ℕ → List StoredFile → List StoredFile
write path bytes now fs = record { path = path; bytes = bytes; modified = now } ∷ without path fs

-- whether `validateSize` lets the data in
pub fits : List ℕ → Folder → Bool
fits bytes folder = not (ltb max_total_size (get_current_size folder + length bytes))

pub save_if : Bool → (String → String) → String → List ℕ → ℕ → Exec Folder String
save_if true base uuid bytes now folder =
    (ok (path_of base uuid), some (write (path_of base uuid) bytes now (files folder)))
save_if false base uuid bytes now folder = (
  thrown (error (size_error (get_current_size folder + length bytes))),
  ensure_base_path_exists folder,
)

pub save : (String → String) → String → List ℕ → ℕ → Exec Folder String
save base uuid bytes now folder = save_if (fits bytes folder) base uuid bytes now folder

-- `now - stats.mtimeMs > FILE_TTL_MS`; a file of the future has a negative age.
pub is_old : ℕ → StoredFile → Bool
is_old now f = ltb file_ttl_ms (now - f.modified)

pub cleanup : ℕ → Folder → Folder
cleanup now none = none
cleanup now (some fs) = some (filter_by (λ f. not (is_old now f)) fs)

-- Operations of the store, in any order.
pub data StoreCall : Type 0 where
  save_call : String → List ℕ → ℕ → StoreCall
  delete_call : String → StoreCall
  cleanup_call : ℕ → StoreCall

pub run_call : (String → String) → Folder → StoreCall → Folder
run_call base folder (save_call uuid bytes now) = (save base uuid bytes now folder).1
run_call base folder (delete_call ref) = delete ref folder
run_call base folder (cleanup_call now) = cleanup now folder

pub run_calls : (String → String) → Folder → List StoreCall → Folder
run_calls base folder [] = folder
run_calls base folder (c ∷ calls) = run_calls base (run_call base folder c) calls
