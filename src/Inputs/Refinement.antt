-- ===== src/Inputs/Refinement.antt =====
-- An abstract view of the store: what each path holds, and how each call changes that.
use recipe_import_from_anyth.Base.{
  ℕ, ◌+◌, ltb, leb, length, ◌≤◌, ◌≡◌, refl, sym, ◌∙◌, ap, subst, Bool, true, false, not, String,
  ◌==◌, Option, none, some, List, [], ◌∷◌, if◌then◌else◌, filter_by, All, All-filter_by, ◌&&◌,
  arith, Bool-cases, inl, inr, eq_refl, eq_iff,
}
use recipe_import_from_anyth.Inputs.{
  StoredFile, Folder, files, find_file, without, total_size, get_current_size, delete, path_of,
  fits, write, save_if, save, is_old, cleanup, StoreCall, save_call, delete_call, cleanup_call,
  run_call, run_calls,
}
use recipe_import_from_anyth.Inputs.Size.{run_calls-size}

-- A file is at most once in the list.
abbrev Apart : StoredFile → StoredFile → Type 0
Apart f g = (g.path == f.path) ≡ false

abbrev pub Distinct : List StoredFile → Type 0
Distinct [] = Unit
Distinct (f ∷ fs) = All (Apart f) fs × Distinct fs

filter_by-Distinct :
    (p : StoredFile → Bool) (fs : List StoredFile) → Distinct fs → Distinct (filter_by p fs)
filter_by-Distinct p [] h = tt
filter_by-Distinct p (f ∷ fs) (apart, h) = elim (Bool-cases (p f)) [
  | inl kept ↦ rw kept (All-filter_by (Apart f) p fs apart, filter_by-Distinct p fs h)
  | inr gone ↦ rw gone (filter_by-Distinct p fs h)
]

without-Apart : (f : StoredFile) (fs : List StoredFile) → All (Apart f) (without f.path fs)
unfolding without
without-Apart f [] = tt
without-Apart f (g ∷ fs) = elim (Bool-cases (g.path == f.path)) [
  | inl same ↦ rw same (without-Apart f fs)
  | inr other ↦ rw other (other, without-Apart f fs)
]

write-Distinct :
    (path : String) (bytes : List ℕ) (now : ℕ) (fs : List StoredFile)
    → Distinct fs
    → Distinct (write path bytes now fs)
unfolding write without
write-Distinct path bytes now fs h = (
  without-Apart (record { path = path; bytes = bytes; modified = now }) fs,
  filter_by-Distinct _ fs h,
)

save_if-Distinct :
    (room : Bool) (base : String → String) (uuid : String) (bytes : List ℕ) (now : ℕ)
    (folder : Folder)
    → Distinct (files folder)
    → Distinct (files (save_if room base uuid bytes now folder).1)
unfolding save_if
save_if-Distinct true base uuid bytes now folder h =
    write-Distinct (path_of base uuid) bytes now (files folder) h
save_if-Distinct false base uuid bytes now folder h = h

run_call-Distinct :
    (base : String → String) (folder : Folder) (c : StoreCall)
    → Distinct (files folder)
    → Distinct (files (run_call base folder c))
unfolding run_call save delete cleanup without
run_call-Distinct base folder (save_call uuid bytes now) h =
    save_if-Distinct (fits bytes folder) base uuid bytes now folder h
run_call-Distinct base none (delete_call ref) h = h
run_call-Distinct base (some fs) (delete_call ref) h = filter_by-Distinct _ fs h
run_call-Distinct base none (cleanup_call now) h = h
run_call-Distinct base (some fs) (cleanup_call now) h = filter_by-Distinct _ fs h

run_calls-Distinct :
    (base : String → String) (folder : Folder) (calls : List StoreCall)
    → Distinct (files folder)
    → Distinct (files (run_calls base folder calls))
unfolding run_calls
run_calls-Distinct base folder [] h = h
run_calls-Distinct base folder (c ∷ calls) h =
    run_calls-Distinct base (run_call base folder c) calls (run_call-Distinct base folder c h)

-- how many bytes some files hold together
pub total_bytes : List StoredFile → ℕ
total_bytes [] = 0
total_bytes (f ∷ fs) = total_bytes fs + length f.bytes

-- what a path holds
abbrev pub View : Type 0
View = String → Option StoredFile

pub view : Folder → View
view folder ref = find_file ref (files folder)

-- a file, unless it was written more than a day, 86 400 000 ms, ago
abbrev pub unless_old : ℕ → Option StoredFile → Option StoredFile
unless_old now none = none
unless_old now (some f) = if ltb (f.modified + 86400000) now then none else some f

is_old-eq : (now : ℕ) (f : StoredFile) → is_old now f ≡ ltb (f.modified + 86400000) now
unfolding is_old
is_old-eq now f = ground arith

-- What each call does to the view; a save is let in or not.
pub specified : (String → String) → Bool → StoreCall → View → View
specified base room (save_call uuid bytes now) v ref =
    if room && (path_of base uuid == ref)
    then some (record { path = path_of base uuid; bytes = bytes; modified = now })
    else v ref
specified base room (delete_call path) v ref = if path == ref then none else v ref
specified base room (cleanup_call now) v ref = unless_old now (v ref)

-- A save has room where the bytes of all files and the new ones are at most 1 GB, 1 073 741 824
-- bytes.
abbrev pub has_room : Folder → StoreCall → Bool
has_room folder (save_call uuid bytes now) =
    leb (total_bytes (files folder) + length bytes) 1073741824
has_room folder _ = true

total_size-bytes : (fs : List StoredFile) → total_size fs ≡ total_bytes fs
unfolding total_size total_bytes
total_size-bytes [] = refl
total_size-bytes (f ∷ fs) = omega (arith, total_size-bytes fs)

fits-has_room :
    (folder : Folder) (bytes : List ℕ)
    → fits bytes folder ≡ leb (total_bytes (files folder) + length bytes) 1073741824
unfolding fits get_current_size
fits-has_room folder bytes = ground (arith, total_size-bytes (files folder))

if_same : (b : Bool) → ◌≡◌ {A = Option StoredFile} (if b then none else none) none
if_same true = refl
if_same false = refl

-- A file that is removed and one that is looked for.
removed_cases :
    (path ref : String) (f : StoredFile) (rest : Option StoredFile)
    → f.path ≡ path
    → (if path == ref then none else rest)
      ≡ (if path == ref then none else (if f.path == ref then some f else rest))
removed_cases path ref f rest e = elim (Bool-cases (path == ref)) [
  | inl here ↦ rw here refl
  | inr other ↦ rw (other, ap (λ p. p == ref) e ∙ other) refl
]

kept_cases :
    (path ref : String) (f : StoredFile) (rest : Option StoredFile)
    → (f.path == path) ≡ false
    → (if f.path == ref then some f else (if path == ref then none else rest))
      ≡ (if path == ref then none else (if f.path == ref then some f else rest))
kept_cases path ref f rest e = ground (arith, e, eq_iff path ref, eq_iff f.path ref, eq_refl ref)

find_file-without :
    (path ref : String) (fs : List StoredFile)
    → find_file ref (without path fs) ≡ (if path == ref then none else find_file ref fs)
unfolding find_file without
find_file-without path ref [] = sym (if_same (path == ref))
find_file-without path ref (f ∷ fs) = elim (Bool-cases (f.path == path)) [
  | inl gone ↦
      rw (gone, find_file-without path ref fs)
        (removed_cases path ref f (find_file ref fs) ((eq_iff f.path path).0 gone))
  | inr kept ↦
      rw kept (rw (find_file-without path ref fs) (kept_cases path ref f (find_file ref fs) kept))
]

-- A path whose first file is taken out is not found in the rest.
find_file-Apart :
    (f : StoredFile) (fs : List StoredFile) → All (Apart f) fs → find_file f.path fs ≡ none
unfolding find_file
find_file-Apart f [] h = refl
find_file-Apart f (g ∷ fs) (apart, h) = rw apart (find_file-Apart f fs h)

old_cases :
    (now : ℕ) (ref : String) (f : StoredFile) (fs : List StoredFile)
    → ltb (f.modified + 86400000) now ≡ true
    → All (Apart f) fs
    → unless_old now (find_file ref fs)
      ≡ unless_old now (if f.path == ref then some f else find_file ref fs)
old_cases now ref f fs old apart = elim (Bool-cases (f.path == ref)) [
  | inl here ↦
      rw (here, old)
        (ap (unless_old now) (
          subst (λ p. find_file p fs ≡ none) ((eq_iff f.path ref).0 here)
            (find_file-Apart f fs apart)))
  | inr other ↦ rw other refl
]

young_cases :
    (now : ℕ) (ref : String) (f : StoredFile) (rest : Option StoredFile)
    → ltb (f.modified + 86400000) now ≡ false
    → (if f.path == ref then some f else unless_old now rest)
      ≡ unless_old now (if f.path == ref then some f else rest)
young_cases now ref f rest young = elim (Bool-cases (f.path == ref)) [
  | inl here ↦ rw (here, young) refl
  | inr other ↦ rw other refl
]

find_file-fresh :
    (now : ℕ) (ref : String) (fs : List StoredFile)
    → Distinct fs
    → find_file ref (filter_by (λ f. not (is_old now f)) fs) ≡ unless_old now (find_file ref fs)
unfolding find_file
find_file-fresh now ref [] h = refl
find_file-fresh now ref (f ∷ fs) (apart, h) = elim (Bool-cases (is_old now f)) [
  | inl old ↦
      rw (old, find_file-fresh now ref fs h)
        (old_cases now ref f fs (sym (is_old-eq now f) ∙ old) apart)
  | inr young ↦ rw young (
      rw (find_file-fresh now ref fs h)
        (young_cases now ref f (find_file ref fs) (sym (is_old-eq now f) ∙ young)))
]

save_if-view :
    (room : Bool) (base : String → String) (uuid : String) (bytes : List ℕ) (now : ℕ)
    (folder : Folder) (ref : String)
    → view (save_if room base uuid bytes now folder).1 ref
      ≡ specified base room (save_call uuid bytes now) (view folder) ref
unfolding view specified save_if write find_file
save_if-view false base uuid bytes now folder ref = refl
save_if-view true base uuid bytes now folder ref = elim (Bool-cases (path_of base uuid == ref)) [
  | inl here ↦ rw (here, find_file) refl
  | inr other ↦
      rw (other, find_file)
        (find_file-without (path_of base uuid) ref (files folder) ∙ rw other refl)
]

run_call-specified :
    (base : String → String) (folder : Folder) (c : StoreCall) (ref : String)
    → Distinct (files folder)
    → view (run_call base folder c) ref ≡ specified base (has_room folder c) c (view folder) ref
unfolding run_call save delete cleanup view specified find_file
run_call-specified base folder (save_call uuid bytes now) ref h =
    save_if-view (fits bytes folder) base uuid bytes now folder ref
    ∙ ap (λ room. specified base room (save_call uuid bytes now) (view folder) ref)
        (fits-has_room folder bytes)
run_call-specified base none (delete_call path) ref h = sym (if_same (path == ref))
run_call-specified base (some fs) (delete_call path) ref h = find_file-without path ref fs
run_call-specified base none (cleanup_call now) ref h = refl
run_call-specified base (some fs) (cleanup_call now) ref h = find_file-fresh now ref fs h

-- After any calls on a store that starts without its folder, its files keep the limit of 1 GB, and
-- each further call changes what each path holds as specified: a save that keeps all bytes together
-- within 1 GB sets its path to the data, a removal empties its path, and a cleanup empties the
-- paths whose file was written more than 24 hours ago; all else stays.
pub run_calls-specified :
    (base : String → String) (calls : List StoreCall) (c : StoreCall) (ref : String)
    → let folder = run_calls base none calls in
      (view (run_call base folder c) ref ≡ specified base (has_room folder c) c (view folder) ref)
      × (total_bytes (files folder) ≤ 1073741824)
unfolding get_current_size
run_calls-specified base calls c ref = (
  run_call-specified base (run_calls base none calls) c ref (run_calls-Distinct base none calls tt),
  subst (λ n. n ≤ 1073741824) (total_size-bytes (files (run_calls base none calls)))
      (run_calls-size base none calls (omega arith)),
)
