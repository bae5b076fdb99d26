-- ===== src/Events/Socket/Invariant.antt =====
-- Which callbacks the connections hold and which ones the bridge calls: the two agree.
pub mod Steps
pub mod Removal
pub mod Closing
use recipe_import_from_anyth.Base.{
  ℕ, suc, ◌+◌, ◌<◌, ◌≤◌, ◌≡◌, ◌≢◌, ◌⊎◌, inl, inr, refl, sym, ap, subst, ◌∙◌, Bool, true, false, not,
  String, ◌==◌, Option, none, some, List, [], ◌∷◌, ◌++◌, eqb, if◌then◌else◌, arith, eq_iff,
  Bool-cases, mem-last, mem-before, mem-append_cases, mem-filter_by, mem-kept, filter_by,
}
use mathlib.Core.List.{Memᴰ}
use recipe_import_from_anyth.Base.Map
use recipe_import_from_anyth.Base.Map.{Map, get-set}
use recipe_import_from_anyth.Base.Map.Entries.{
  mem-get, mem-set, mem-delete, IsKeyed, set-IsKeyed, delete-IsKeyed,
}
use recipe_import_from_anyth.Ids.{JobId, UserId}
use recipe_import_from_anyth.Events.Bridge.{
  Sender, Bridge, add_subscription, remove_subscription, dispatch,
}
use recipe_import_from_anyth.Events.Bridge.Callbacks.{other_than, dispatch-add, dispatch-remove}
use recipe_import_from_anyth.Events.Socket.{job_id, remove_each}

-- The callbacks that each connection holds, by their jobs.
abbrev pub Held : Type 0
Held = ℕ → Map Sender

abbrev pub put : Held → ℕ → Map Sender → Held
put held c m d = if eqb c d then m else held d

-- Each entry is the only one of its job, is of its connection and has a serial number that was
-- given out, and no other entry has that number. The bridge calls, for a job, just the callbacks
-- that are held for it.
pub record IsLinked (held : Held) (b : Bridge) (next : ℕ) : Type 0 where
  pub keyed : (c : ℕ) → IsKeyed (held c)
  pub owned :
      (c : ℕ) (j : String) (x : Sender)
      → Memᴰ (j, x) (held c)
      → (x.connection ≡ c) × (x.job ≡ j) × (x.serial < next)
  pub distinct :
      (c d : ℕ) (j k : String) (x y : Sender)
      → Memᴰ (j, x) (held c)
      → Memᴰ (k, y) (held d)
      → x.serial ≡ y.serial
      → (c ≡ d) × (j ≡ k)
  pub called : (c : ℕ) (j : String) (x : Sender) → Memᴰ (j, x) (held c) → Memᴰ x (dispatch j b)
  pub registered :
      (j : String) (x : Sender) → Memᴰ x (dispatch j b) → Memᴰ (j, x) (held x.connection)

module _ (held : Held) (c : ℕ) (m : Map Sender) where
  pub put-here : put held c m c ≡ m
  put-here = ground arith

  pub put-other : (d : ℕ) → c ≢ d → put held c m d ≡ held d
  put-other d ne = ground arith

  pub put_cases : (d : ℕ) → ((c ≡ d) × (put held c m d ≡ m)) ⊎ ((c ≢ d) × (put held c m d ≡ held d))
  put_cases d = elim (Bool-cases (eqb c d)) [
    | inl same ↦ inl (ground arith, ground arith)
    | inr other ↦ inr ((λ e. ground arith), ground arith)
  ]

  pub mem-put_cases :
      (d : ℕ) (e : String × Sender)
      → Memᴰ e (put held c m d)
      → ((c ≡ d) × Memᴰ e m) ⊎ ((c ≢ d) × Memᴰ e (held d))
  mem-put_cases d e h = elim (put_cases d) [
    | inl (same, q) ↦ inl (same, subst (Memᴰ e) q h)
    | inr (other, q) ↦ inr (other, subst (Memᴰ e) q h)
  ]

  pub put-IsKeyed : ((d : ℕ) → IsKeyed (held d)) → IsKeyed m → (d : ℕ) → IsKeyed (put held c m d)
  put-IsKeyed h k d = elim (put_cases d) [
    | inl (same, q) ↦ subst IsKeyed (sym q) k
    | inr (other, q) ↦ subst IsKeyed (sym q) (h d)
  ]
