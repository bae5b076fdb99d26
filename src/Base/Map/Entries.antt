-- ===== src/Base/Map/Entries.antt =====
-- The entries of a map after it is changed.
use Prim.Native.String.{String}
use mathlib.Core.Path.{◌≡◌, refl, ap}
use mathlib.Core.Logic.{◌≢◌, ◌⊎◌, inl, inr}
use mathlib.Core.Option.{none, some}
use mathlib.Core.List.{[], ◌∷◌, Memᴰ}
use native.Mathlib.Omega.{arith}
use text.Mathlib.Text.{◌==◌}
use text.Mathlib.TextEquality.{eq_iff}
use recipe_import_from_anyth.Base.Tests.{Bool-cases}
use recipe_import_from_anyth.Base.Map.{Map, get, set, delete, get-set, get-delete}

module _ {V : Type 0} where
  pub mem-get : (k : String) (v : V) (m : Map V) → get k m ≡ some v → Memᴰ (k, v) m
  unfolding get
  mem-get k v [] h = cc
  mem-get k v ((j, w) ∷ m) h = elim (Bool-cases (j == k)) [
    | inl same ↦ Memᴰ.head (ground (arith, eq_iff j k))
    | inr other ↦ Memᴰ.tail (mem-get k v m (rw (other, get) at h))
  ]

  pub mem-set :
      (j k : String) (w v : V) (m : Map V)
      → Memᴰ (j, w) (set k v m)
      → Memᴰ (j, w) m ⊎ ((j ≡ k) × (w ≡ v))
  unfolding set
  mem-set j k w v [] (Memᴰ.head e) = inr (ap (λ p. p.0) e, ap (λ p. p.1) e)
  mem-set j k w v [] (Memᴰ.tail m) = elim m [ ]
  mem-set j k w v ((i, u) ∷ m) h = elim (Bool-cases (i == k)) [
    | inl same ↦ elim (rw (same, set) at h) [
      | Memᴰ.head e ↦ inr (ap (λ p. p.0) e, ap (λ p. p.1) e)
      | Memᴰ.tail t ↦ inl (Memᴰ.tail t)
    ]
    | inr other ↦ elim (rw (other, set) at h) [
      | Memᴰ.head e ↦ inl (Memᴰ.head e)
      | Memᴰ.tail t ↦ elim (mem-set j k w v m t) [
        | inl old ↦ inl (Memᴰ.tail old)
        | inr new ↦ inr new
      ]
    ]
  ]

  pub mem-delete :
      (j k : String) (w : V) (m : Map V) → Memᴰ (j, w) (delete k m) → Memᴰ (j, w) m × (k ≢ j)
  unfolding delete
  mem-delete j k w [] h = elim h [ ]
  mem-delete j k w ((i, u) ∷ m) h = elim (Bool-cases (i == k)) [
    | inl same ↦ let (t, ne) = mem-delete j k w m (rw (same, delete) at h) in (Memᴰ.tail t, ne)
    | inr other ↦ elim (rw (other, delete) at h) [
      | Memᴰ.head e ↦ (Memᴰ.head e, λ q. ground (arith, eq_iff i k, ap (λ p. p.0) e, q))
      | Memᴰ.tail t ↦ let (t', ne) = mem-delete j k w m t in (Memᴰ.tail t', ne)
    ]
  ]

  -- No entry is hidden by another with its key.
  abbrev pub IsKeyed : Map V → Type 0
  IsKeyed m = (j : String) (w : V) → Memᴰ (j, w) m → get j m ≡ some w

  pub set-IsKeyed :
      (k : String) (v : V) (m : Map V) → get k m ≡ none → IsKeyed m → IsKeyed (set k v m)
  set-IsKeyed k v m absent h j w mem = elim (mem-set j k w v m mem) [
    | inl old ↦ ground (arith, get-set j k v m, eq_iff k j, h j w old)
    | inr (same, e) ↦ ground (arith, get-set j k v m, eq_iff k j)
  ]

  pub delete-IsKeyed : (k : String) (m : Map V) → IsKeyed m → IsKeyed (delete k m)
  delete-IsKeyed k m h j w mem =
      let (old, ne) = mem-delete j k w m mem in
      ground (arith, get-delete j k m, eq_iff k j, h j w old)

  pub delete_absent : (k : String) (m : Map V) → get k m ≡ none → delete k m ≡ m
  unfolding get delete
  delete_absent k [] h = refl
  delete_absent k ((j, v) ∷ m) h = elim (Bool-cases (j == k)) [
    | inl same ↦ absurd (ground arith)
    | inr other ↦ rw (other, delete, delete_absent k m (rw (other, get) at h))
  ]
