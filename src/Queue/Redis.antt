-- ===== src/Queue/Redis.antt =====
-- What the service uses of Redis (`ioredis`, not part of this repository): keys that expire. Each
-- operation takes the time, in milliseconds, at which the server runs it.
use recipe_import_from_anyth.Base.{
  ℕ, ◌+◌, ◌≤◌, ◌≡◌, refl, Bool, true, false, String, ◌==◌, Option, none, some, List, [], ◌∷◌, ltb,
  is_some, if◌then◌else◌, arith, eq_iff,
}

pub record Redis : Type 1 where
  pub Store : Type 0
  -- GET key
  pub get : String → ℕ → Store → Option String
  -- SET key value PX ttl
  pub set_px : String → String → ℕ → ℕ → Store → Store
  -- SET key value PX ttl NX, and whether it answered "OK"
  pub set_px_nx : String → String → ℕ → ℕ → Store → Bool × Store
  -- DEL key
  pub del : String → Store → Store
  -- A key that is set is read until its time to live has passed; other keys are as before.
  pub get-set_px :
      (j k v : String) (ttl now later : ℕ) (s : Store)
      → now ≤ later
      → get j later (set_px k v ttl now s)
        ≡ (if k == j then (if ltb later (now + ttl) then some v else none) else get j later s)
  -- NX sets an absent key, and leaves a present one alone.
  pub set_px_nx_lem :
      (k v : String) (ttl now : ℕ) (s : Store)
      → set_px_nx k v ttl now s
        ≡ (if is_some (get k now s) then (false, s) else (true, set_px k v ttl now s))
  pub get-del :
      (j k : String) (now : ℕ) (s : Store)
      → get j now (del k s) ≡ (if k == j then none else get j now s)

-- A table of entries with the time at which each expires.
abbrev pub Table : Type 0
Table = List (String × String × ℕ)

abbrev pub read : String → ℕ → Table → Option String
read k now [] = none
read k now ((j, v, expires) ∷ t) =
    if j == k then (if ltb now expires then some v else none) else read k now t

abbrev pub remove : String → Table → Table
remove k [] = []
remove k ((j, v, expires) ∷ t) = if j == k then remove k t else (j, v, expires) ∷ remove k t

pub read-remove :
    (j k : String) (now : ℕ) (t : Table)
    → read j now (remove k t) ≡ (if k == j then none else read j now t)
read-remove j k now [] = ground arith
read-remove j k now ((i, v, expires) ∷ t) =
    ground (arith, eq_iff i k, eq_iff i j, eq_iff k j, read-remove j k now t)

-- A Redis that meets the laws.
abbrev pub table_redis : Redis
table_redis = record {
  Store = Table;
  get = read;
  set_px = λ k v ttl now t. (k, v, now + ttl) ∷ t;
  set_px_nx =
      λ k v ttl now t. if is_some (read k now t) then (false, t) else (true, (k, v, now + ttl) ∷ t);
  del = remove;
  get-set_px = λ j k v ttl now later s h. refl;
  set_px_nx_lem = λ k v ttl now s. refl;
  get-del = read-remove;
}
