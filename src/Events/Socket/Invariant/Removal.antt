-- ===== src/Events/Socket/Invariant/Removal.antt =====
-- Unsubscribing and closing keep the connections and the bridge linked.
use recipe_import_from_anyth.Base.{
  ℕ, ◌≡◌, ◌≢◌, inl, inr, sym, subst, true, String, ◌==◌, some, arith, eq_iff, Bool-cases,
  mem-filter_by, mem-kept,
}
use mathlib.Core.List.{Memᴰ}
use mathlib.Core.Option.{some-injective}
use recipe_import_from_anyth.Base.Map
use recipe_import_from_anyth.Base.Map.{Map, get-delete}
use recipe_import_from_anyth.Base.Map.Entries.{mem-get, mem-delete, IsKeyed, delete-IsKeyed}
use recipe_import_from_anyth.Ids.{UserId}
use recipe_import_from_anyth.Events.Bridge.{Sender, Bridge, remove_subscription, dispatch}
use recipe_import_from_anyth.Events.Bridge.Callbacks.{other_than, dispatch-remove}
use recipe_import_from_anyth.Events.Socket.{job_id}
use recipe_import_from_anyth.Events.Socket.Invariant.{
  Held, put, IsLinked, put_cases, mem-put_cases, put-IsKeyed,
}

pub other_than_self : (x : Sender) → other_than x x ≢ true
other_than_self x = λ h. ground arith

module _ (held : Held) (b : Bridge) (next : ℕ) (linked : IsLinked held b next) (c : ℕ) where
  -- What a removal must do to the connection's entries and to the bridge.
  pub record IsCut (m : Map Sender) (cut : Bridge) : Type 0 where
    pub keyed : IsKeyed m
    pub fewer : (j : String) (x : Sender) → Memᴰ (j, x) m → Memᴰ (j, x) (held c)
    pub called : (j : String) (x : Sender) → Memᴰ (j, x) m → Memᴰ x (dispatch j cut)
    pub others :
        (d : ℕ) (j : String) (x : Sender) → c ≢ d → Memᴰ (j, x) (held d) → Memᴰ x (dispatch j cut)
    pub registered :
        (j : String) (x : Sender)
        → Memᴰ x (dispatch j cut)
        → Memᴰ x (dispatch j b) × (c ≡ x.connection → Memᴰ (j, x) m)

  pub IsCut-IsLinked :
      (m : Map Sender) (cut : Bridge) → IsCut m cut → IsLinked (put held c m) cut next
  IsCut-IsLinked m cut h = record {
    keyed = put-IsKeyed held c m linked.keyed h.keyed;
    owned = λ d j x e. linked.owned d j x (old d j x e);
    distinct = λ d k i j x y e f same. linked.distinct d k i j x y (old d i x e) (old k j y f) same;
    called = λ d j x e. elim (mem-put_cases held c m d (j, x) e) [
      | inl (same, mem) ↦ h.called j x mem
      | inr (other, mem) ↦ h.others d j x other mem
    ];
    registered = λ j x e.
        let (mem, mine) = h.registered j x e in
        elim (put_cases held c m x.connection) [
          | inl (same, q) ↦ subst (Memᴰ (j, x)) (sym q) (mine same)
          | inr (other, q) ↦ subst (Memᴰ (j, x)) (sym q) (linked.registered j x mem)
        ];
  }
    where
      old : (d : ℕ) (j : String) (x : Sender) → Memᴰ (j, x) (put held c m d) → Memᴰ (j, x) (held d)
      old d j x e = elim (mem-put_cases held c m d (j, x) e) [
        | inl (same, mem) ↦ subst (λ k. Memᴰ (j, x) (held k)) same (h.fewer j x mem)
        | inr (other, mem) ↦ mem
      ]

  -- A callback of another connection than that of a held one has another serial number.
  pub other_connection :
      (d : ℕ) (i j : String) (x y : Sender)
      → c ≢ d
      → Memᴰ (i, y) (held c)
      → Memᴰ (j, x) (held d)
      → other_than y x ≡ true
  other_connection d i j x y ne m n = elim (Bool-cases (other_than y x)) [
    | inl h ↦ h
    | inr same ↦ absurd (ne ((linked.distinct c d i j y x m n (ground arith)).0))
  ]

  module _ (job : String) (user : UserId) (send : Sender)
      (found : Map.get job (held c) ≡ some send) where
    abbrev removed : Bridge
    removed = remove_subscription (job_id job) user (some send) b

    kept :
        (j : String) (x : Sender)
        → Memᴰ x (dispatch j b)
        → other_than send x ≡ true
        → Memᴰ x (dispatch j removed)
    kept j x m h = elim (Bool-cases (job == j)) [
      | inl same ↦
          rw (dispatch-remove j (job_id job) user send b, same)
            (mem-kept (other_than send) x (dispatch j b) m h)
      | inr other ↦ rw (dispatch-remove j (job_id job) user send b, other) m
    ]

    kept_other :
        (j : String) (x : Sender) → Memᴰ x (dispatch j b) → job ≢ j → Memᴰ x (dispatch j removed)
    kept_other j x m ne = elim (Bool-cases (job == j)) [
      | inl same ↦ absurd (ground (arith, eq_iff job j))
      | inr other ↦ rw (dispatch-remove j (job_id job) user send b, other) m
    ]

    left :
        (j : String) (x : Sender)
        → Memᴰ x (dispatch j removed)
        → Memᴰ x (dispatch j b) × (job ≡ j → other_than send x ≡ true)
    left j x m = elim (Bool-cases (job == j)) [
      | inl same ↦
          let (old, h) =
            mem-filter_by (other_than send) x (dispatch j b)
              (rw (dispatch-remove j (job_id job) user send b, same) at m) in
          (old, λ e. h)
      | inr other ↦ (
        rw (dispatch-remove j (job_id job) user send b, other) at m,
        λ e. absurd (ground (arith, eq_iff job j)),
      )
    ]

    stays_held :
        (j : String) (x : Sender)
        → Memᴰ (j, x) (held c)
        → job ≢ j
        → Memᴰ (j, x) (Map.delete job (held c))
    stays_held j x m ne =
        let e = linked.keyed c j x m in
        mem-get j x (Map.delete job (held c))
          (ground (arith, get-delete j job (held c), eq_iff job j, e))

    mine : (j : String) (x : Sender) → Memᴰ (j, x) (held c) → job ≡ j → x ≡ send
    mine j x m e = let h = linked.keyed c j x m in some-injective _ _ (ground (arith, h, found, e))

    unsubscribed-IsCut : IsCut (Map.delete job (held c)) removed
    unsubscribed-IsCut = record {
      keyed = delete-IsKeyed job (held c) (linked.keyed c);
      fewer = λ j x m. (mem-delete j job x (held c) m).0;
      called = λ j x m.
          let (old, ne) = mem-delete j job x (held c) m in
          kept_other j x (linked.called c j x old) ne;
      others = λ d j x ne m.
          kept j x (linked.called d j x m)
            (other_connection d job j x send ne (mem-get job send (held c) found) m);
      registered = λ j x m.
          let (old, h) = left j x m in
          (
            old,
            λ own.
                let r = subst (λ k. Memᴰ (j, x) (held k)) (sym own) (linked.registered j x old) in
                elim (Bool-cases (job == j)) [
                  | inl same ↦
                      let e : job ≡ j = ground (arith, eq_iff job j) in
                      absurd (
                        other_than_self send
                          (subst (λ y. other_than send y ≡ true) (mine j x r e) (h e)))
                  | inr other ↦ stays_held j x r (λ e. ground (arith, eq_iff job j))
                ],
          );
    }

    pub unsubscribe-IsLinked : IsLinked (put held c (Map.delete job (held c))) removed next
    unsubscribe-IsLinked = IsCut-IsLinked (Map.delete job (held c)) removed unsubscribed-IsCut
