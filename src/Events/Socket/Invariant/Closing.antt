-- ===== src/Events/Socket/Invariant/Closing.antt =====
-- Closing a connection keeps the connections and the bridge linked.
use recipe_import_from_anyth.Base.{
  ℕ, ◌≡◌, inl, inr, sym, ap, subst, true, String, ◌==◌, some, [], ◌∷◌, arith, eq_iff, Bool-cases,
  mem-filter_by, mem-kept,
}
use mathlib.Core.List.{Memᴰ}
use recipe_import_from_anyth.Base.Map.{Map}
use recipe_import_from_anyth.Ids.{UserId}
use recipe_import_from_anyth.Events.Bridge.{Sender, Bridge, remove_subscription, dispatch}
use recipe_import_from_anyth.Events.Bridge.Callbacks.{other_than, dispatch-remove}
use recipe_import_from_anyth.Events.Socket.{job_id, remove_each}
use recipe_import_from_anyth.Events.Socket.Invariant.{Held, put, IsLinked}
use recipe_import_from_anyth.Events.Socket.Invariant.Removal.{
  IsCut, IsCut-IsLinked, other_connection, other_than_self,
}

module _ (user : UserId) (j : String) (x : Sender) where
  -- What the loop leaves was there, and is none of the entries.
  remove_each-left :
      (entries : Map Sender) (b : Bridge)
      → Memᴰ x (dispatch j (remove_each user entries b))
      → Memᴰ x (dispatch j b) × ((y : Sender) → Memᴰ (j, y) entries → other_than y x ≡ true)
  unfolding remove_each
  remove_each-left [] b m = (m, λ y h. elim h [ ])
  remove_each-left ((k, send) ∷ entries) b m =
      let (rest, apart) =
        remove_each-left entries (remove_subscription (job_id k) user (some send) b) m in
      elim (Bool-cases (k == j)) [
        | inl same ↦
            let (old, h) =
              mem-filter_by (other_than send) x (dispatch j b)
                (rw (dispatch-remove j (job_id k) user send b, same) at rest) in
            (
              old,
              λ y n. elim n [
                | Memᴰ.head e ↦ rw (ap (λ (p : String × Sender). p.1) e) h
                | Memᴰ.tail t ↦ apart y t
              ],
            )
        | inr other ↦ (
          rw (dispatch-remove j (job_id k) user send b, other) at rest,
          λ y n. elim n [
            | Memᴰ.head e ↦ absurd (ground (arith, eq_iff k j, ap (λ (p : String × Sender). p.0) e))
            | Memᴰ.tail t ↦ apart y t
          ],
        )
      ]

  -- The loop keeps what is none of the entries.
  remove_each-kept :
      (entries : Map Sender) (b : Bridge)
      → Memᴰ x (dispatch j b)
      → ((y : Sender) → Memᴰ (j, y) entries → other_than y x ≡ true)
      → Memᴰ x (dispatch j (remove_each user entries b))
  unfolding remove_each
  remove_each-kept [] b m apart = m
  remove_each-kept ((k, send) ∷ entries) b m apart =
      remove_each-kept entries (remove_subscription (job_id k) user (some send) b)
        (elim (Bool-cases (k == j)) [
          | inl same ↦
              rw (dispatch-remove j (job_id k) user send b, same)
                (mem-kept (other_than send) x (dispatch j b) m
                  (apart send (Memᴰ.head (ground (arith, eq_iff k j)))))
          | inr other ↦ rw (dispatch-remove j (job_id k) user send b, other) m
        ])
        (λ y t. apart y (Memᴰ.tail t))

module _ (held : Held) (b : Bridge) (next : ℕ) (linked : IsLinked held b next) (c : ℕ)
    (user : UserId) where
  closed-IsCut : IsCut held b next linked c [] (remove_each user (held c) b)
  closed-IsCut = record {
    keyed = λ j x m. elim m [ ];
    fewer = λ j x m. elim m [ ];
    called = λ j x m. elim m [ ];
    others = λ d j x ne m.
        remove_each-kept user j x (held c) b (linked.called d j x m)
          (λ y n. other_connection held b next linked c d j j x y ne n m);
    registered = λ j x m.
        let (old, apart) = remove_each-left user j x (held c) b m in
        (
          old,
          λ own. absurd (
              other_than_self x (
                apart x (subst (λ k. Memᴰ (j, x) (held k)) (sym own) (linked.registered j x old)))),
        );
  }

  pub close-IsLinked : IsLinked (put held c []) (remove_each user (held c) b) next
  close-IsLinked = IsCut-IsLinked held b next linked c [] _ closed-IsCut
