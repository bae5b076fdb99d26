-- ===== src/Events/Socket/Invariant/Steps.antt =====
-- Subscribing and unsubscribing keep the connections and the bridge linked.
use recipe_import_from_anyth.Base.{
  ℕ, suc, ◌≡◌, ◌⊎◌, inl, inr, sym, ap, subst, ◌∙◌, String, ◌==◌, none, arith, eq_iff, eq_refl,
  Bool-cases, mem-last, mem-before, mem-append_cases,
}
use mathlib.Core.List.{Memᴰ}
use recipe_import_from_anyth.Base.Map
use recipe_import_from_anyth.Base.Map.{Map, get-set, get-delete}
use recipe_import_from_anyth.Base.Map.Entries.{mem-get, mem-set, set-IsKeyed}
use recipe_import_from_anyth.Ids.{UserId}
use recipe_import_from_anyth.Events.Bridge.{Sender, Bridge, add_subscription, dispatch}
use recipe_import_from_anyth.Events.Bridge.Callbacks.{dispatch-add}
use recipe_import_from_anyth.Events.Socket.{job_id}
use recipe_import_from_anyth.Events.Socket.Invariant.{
  Held, put, IsLinked, put-here, put_cases, mem-put_cases, put-IsKeyed,
}

module _ (held : Held) (b : Bridge) (next : ℕ) (linked : IsLinked held b next) (c : ℕ)
    (job : String) (user : UserId) where
  -- The callback of a new subscription.
  abbrev pub new_sender : Sender
  new_sender = record { serial = next; connection = c; job = job }

  abbrev pub added : Map Sender
  added = Map.set job new_sender (held c)

  abbrev pub held_after : Held
  held_after = put held c added

  abbrev pub bridge_after : Bridge
  bridge_after = add_subscription (job_id job) user new_sender b

  -- An entry after a subscription is an old one, or the new one.
  entry_cases :
      (d : ℕ) (j : String) (x : Sender)
      → Memᴰ (j, x) (held_after d)
      → Memᴰ (j, x) (held d) ⊎ ((c ≡ d) × (j ≡ job) × (x ≡ new_sender))
  entry_cases d j x m = elim (mem-put_cases held c added d (j, x) m) [
    | inl (same, h) ↦ elim (mem-set j job x new_sender (held c) h) [
      | inl old ↦ inl (subst (λ k. Memᴰ (j, x) (held k)) same old)
      | inr (k, e) ↦ inr (same, k, e)
    ]
    | inr (other, h) ↦ inl h
  ]

  call_cases :
      (j : String) (x : Sender)
      → Memᴰ x (dispatch j bridge_after)
      → Memᴰ x (dispatch j b) ⊎ ((job ≡ j) × (x ≡ new_sender))
  call_cases j x m = elim (Bool-cases (job == j)) [
    | inl same ↦
        elim (mem-append_cases x new_sender (dispatch j b)
          (rw (dispatch-add j (job_id job) user new_sender b, same) at m)) [
            | inl old ↦ inl old
            | inr new ↦ inr (ground (arith, eq_iff job j), new)
          ]
    | inr other ↦ inl (rw (dispatch-add j (job_id job) user new_sender b, other) at m)
  ]

  call_kept : (j : String) (x : Sender) → Memᴰ x (dispatch j b) → Memᴰ x (dispatch j bridge_after)
  call_kept j x m = elim (Bool-cases (job == j)) [
    | inl same ↦
        rw (dispatch-add j (job_id job) user new_sender b, same)
          (mem-before x new_sender (dispatch j b) m)
    | inr other ↦ rw (dispatch-add j (job_id job) user new_sender b, other) m
  ]

  call_new : Memᴰ new_sender (dispatch job bridge_after)
  call_new =
      rw (dispatch-add job (job_id job) user new_sender b, eq_refl job)
        (mem-last new_sender (dispatch job b))

  distinct_after :
      (d e : ℕ) (j k : String) (x y : Sender)
      → Memᴰ (j, x) (held_after d)
      → Memᴰ (k, y) (held_after e)
      → x.serial ≡ y.serial
      → (d ≡ e) × (j ≡ k)
  distinct_after d e j k x y m n same = elim (entry_cases d j x m) [
    | inl old ↦ elim (entry_cases e k y n) [
      | inl old' ↦ linked.distinct d e j k x y old old' same
      | inr (p, q, r) ↦
          absurd (ground (arith, linked.owned d j x old, ap (λ (s : Sender). s.serial) r))
    ]
    | inr (p, q, r) ↦ elim (entry_cases e k y n) [
      | inl old' ↦ absurd (ground (arith, linked.owned e k y old', ap (λ (s : Sender). s.serial) r))
      | inr (p', q', r') ↦ (sym p ∙ p', q ∙ sym q')
    ]
  ]

  module _ (absent : Map.get job (held c) ≡ none) where
    entry_kept :
        (d : ℕ) (j : String) (x : Sender) → Memᴰ (j, x) (held d) → Memᴰ (j, x) (held_after d)
    entry_kept d j x m = elim (put_cases held c added d) [
      | inl (same, e) ↦
          let found = linked.keyed d j x m in
          subst (Memᴰ (j, x)) (sym e) (
            mem-get j x added (
              ground (arith, get-set j job new_sender (held c), eq_iff job j, found, same, absent)))
      | inr (other, e) ↦ subst (Memᴰ (j, x)) (sym e) m
    ]

    entry_new : Memᴰ (job, new_sender) (held_after c)
    entry_new = subst (Memᴰ (job, new_sender)) (sym (put-here held c added)) (
        mem-get job new_sender added
          (ground (arith, get-set job job new_sender (held c), eq_refl job)))

    pub add-IsLinked : IsLinked held_after bridge_after (suc next)
    add-IsLinked = record {
      keyed =
          put-IsKeyed held c added linked.keyed
            (set-IsKeyed job new_sender (held c) absent (linked.keyed c));
      owned = λ d j x m. elim (entry_cases d j x m) [
        | inl old ↦ ground (arith, linked.owned d j x old)
        | inr (p, q, r) ↦ (
          ap (λ (s : Sender). s.connection) r ∙ p,
          ap (λ (s : Sender). s.job) r ∙ sym q,
          ground (arith, ap (λ (s : Sender). s.serial) r),
        )
      ];
      distinct = distinct_after;
      called = λ d j x m. elim (entry_cases d j x m) [
        | inl old ↦ call_kept j x (linked.called d j x old)
        | inr (p, q, r) ↦ rw (q, r) call_new
      ];
      registered = λ j x m. elim (call_cases j x m) [
        | inl old ↦ entry_kept x.connection j x (linked.registered j x old)
        | inr (q, r) ↦ rw (r, ← q) entry_new
      ];
    }
