-- ===== src/Events/Bridge/Callbacks.antt =====
-- The functions that are called for a job's events, after a subscription is added or removed.
use recipe_import_from_anyth.Base.{
  ◌≡◌, refl, ap, Bool, not, String, ◌==◌, some, List, [], ◌∷◌, ◌++◌, map, eqb, if◌then◌else◌,
  filter_by, arith, eq_iff, Bool-cases, inl, inr,
}
use recipe_import_from_anyth.Base.Map.{get-nil}
use recipe_import_from_anyth.Ids.{JobId, UserId}
use recipe_import_from_anyth.Events.Bridge.{
  Sender, Subscription, Bridge, subscriptions, add_subscription, remove_subscription, stays,
  dispatch, subscriptions-add, subscriptions-remove,
}

abbrev sends : List Subscription → List Sender
sends subs = map (λ sub. sub.send) subs

sends-append :
    (subs : List Subscription) (sub : Subscription)
    → sends (subs ++ sub ∷ []) ≡ sends subs ++ sub.send ∷ []
sends-append [] sub = refl
sends-append (x ∷ subs) sub = ap (λ t. x.send ∷ t) (sends-append subs sub)

-- Another function than this one.
abbrev pub other_than : Sender → Sender → Bool
other_than send x = not (eqb x.serial send.serial)

sends-filter_by :
    (user : UserId) (send : Sender) (subs : List Subscription)
    → sends (filter_by (stays user (some send)) subs) ≡ filter_by (other_than send) (sends subs)
sends-filter_by user send [] = refl
sends-filter_by user send (x ∷ subs) = elim (Bool-cases (other_than send x.send)) [
  | inl kept ↦ rw kept (ap (λ t. x.send ∷ t) (sends-filter_by user send subs))
  | inr gone ↦ rw gone (sends-filter_by user send subs)
]

module _ (j : String) (job : JobId) (user : UserId) (send : Sender) (b : Bridge) where
  pub dispatch-add :
      dispatch j (add_subscription job user send b)
      ≡ (if job.value == j then dispatch j b ++ send ∷ [] else dispatch j b)
  unfolding dispatch
  dispatch-add = elim (Bool-cases (job.value == j)) [
    | inl same ↦ ground (
      arith,
      subscriptions-add j job user send b,
      eq_iff job.value j,
      sends-append (subscriptions j b) (record { user_id = user; send = send }),
    )
    | inr other ↦ ground (arith, subscriptions-add j job user send b)
  ]

  pub dispatch-remove :
      dispatch j (remove_subscription job user (some send) b)
      ≡ (if job.value == j then filter_by (other_than send) (dispatch j b) else dispatch j b)
  unfolding dispatch
  dispatch-remove = elim (Bool-cases (job.value == j)) [
    | inl same ↦ ground (
      arith,
      subscriptions-remove j job user (some send) b,
      eq_iff job.value j,
      sends-filter_by user send (subscriptions j b),
    )
    | inr other ↦ ground (arith, subscriptions-remove j job user (some send) b)
  ]

pub dispatch-nil : (job : String) → dispatch job [] ≡ []
unfolding dispatch subscriptions
dispatch-nil job = rw (get-nil {V = List Subscription} job)
