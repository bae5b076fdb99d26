-- ===== src/Events/Socket/Delivery.antt =====
-- Whom the events of a job reach, after any events of the sockets.
use recipe_import_from_anyth.Base.{
  ℕ, ◌≡◌, ◌↔◌, inl, inr, refl, sym, ap, subst, ◌∙◌, true, ◌&&◌, String, Option, none, some, List,
  [], ◌∷◌, is_some, arith, Bool-cases,
}
use mathlib.Core.List.{Memᴰ}
use recipe_import_from_anyth.Base.Map
use recipe_import_from_anyth.Base.Map.{Map, get-nil}
use recipe_import_from_anyth.Base.Map.Entries.{mem-get}
use recipe_import_from_anyth.Events.Bridge.{Sender, dispatch}
use recipe_import_from_anyth.Events.Bridge.Callbacks.{dispatch-nil}
use recipe_import_from_anyth.Events.Socket.{
  is_open, Server, Event, step, run, start, receives, deliver_to, deliver,
}
use recipe_import_from_anyth.Events.Socket.Consistent.{IsConsistent, step-IsConsistent}

start-IsConsistent : IsConsistent start
start-IsConsistent = record {
  linked = record {
    keyed = λ c j x m. elim m [ ];
    owned = λ c j x m. elim m [ ];
    distinct = λ c d j k x y m n e. elim m [ ];
    called = λ c j x m. elim m [ ];
    registered = λ j x m. elim (subst (Memᴰ x) (dispatch-nil j) m) [ ];
  };
  anonymous = λ c h. refl;
  shut = λ c h. refl;
  unopened = λ c h. refl;
}

run-kept : (s : Server) (events : List Event) → IsConsistent s → IsConsistent (run s events)
unfolding run
run-kept s [] ok = ok
run-kept s (e ∷ events) ok = run-kept (step s e) events (step-IsConsistent s e ok)

-- After any events of the sockets the server is consistent: each connection holds one callback for
-- each of its jobs, the bridge calls for a job just the callbacks that are held for it, and a
-- connection that has no user, or that is closed, holds none.
pub run-IsConsistent : (events : List Event) → IsConsistent (run start events)
run-IsConsistent events = run-kept start events start-IsConsistent

deliver_to_sound :
    (s : Server) (sends : List Sender) (c : ℕ)
    → Memᴰ c (deliver_to s sends)
    → (x : Sender) × Memᴰ x sends × (receives s x ≡ true) × (x.connection ≡ c)
unfolding deliver_to
deliver_to_sound s [] c m = elim m [ ]
deliver_to_sound s (send ∷ sends) c m = elim (Bool-cases (receives s send)) [
  | inl takes ↦ elim (rw (takes, deliver_to) at m) [
    | Memᴰ.head e ↦ (send, Memᴰ.head refl, takes, sym e)
    | Memᴰ.tail t ↦ let (x, n, r, q) = deliver_to_sound s sends c t in (x, Memᴰ.tail n, r, q)
  ]
  | inr skips ↦
      let (x, n, r, q) = deliver_to_sound s sends c (rw (skips, deliver_to) at m) in
      (x, Memᴰ.tail n, r, q)
]

deliver_to_complete :
    (s : Server) (sends : List Sender) (x : Sender)
    → Memᴰ x sends
    → receives s x ≡ true
    → Memᴰ x.connection (deliver_to s sends)
unfolding deliver_to
deliver_to_complete s [] x m r = elim m [ ]
deliver_to_complete s (send ∷ sends) x (Memᴰ.head e) r =
    rw (ap (receives s) (sym e) ∙ r) (Memᴰ.head (ap (λ (y : Sender). y.connection) e))
deliver_to_complete s (send ∷ sends) x (Memᴰ.tail m) r = elim (Bool-cases (receives s send)) [
  | inl takes ↦ rw takes (Memᴰ.tail (deliver_to_complete s sends x m r))
  | inr skips ↦ rw skips (deliver_to_complete s sends x m r)
]

module _ (s : Server) (ok : IsConsistent s) (job : String) where
  receives-own :
      (c : ℕ) (x : Sender)
      → Memᴰ (job, x) (s.connections c).subscriptions
      → receives s x
        ≡ (is_some (Map.get job (s.connections c).subscriptions) && is_open (s.connections c).state)
  unfolding receives
  receives-own c x m = let (at, of, lt) = ok.linked.owned c job x m in rw (at, of) refl

  reached :
      (c : ℕ)
      → Memᴰ c (deliver s job)
      → (is_open (s.connections c).state ≡ true)
        × (is_some (Map.get job (s.connections c).subscriptions) ≡ true)
  unfolding deliver
  reached c m =
      let (x, n, r, q) = deliver_to_sound s (dispatch job s.bridge) c m in
      let own = receives-own x.connection x (ok.linked.registered job x n) in
      rw (← q) (ground (arith, own, r))

  reach :
      (c : ℕ) (x : Sender)
      → Map.get job (s.connections c).subscriptions ≡ some x
      → is_open (s.connections c).state ≡ true
      → Memᴰ c (deliver s job)
  unfolding deliver
  reach c x found up =
      let m = mem-get job x (s.connections c).subscriptions found in
      subst (λ d. Memᴰ d (deliver_to s (dispatch job s.bridge))) ((ok.linked.owned c job x m).0)
        (deliver_to_complete s (dispatch job s.bridge) x (ok.linked.called c job x m)
          (ground (arith, receives-own c x m, found, up)))

  reach_of :
      (c : ℕ) (o : Option Sender)
      → Map.get job (s.connections c).subscriptions ≡ o
      → is_open (s.connections c).state ≡ true
      → is_some o ≡ true
      → Memᴰ c (deliver s job)
  reach_of c none found up h = cc
  reach_of c (some x) found up h = reach c x found up

-- After any events of the sockets, an event of a job reaches a connection exactly when its socket
-- is open and it holds a callback for the job.
pub deliver_iff :
    (events : List Event) (job : String) (c : ℕ)
    → let s = run start events in
      (Memᴰ c (deliver s job)) ↔ (
        (is_open (s.connections c).state ≡ true)
        × (is_some (Map.get job (s.connections c).subscriptions) ≡ true))
deliver_iff events job c =
    let ok = run-IsConsistent events in
    (
      reached (run start events) ok job c,
      λ (up, held). reach_of (run start events) ok job c _ refl up held,
    )
