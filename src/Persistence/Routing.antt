-- ===== src/Persistence/Routing.antt =====
-- Which back ends are called, and which errors are reported.
use mathlib.Core.Path.{subst}
use mara_pool.Prelude.{
  ℕ, true, Option, none, some, ◌≡◌, refl, inl, inr, ◌⊎◌, List, [], ◌∷◌, ◌++◌, Result, ok, err,
  arith, In, In-append_left, In-append_right, Bool-cases, Option-cases, result_cases, ◌∙◌, ap, sym,
}
use mara_pool.Persistence.{
  PersistenceEvent, entity_type, Operation, persist_event, Call, BackendRoute, handles, try_call,
  try_fallback, after_primary, persist_route, persist_routes, persist_all,
}

module _ {S E : Type 0} (answer : List (Call S) → Call S → Result E (Unit {0})) where
  abbrev persisting : PersistenceEvent S → ℕ → Call S
  persisting event b = record { backend = b; operation = persist_event event }

  after-In :
      (c : Call S) (r : Result E (Unit {0})) (o : Option ℕ) (op : Operation S) (last : Option E)
      (calls : List (Call S))
      → In c calls
      → In c (after_primary answer r o op last calls).1
  unfolding after_primary try_fallback try_call
  after-In c (ok u) o op last calls at = at
  after-In c (err e) none op last calls at = at
  after-In c (err e) (some f) op last calls at = In-append_left c calls _ at

  route-In :
      (c : Call S) (event : PersistenceEvent S) (route : BackendRoute) (last : Option E)
      (calls : List (Call S))
      → In c calls
      → In c (persist_route answer event route last calls).1
  unfolding persist_route
  route-In c event route last calls at = elim (Bool-cases (handles route (entity_type event))) [
    | inl his ↦
        rw (his, persist_route)
          (after-In c (answer calls (persisting event route.backend)) route.fallback
            (persist_event event) last (calls ++ persisting event route.backend ∷ [])
            (In-append_left c calls _ at))
    | inr other ↦ rw (other, persist_route) at
  ]

  routes-In :
      (c : Call S) (event : PersistenceEvent S) (routes : List BackendRoute) (last : Option E)
      (calls : List (Call S))
      → In c calls
      → In c (persist_routes answer event routes last calls).1
  unfolding persist_routes
  routes-In c event [] last calls at = at
  routes-In c event (route ∷ routes) last calls at =
      routes-In c event routes _ _ (route-In c event route last calls at)

  primary-In :
      (event : PersistenceEvent S) (route : BackendRoute) (last : Option E) (calls : List (Call S))
      → handles route (entity_type event) ≡ true
      → In (persisting event route.backend) (persist_route answer event route last calls).1
  unfolding persist_route
  primary-In event route last calls his =
      rw (his, persist_route)
        (after-In _ (answer calls (persisting event route.backend)) route.fallback
          (persist_event event) last (calls ++ persisting event route.backend ∷ [])
          (In-append_right _ calls _ (inl refl)))

  tried :
      (event : PersistenceEvent S) (route : BackendRoute) (routes : List BackendRoute)
      (last : Option E) (calls : List (Call S))
      → In route routes
      → handles route (entity_type event) ≡ true
      → In (persisting event route.backend) (persist_routes answer event routes last calls).1
  unfolding persist_routes
  tried event route [] last calls at his = elim at [ ]
  tried event route (r ∷ routes) last calls (inl same) his = routes-In _ event routes _ _ (
      subst (λ x. In (persisting event route.backend) (persist_route answer event x last calls).1)
        same (primary-In event route last calls his))
  tried event route (r ∷ routes) last calls (inr at) his = tried event route routes _ _ at his

  -- Every route that handles the event's entity has its primary back end called with the event,
  -- whatever the back ends before it answered.
  pub every_route_tried :
      (event : PersistenceEvent S) (route : BackendRoute) (routes : List BackendRoute)
      (calls : List (Call S))
      → In route routes
      → handles route (entity_type event) ≡ true
      → In
          (record { backend = route.backend; operation = persist_event event })
          (persist_all answer routes event calls).1
  unfolding persist_all
  every_route_tried event route routes calls at his = tried event route routes none calls at his

  -- The error is the answer of the fallback of one of the routes.
  abbrev pub FromFallback : PersistenceEvent S → List BackendRoute → E → Type 0
  FromFallback event routes e =
      (route : BackendRoute) × In route routes
      × ((f : ℕ) × (route.fallback ≡ some f)
          × ((calls : List (Call S)) × (answer calls (persisting event f) ≡ err e)))

  after-last :
      (event : PersistenceEvent S) (e : E) (r : Result E (Unit {0})) (o : Option ℕ)
      (last : Option E) (calls : List (Call S))
      → (after_primary answer r o (persist_event event) last calls).0 ≡ some e
      → (last ≡ some e)
        ⊎ ((f : ℕ) × (o ≡ some f) × ((k : List (Call S)) × (answer k (persisting event f) ≡ err e)))
  unfolding after_primary try_fallback try_call
  after-last event e (ok u) o last calls h = inl h
  after-last event e (err x) none last calls h = inl h
  after-last event e (err x) (some f) last calls h =
      elim (result_cases (answer calls (persisting event f))) [
        | inl (u, fine) ↦ inl (ground (arith, fine, h))
        | inr (y, bad) ↦
            let this : some y ≡ some e = ground (arith, bad, h) in
            inr (f, refl, (calls, ground (arith, bad, this)))
      ]

  routes-last :
      (event : PersistenceEvent S) (e : E) (routes : List BackendRoute) (last : Option E)
      (calls : List (Call S))
      → (persist_routes answer event routes last calls).0 ≡ some e
      → (last ≡ some e) ⊎ FromFallback event routes e
  unfolding persist_routes persist_route
  routes-last event e [] last calls h = inl h
  routes-last event e (r ∷ routes) last calls h = elim (routes-last event e routes _ _ h) [
    | inr (route, at, found) ↦ inr (route, inr at, found)
    | inl here ↦ elim (Bool-cases (handles r (entity_type event))) [
      | inr other ↦ inl (ground (arith, other, here))
      | inl his ↦
          let k = calls ++ persisting event r.backend ∷ [] in
          let a = answer calls (persisting event r.backend) in
          let same : persist_route answer event r last calls
              ≡ after_primary answer a r.fallback (persist_event event) last k =
            rw (his, persist_route) refl in
          elim (after-last event e a r.fallback last k (ap (λ x. x.0) (sym same) ∙ here)) [
            | inl before ↦ inl before
            | inr found ↦ inr (r, inl refl, found)
          ]
    ]
  ]

  -- An error that the composite back end reports for an event is the error with which the fallback
  -- of one of its routes answered; an error of a primary back end alone is never reported.
  pub only_fallback_errors :
      (event : PersistenceEvent S) (routes : List BackendRoute) (calls : List (Call S)) (e : E)
      → (persist_all answer routes event calls).0 ≡ err e
      → FromFallback event routes e
  unfolding persist_all
  only_fallback_errors event routes calls e h =
      let last = (persist_routes answer event routes none calls).0 in
      elim (Option-cases last) [
        | inl fine ↦ ground (arith, fine, h)
        | inr (x, failed) ↦
            let this : last ≡ some e = ground (arith, failed, h) in
            elim (routes-last event e routes none calls this) [
              | inl impossible ↦ ground (arith, impossible)
              | inr found ↦ found
            ]
      ]
