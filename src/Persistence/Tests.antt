-- ===== src/Persistence/Tests.antt =====
-- The theorems about the composite back end on two routes.
use mara_pool.Prelude.{
  ℕ, none, some, refl, inl, inr, List, [], ◌∷◌, Result, ok, err, if◌then◌else◌, nat_eq, ◌==◌, In,
}
use mara_pool.Persistence.{
  share, share_recorded, persist_event, Call, BackendRoute, try_call, try_fallback, after_primary,
  persist_route, persist_routes, persist_all,
}
use mara_pool.Persistence.Routing.{every_route_tried, FromFallback, only_fallback_errors}

-- Back end 0 works, and the others fail with their number.
abbrev some_fail : List (Call ℕ) → Call ℕ → Result ℕ (Unit {0})
some_fail calls c = if c.backend == 0 then ok tt else err c.backend

abbrev first_route : BackendRoute
first_route = record { backend = 1; entities = share ∷ []; fallback = some 2 }

abbrev second_route : BackendRoute
second_route = record { backend = 0; entities = share ∷ []; fallback = none }

every_route_tried_example :
    In
      (record { backend = 0; operation = persist_event (share_recorded 5) })
      (persist_all some_fail (first_route ∷ second_route ∷ []) (share_recorded 5) []).1
every_route_tried_example =
    every_route_tried some_fail (share_recorded 5) second_route (first_route ∷ second_route ∷ []) []
      (inr (inl refl)) refl

only_fallback_errors_example :
    FromFallback some_fail (share_recorded 5) (first_route ∷ second_route ∷ []) 2
unfolding persist_all persist_routes persist_route after_primary try_fallback try_call
only_fallback_errors_example =
    only_fallback_errors some_fail (share_recorded 5) (first_route ∷ second_route ∷ []) [] 2 refl
