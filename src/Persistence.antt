-- ===== src/Persistence.antt =====
-- stratum-apps/src/persistence/composite.rs: the persistence layer that hands events to several
-- back ends.
pub mod Routing
mod Tests
use mara_pool.Prelude.{
  ℕ, Bool, true, false, Option, none, some, List, [], ◌∷◌, ◌++◌, Result, ok, err, if◌then◌else◌,
}

pub data EntityType : Type 0 where
  share : EntityType

-- An event, with the data of the share left open.
pub data PersistenceEvent (S : Type 0) : Type 0 where
  share_recorded : S → PersistenceEvent S

abbrev pub entity_type : {S : Type 0} → PersistenceEvent S → EntityType
entity_type (share_recorded s) = share

pub data Operation (S : Type 0) : Type 0 where
  persist_event : PersistenceEvent S → Operation S
  flush : Operation S
  shutdown : Operation S

-- A call of a back end, which stands for the object behind an `Arc`.
pub record Call (S : Type 0) : Type 0 where
  pub backend : ℕ
  pub operation : Operation S

-- The name, which is only logged, is left out.
pub record BackendRoute : Type 0 where
  pub backend : ℕ
  pub entities : List EntityType
  pub fallback : Option ℕ

abbrev pub same_entity : EntityType → EntityType → Bool
same_entity share share = true

-- `HashSet::contains`.
abbrev pub holds : EntityType → List EntityType → Bool
holds e [] = false
holds e (x ∷ xs) = if same_entity x e then true else holds e xs

abbrev pub handles : BackendRoute → EntityType → Bool
handles route e = holds e route.entities

-- `CompositeBackendBuilder::add_route`.
abbrev pub add_route : List BackendRoute → BackendRoute → List BackendRoute
add_route routes route = routes ++ route ∷ []

-- The back ends are parameters: `answer` is what a call returns after the calls that were made
-- before.
module _ {S E : Type 0} (answer : List (Call S) → Call S → Result E (Unit {0})) where
  -- A call of a back end, and the last error after it.
  unfoldable pub try_call : ℕ → Operation S → Option E → List (Call S) → Option E × List (Call S)
  try_call b op last calls =
      let c : Call S = record { backend = b; operation = op } in
      (elim (answer calls c) [ ok u ↦ last | err e ↦ some e ], calls ++ c ∷ [])

  unfoldable pub try_fallback :
      Option ℕ → Operation S → Option E → List (Call S) → Option E × List (Call S)
  try_fallback none op last calls = (last, calls)
  try_fallback (some f) op last calls = try_call f op last calls

  -- After the primary back end: its own error is dropped.
  unfoldable pub after_primary :
      Result E (Unit {0})
      → Option ℕ
      → Operation S
      → Option E
      → List (Call S)
      → Option E × List (Call S)
  after_primary (ok u) fallback op last calls = (last, calls)
  after_primary (err e) fallback op last calls = try_fallback fallback op last calls

  unfoldable pub persist_route :
      PersistenceEvent S → BackendRoute → Option E → List (Call S) → Option E × List (Call S)
  persist_route event route last calls =
      let c : Call S = record { backend = route.backend; operation = persist_event event } in
      if handles route (entity_type event)
      then after_primary (answer calls c) route.fallback (persist_event event) last
          (calls ++ c ∷ [])
      else (last, calls)

  unfoldable pub persist_routes :
      PersistenceEvent S → List BackendRoute → Option E → List (Call S) → Option E × List (Call S)
  persist_routes event [] last calls = (last, calls)
  persist_routes event (route ∷ routes) last calls =
      let (last', calls') = persist_route event route last calls in
      persist_routes event routes last' calls'

  abbrev pub result_of : Option E → Result E (Unit {0})
  result_of none = ok tt
  result_of (some e) = err e

  -- `CompositeBackend::persist_event`.
  unfoldable pub persist_all :
      List BackendRoute → PersistenceEvent S → List (Call S) → Result E (Unit {0}) × List (Call S)
  persist_all routes event calls =
      let (last, calls') = persist_routes event routes none calls in (result_of last, calls')

  -- The loop of `flush` and of `shutdown`: both back ends of every route are called.
  unfoldable pub sweep :
      Operation S → List BackendRoute → Option E → List (Call S) → Option E × List (Call S)
  sweep op [] last calls = (last, calls)
  sweep op (route ∷ routes) last calls =
      let (last1, calls1) = try_call route.backend op last calls in
      let (last2, calls2) = try_fallback route.fallback op last1 calls1 in
      sweep op routes last2 calls2

  unfoldable pub flush_all : List BackendRoute → List (Call S) → Result E (Unit {0}) × List (Call S)
  flush_all routes calls =
      let (last, calls') = sweep flush routes none calls in (result_of last, calls')

  unfoldable pub shutdown_all :
      List BackendRoute → List (Call S) → Result E (Unit {0}) × List (Call S)
  shutdown_all routes calls =
      let (last, calls') = sweep shutdown routes none calls in (result_of last, calls')
