-- ===== src/Translator/Difficulty/Applied.antt =====
-- The updates that a `SetTarget` applies, and their messages.
use mathlib.Core.Path.{subst}
use mara_pool.Prelude.{
  ℕ, Bool, true, not, Option, none, some, ◌≡◌, refl, inl, inr, List, [], ◌∷◌, ◌++◌, ok, arith,
  nat_eq, leb, In, In-append_right, In-append, Option-cases, result_cases, Bool-cases, ◌∙◌, ap, sym,
}
use mara_pool.Prelude.Map.{Map, lookup}
use mara_pool.Translator.Core.{Sv1Core, Message}
use mara_pool.Translator.State.{DownstreamData, PendingTargetUpdate, Broadcast}
use mara_pool.Translator.Difficulty.Upstream.{set_difficulty_for}
use mara_pool.Translator.Difficulty.SetTarget.{
  set_upstream_target, set_all_upstream_targets, concerns, keep_pending, applicable_updates,
  pending_messages,
}

module _ ⦃core : Sv1Core⦄ where
  open core use {build_set_difficulty}

  pub lookup-set_all :
      (id target : ℕ) (m : Map ℕ DownstreamData)
      → lookup id (set_all_upstream_targets target m)
        ≡ elim (lookup id m) [ none ↦ none | some d ↦ some (set_upstream_target target d) ]
  unfolding lookup set_all_upstream_targets
  lookup-set_all id target [] = refl
  lookup-set_all id target ((j, d) ∷ m) = ground (arith, lookup-set_all id target m)

  -- Nothing that waits is for the connection.
  abbrev pub waits_not : Option ℕ → PendingTargetUpdate → Bool
  waits_not who u = not (concerns who u)

  pub keep_none : (us : List PendingTargetUpdate) → keep_pending none us ≡ []
  unfolding keep_pending
  keep_none [] = refl
  keep_none (u ∷ us) = keep_none us

  -- A waiting update whose target is at or above the new one is applied, if it is for the connection.
  pub applicable_found :
      (t : ℕ) (who : Option ℕ) (u : PendingTargetUpdate) (us : List PendingTargetUpdate)
      → concerns who u ≡ true
      → leb t u.new_target ≡ true
      → In u us
      → In u (applicable_updates t who us)
  unfolding applicable_updates
  applicable_found t who u [] mine fine at = elim at [ ]
  applicable_found t who u (w ∷ us) mine fine (inl same) =
      let first : applicable_updates t who (w ∷ us) ≡ w ∷ applicable_updates t who us =
        ground (arith, same, mine, fine) in
      rw first (inl same)
  applicable_found t who u (w ∷ us) mine fine (inr at) =
      let rest = applicable_found t who u us mine fine at in
      elim (Bool-cases (concerns who w)) [
        | inr other ↦ rw (other) rest
        | inl his ↦ elim (Bool-cases (leb t w.new_target)) [
          | inl high ↦ rw (his, high) (inr rest)
          | inr low ↦ rw (his, low) rest
        ]
      ]

  -- And only such updates are.
  pub applicable_only :
      (t : ℕ) (who : Option ℕ) (u : PendingTargetUpdate) (us : List PendingTargetUpdate)
      → In u (applicable_updates t who us)
      → In u us × (leb t u.new_target ≡ true) × (concerns who u ≡ true)
  unfolding applicable_updates
  applicable_only t who u [] at = elim at [ ]
  applicable_only t who u (w ∷ us) at = elim (Bool-cases (concerns who w)) [
    | inr other ↦
        let same : applicable_updates t who (w ∷ us) ≡ applicable_updates t who us =
          rw (other) refl in
        let (here, high, mine) = applicable_only t who u us (subst (λ xs. In u xs) same at) in
        (inr here, high, mine)
    | inl his ↦ elim (Bool-cases (leb t w.new_target)) [
      | inr low ↦
          let same : applicable_updates t who (w ∷ us) ≡ applicable_updates t who us =
            rw (his, low) refl in
          let (here, high, mine) = applicable_only t who u us (subst (λ xs. In u xs) same at) in
          (inr here, high, mine)
      | inl high ↦
          let same : applicable_updates t who (w ∷ us) ≡ w ∷ applicable_updates t who us =
            rw (his, high) refl in
          elim (subst (λ xs. In u xs) same at) [
            | inl first ↦ (inl first, rw (first) high, rw (first) his)
            | inr again ↦
                let (here, high, mine) = applicable_only t who u us again in (inr here, high, mine)
          ]
    ]
  ]

  -- The message that tells a miner its new target.
  abbrev pub told_target : ℕ → PendingTargetUpdate → Message → Broadcast
  told_target c u m = record { channel_id = c; downstream_id = some u.downstream_id; message = m }

  pub messages_found :
      (ds : Map ℕ DownstreamData) (u : PendingTargetUpdate) (us : List PendingTargetUpdate)
      (d : DownstreamData) (c : ℕ) (m : Message)
      → lookup u.downstream_id ds ≡ some d
      → d.channel_id ≡ some c
      → build_set_difficulty u.new_target ≡ ok m
      → In u us
      → In (told_target c u m) (pending_messages ds us)
  unfolding pending_messages set_difficulty_for
  messages_found ds u [] d c m known open_one made at = elim at [ ]
  messages_found ds u (w ∷ us) d c m known open_one made (inl same) =
      let here : pending_messages ds (w ∷ us) ≡ told_target c u m ∷ pending_messages ds us =
        ground (arith, same, known, open_one, made) in
      rw (here) (inl refl)
  messages_found ds u (w ∷ us) d c m known open_one made (inr at) =
      let rest = messages_found ds u us d c m known open_one made at in
      elim (Option-cases (lookup w.downstream_id ds)) [
        | inl gone ↦ rw (gone, pending_messages) rest
        | inr (e, found) ↦ elim (Option-cases e.channel_id) [
          | inl closed ↦ rw (found, closed, pending_messages) rest
          | inr (k, opened) ↦ rw (found, opened, pending_messages) (In-append_right _ _ _ rest)
        ]
      ]

  -- The broadcast tells a connection the target of one of the updates.
  abbrev pub TellsOneOf : List PendingTargetUpdate → Broadcast → Type 0
  TellsOneOf us b =
      (u : PendingTargetUpdate) × In u us
      × (b.downstream_id ≡ some u.downstream_id)
      × (build_set_difficulty u.new_target ≡ ok b.message)

  TellsOneOf-more :
      (w : PendingTargetUpdate) (us : List PendingTargetUpdate) (b : Broadcast)
      → TellsOneOf us b
      → TellsOneOf (w ∷ us) b
  TellsOneOf-more w us b (u, at, his, made) = (u, inr at, his, made)

  one_message :
      (c : ℕ) (w : PendingTargetUpdate) (us : List PendingTargetUpdate) (b : Broadcast)
      → In b (set_difficulty_for c w.downstream_id w.new_target)
      → TellsOneOf (w ∷ us) b
  unfolding set_difficulty_for
  one_message c w us b at = elim (result_cases (build_set_difficulty w.new_target)) [
    | inl (m, made) ↦
        let only : set_difficulty_for c w.downstream_id w.new_target ≡ told_target c w m ∷ [] =
          rw (made, set_difficulty_for) refl in
        elim (subst (λ bs. In b bs) only at) [
          | inl same ↦ (
            w,
            inl refl,
            ap (λ x. x.downstream_id) same,
            made ∙ sym (ap (λ x. ok x.message) same),
          )
          | inr none_left ↦ elim none_left [ ]
        ]
    | inr (e, bad) ↦
        let none_made : set_difficulty_for c w.downstream_id w.new_target ≡ [] =
          rw (bad, set_difficulty_for) refl in
        elim (subst (λ bs. In b bs) none_made at) [ ]
  ]

  pub messages_only :
      (ds : Map ℕ DownstreamData) (us : List PendingTargetUpdate) (b : Broadcast)
      → In b (pending_messages ds us)
      → TellsOneOf us b
  unfolding pending_messages
  messages_only ds [] b at = elim at [ ]
  messages_only ds (w ∷ us) b at = elim (Option-cases (lookup w.downstream_id ds)) [
    | inl gone ↦
        let same : pending_messages ds (w ∷ us) ≡ pending_messages ds us =
          rw (gone, pending_messages) refl in
        TellsOneOf-more w us b (messages_only ds us b (subst (λ bs. In b bs) same at))
    | inr (d, found) ↦ elim (Option-cases d.channel_id) [
      | inl closed ↦
          let same : pending_messages ds (w ∷ us) ≡ pending_messages ds us =
            rw (found, closed, pending_messages) refl in
          TellsOneOf-more w us b (messages_only ds us b (subst (λ bs. In b bs) same at))
      | inr (c, opened) ↦
          let own = set_difficulty_for c w.downstream_id w.new_target in
          let same : pending_messages ds (w ∷ us) ≡ own ++ pending_messages ds us =
            rw (found, opened, pending_messages) refl in
          elim (In-append b own (pending_messages ds us) (subst (λ bs. In b bs) same at)) [
            | inl first ↦ one_message c w us b first
            | inr later ↦ TellsOneOf-more w us b (messages_only ds us b later)
          ]
    ]
  ]
