-- ===== src/Translator/Difficulty/Fairness.antt =====
-- When a part of a vardiff round is fair, and the parts for one update.
use mathlib.Core.Path.{subst}
use mara_pool.Prelude.{
  false, In, In-append_left, In-append_right, ◌⊎◌, ℕ, ◌+◌, Bool, true, Option, none, some, ◌≡◌,
  refl, inl, inr, List, [], ◌∷◌, length, length-append, Result, ok, err, done, arith, nat_eq, leb,
  all_of, Option-cases, result_cases, Bool-cases, ◌∙◌, ap, sym,
}
use mara_pool.Prelude.Map.{lookup, lookup-insert}
use mara_pool.Translator.Core.{Sv1Core}
use mara_pool.Translator.State.{DownstreamData, PendingTargetUpdate, Sv1ServerData}
use mara_pool.Translator.Difficulty.Proposals.{
  adopt, Update, Decisions, write_downstream, set_pending, push_pending, pending_of, decide,
  nothing, propose,
}

module _ ⦃core : Sv1Core⦄ where
  open core use {Hashrate, VardiffState, try_vardiff, hash_rate_to_target}

  abbrev pub upstream_in : Option DownstreamData → Option ℕ
  upstream_in none = none
  upstream_in (some d) = d.upstream_target

  -- The upstream target of a connection.
  abbrev pub upstream_of : Sv1ServerData → ℕ → Option ℕ
  upstream_of s id = upstream_in (lookup id s.downstreams)

  -- A target that the miner may be told without waiting: it is not below the upstream one.
  abbrev pub allowed : Option ℕ → ℕ → Bool
  allowed none target = true
  allowed (some upstream_target) target = leb upstream_target target

  abbrev pub may_tell : Sv1ServerData → Update → Bool
  may_tell s u = allowed (upstream_of s u.downstream_id) u.new_target

  -- The update was told at once, or it is too low for that and waits for a `SetTarget`.
  abbrev pub IsSettled : Sv1ServerData → Sv1ServerData → List Update → Update → Type 0
  IsSettled s s' immediate u =
      let waiting : PendingTargetUpdate = record {
        downstream_id = u.downstream_id;
        new_target = u.new_target;
        new_hashrate = u.new_hashrate;
      } in
      In u immediate ⊎ (In waiting s'.pending_target_updates × (may_tell s u ≡ false))

  pub IsSettled-from :
      (s k k' e : Sv1ServerData) (us vs : List Update) (u : Update)
      → ((id : ℕ) → upstream_of k id ≡ upstream_of s id)
      → (In u us → In u vs)
      → ((w : PendingTargetUpdate) → In w k'.pending_target_updates → In w e.pending_target_updates)
      → IsSettled k k' us u
      → IsSettled s e vs u
  IsSettled-from s k k' e us vs u same more kept (inl told) = inl (more told)
  IsSettled-from s k k' e us vs u same more kept (inr (at, low)) =
      inr (kept _ at, ap (λ o. allowed o u.new_target) (sym (same u.downstream_id)) ∙ low)

  -- What holds of a part of a round: where it goes on from, where it ends, what it decides.
  pub record IsFair (s s' : Sv1ServerData) (ds : Decisions) : Type 0 where
    pub same_upstream : (id : ℕ) → upstream_of s' id ≡ upstream_of s id
    pub told : all_of (may_tell s) ds.immediate_updates ≡ true
    pub counted :
        length s'.pending_target_updates + length ds.immediate_updates
        ≡ length s.pending_target_updates + length ds.all_updates
    pub kept :
        (w : PendingTargetUpdate) → In w s.pending_target_updates → In w s'.pending_target_updates
    pub settled : (u : Update) → In u ds.all_updates → IsSettled s s' ds.immediate_updates u

  write-upstream :
      (id e target : ℕ) (hashrate : Hashrate) (s : Sv1ServerData)
      → upstream_of (write_downstream id (set_pending target hashrate) s) e ≡ upstream_of s e
  unfolding write_downstream set_pending
  write-upstream id e target hashrate s = elim (Option-cases (lookup id s.downstreams)) [
    | inl absent ↦ ground (arith, absent)
    | inr (d, found) ↦
        ground (arith, found, lookup-insert e id (set_pending target hashrate d) s.downstreams)
  ]

  low-IsSettled :
      (t : ℕ) (u v : Update) (s : Sv1ServerData)
      → upstream_of s u.downstream_id ≡ some t
      → leb t u.new_target ≡ false
      → In v (u ∷ [])
      → IsSettled s (push_pending u s) [] v
  unfolding push_pending
  low-IsSettled t u v s at low (inl same) =
      subst (λ x. IsSettled s (push_pending u s) [] x) (sym same)
        (inr (
          In-append_right _ s.pending_target_updates (pending_of u ∷ []) (inl refl),
          ground (arith, at, low),
        ))
  low-IsSettled t u v s at low (inr absent) = elim absent [ ]

  -- The same for the decisions that an equation names.
  IsSettled-as :
      (s s' : Sv1ServerData) (made ds : Decisions)
      → made ≡ ds
      → ((v : Update) → In v made.all_updates → IsSettled s s' made.immediate_updates v)
      → (v : Update) → In v ds.all_updates
      → IsSettled s s' ds.immediate_updates v
  IsSettled-as s s' made ds same =
      subst
        (λ e.
          ((v : Update) → In v made.all_updates → IsSettled s s' made.immediate_updates v)
          → (v : Update) → In v e.all_updates
          → IsSettled s s' e.immediate_updates v)
        same (λ f. f)

  decide-IsFair :
      (o : Option ℕ) (u : Update) (s : Sv1ServerData) (ds : Decisions)
      → upstream_of s u.downstream_id ≡ o
      → (decide o u s).0 ≡ done ds
      → IsFair s (decide o u s).1 ds
  unfolding decide push_pending
  decide-IsFair none u s ds at h = record {
    same_upstream = λ id. refl;
    told = ground (arith, at);
    counted = ground arith;
    kept = λ w there. there;
    settled =
        IsSettled-as s s (record { immediate_updates = u ∷ []; all_updates = u ∷ [] }) ds
          (ground (arith, h)) (λ v there. inl there);
  }
  decide-IsFair (some t) u s ds at h = elim (Bool-cases (leb t u.new_target)) [
    | inl fine ↦ record {
      same_upstream = λ id. ground (arith, fine);
      told = ground (arith, at, fine);
      counted = ground (arith, fine);
      kept = λ w there. rw (fine) there;
      settled =
          IsSettled-as s (decide (some t) u s).1
            (record { immediate_updates = u ∷ []; all_updates = u ∷ [] }) ds
            (ground (arith, h, fine)) (λ v there. inl there);
    }
    | inr low ↦ record {
      same_upstream = λ id. ground (arith, low);
      told = ground (arith, at, low);
      counted = ground (arith, low, length-append s.pending_target_updates (pending_of u ∷ []));
      kept =
          λ w there. rw (low) (In-append_left w s.pending_target_updates (pending_of u ∷ []) there);
      settled =
          IsSettled-as s (decide (some t) u s).1
            (record { immediate_updates = []; all_updates = u ∷ [] }) ds (ground (arith, h, low))
            (λ v there. rw (low) (low-IsSettled t u v s at low there));
    }
  ]

  pub nothing-IsFair :
      (s s' : Sv1ServerData) (ds : Decisions)
      → s'.downstreams ≡ s.downstreams
      → s'.pending_target_updates ≡ s.pending_target_updates
      → nothing ≡ ds
      → IsFair s s' ds
  nothing-IsFair s s' ds same same' none_made = record {
    same_upstream = λ id. ground (arith, same);
    told = ground arith;
    counted = ground arith;
    kept = λ w there. subst (λ ws. In w ws) (sym same') there;
    settled = IsSettled-as s s' nothing ds none_made (λ v absent. elim absent [ ]);
  }

  pub told_from :
      (s k : Sv1ServerData) (us : List Update)
      → ((id : ℕ) → upstream_of k id ≡ upstream_of s id)
      → all_of (may_tell k) us ≡ true
      → all_of (may_tell s) us ≡ true
  told_from s k [] same e = refl
  told_from s k (u ∷ us) same e = ground (arith, same u.downstream_id, told_from s k us same)

  -- A part that goes on from a state with the same connections and pending updates.
  pub IsFair-from :
      (s k s' : Sv1ServerData) (ds : Decisions)
      → ((id : ℕ) → upstream_of k id ≡ upstream_of s id)
      → k.pending_target_updates ≡ s.pending_target_updates
      → IsFair k s' ds
      → IsFair s s' ds
  IsFair-from s k s' ds same same' h = record {
    same_upstream = λ id. h.same_upstream id ∙ same id;
    told = told_from s k ds.immediate_updates same h.told;
    counted = ground (arith, h.counted);
    kept = λ w there. h.kept w (subst (λ ws. In w ws) (sym same') there);
    settled = λ u there.
        IsSettled-from s k s' s' ds.immediate_updates ds.immediate_updates u same (λ x. x)
          (λ w x. x) (h.settled u there);
  }

  propose-IsFair :
      (spm : Hashrate) (id channel_id : ℕ) (hashrate : Hashrate) (s : Sv1ServerData)
      (ds : Decisions)
      → (propose spm id channel_id (upstream_of s id) hashrate s).0 ≡ done ds
      → IsFair s (propose spm id channel_id (upstream_of s id) hashrate s).1 ds
  unfolding propose write_downstream
  propose-IsFair spm id channel_id hashrate s ds h =
      elim (result_cases (hash_rate_to_target hashrate spm)) [
        | inr (e, bad) ↦
            let same : propose spm id channel_id (upstream_of s id) hashrate s ≡ (done nothing, s) =
              rw (bad, propose) refl in
            rw same (nothing-IsFair s s ds refl refl (ground (arith, same)))
        | inl (target, made) ↦
            let u : Update = record {
              downstream_id = id;
              channel_id = channel_id;
              new_target = target;
              new_hashrate = hashrate;
            } in
            let k = write_downstream id (set_pending target hashrate) s in
            let same : propose spm id channel_id (upstream_of s id) hashrate s
                ≡ decide (upstream_of s id) u k =
              rw (made, propose) refl in
            rw same (
              IsFair-from s k _ ds (λ e. write-upstream id e target hashrate s)
                (ground (arith, Option-cases (lookup id s.downstreams)))
                (decide-IsFair (upstream_of s id) u k ds (write-upstream id id target hashrate s)
                  (ap (λ r. r.0) (sym same) ∙ h)))
      ]

  pub adopt-IsFair :
      (spm : Hashrate) (id channel_id : ℕ) (res : Result ℕ (Option Hashrate)) (s : Sv1ServerData)
      (ds : Decisions)
      → (adopt spm id channel_id (upstream_of s id) res s).0 ≡ done ds
      → IsFair s (adopt spm id channel_id (upstream_of s id) res s).1 ds
  unfolding adopt
  adopt-IsFair spm id channel_id (err e) s ds h = nothing-IsFair s s ds refl refl (ground arith)
  adopt-IsFair spm id channel_id (ok none) s ds h = nothing-IsFair s s ds refl refl (ground arith)
  adopt-IsFair spm id channel_id (ok (some hashrate)) s ds h =
      propose-IsFair spm id channel_id hashrate s ds h
