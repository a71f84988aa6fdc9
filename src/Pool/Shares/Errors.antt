-- ===== src/Pool/Shares/Errors.antt =====
-- Which errors a submission can end with.
use mara_pool.Prelude.{
  ℕ, none, some, ◌≢◌, inl, inr, List, nat_eq, Result, ok, err, Outcome, failed, arith, Option-cases,
}
use mara_pool.Prelude.Map.{lookup}
use mara_pool.Stratum.{
  StratumCore, ServerChannel, SubmitSharesStandard, SubmitSharesExtended, ShareValidationError,
  ShareValidationResult, valid, block_found,
}
use mara_pool.Pool.Error.{PoolError, vardiff_not_found, downstream_not_found}
use mara_pool.Pool.State.{RouteMessageTo, vardiff_key, vardiff_key_eq}
use mara_pool.Pool.Access.{World, Locked, serve, with_downstream, forward, lock}
use mara_pool.Pool.Shares.{
  Submission, Rejection, persisted_error, plain_error, returned, persist, solution, reject, respond,
  respond_extended, judge_standard, judge_extended, submit_standard, submit_extended,
  standard_rejection, extended_rejection, standard_submission, extended_submission,
  handle_submit_shares_standard, handle_submit_shares_extended, negotiated_extensions_with_client,
}
use mara_pool.Pool.Sync.Frame.{IsInSync, IsInSyncLocked}
use mara_pool.Pool.Sync.Locks.{lock-IsInSync}

module _ ⦃core : StratumCore⦄ where
  open core use {Hashrate, Work}

  module _ {Job E Share : Type 0} (ops : ServerChannel Hashrate Work Job E Share) where
    reject-found :
        (d : ℕ) (sub : Submission) (now : ℕ) (channel : ops.Channel) (e : ShareValidationError)
        (r : Rejection) (c : ℕ) (l : Locked)
        → (reject ops d sub now channel e r l).0 ≢ failed (vardiff_not_found c)
    unfolding reject persist
    reject-found d sub now channel e (persisted_error code) c l = ground arith
    reject-found d sub now channel e (plain_error code) c l = ground arith
    reject-found d sub now channel e returned c l = ground arith

    respond-found :
        (rejection : ShareValidationError → Rejection) (d : ℕ) (sub : Submission) (now : ℕ)
        (channel : ops.Channel) (verdict : Result ShareValidationError ShareValidationResult)
        (c : ℕ) (l : Locked)
        → (respond ops rejection d sub now channel verdict l).0 ≢ failed (vardiff_not_found c)
    unfolding respond persist solution
    respond-found rejection d sub now channel (ok (valid hash)) c l = ground arith
    respond-found rejection d sub now channel (ok (block_found hash none coinbase)) c l =
        ground arith
    respond-found rejection d sub now channel (ok (block_found hash (some t) coinbase)) c l =
        ground arith
    respond-found rejection d sub now channel (err e) c l =
        reject-found d sub now channel e (rejection e) c l

  submit_standard-found :
      (d : ℕ) (msg : SubmitSharesStandard) (now c : ℕ) (l : Locked)
      → IsInSyncLocked d l
      → (submit_standard d msg now l).0 ≢ failed (vardiff_not_found c)
  unfolding submit_standard judge_standard
  submit_standard-found d msg now c l h =
      elim (Option-cases (lookup msg.channel_id l.downstream_data.standard_channels)) [
        | inl absent ↦ ground (arith, absent)
        | inr (channel, found) ↦
            elim (Option-cases (lookup (vardiff_key d msg.channel_id) l.manager.vardiff)) [
              | inl untracked ↦ ground (arith, found, untracked, h.mine msg.channel_id)
              | inr (state, tracked) ↦
                  let (verdict, channel') = core.standard.validate_share channel msg in
                  rw (found, tracked, submit_standard, judge_standard)
                    (respond-found core.standard standard_rejection d (standard_submission msg) now
                      channel' verdict c _)
            ]
      ]

  submit_extended-found :
      (d : ℕ) (msg : SubmitSharesExtended) (now c : ℕ) (l : Locked)
      → IsInSyncLocked d l
      → (submit_extended d msg now l).0 ≢ failed (vardiff_not_found c)
  unfolding submit_extended judge_extended respond_extended
  submit_extended-found d msg now c l h =
      elim (Option-cases (lookup msg.channel_id l.downstream_data.extended_channels)) [
        | inl absent ↦ ground (arith, absent)
        | inr (channel, found) ↦
            elim (Option-cases (lookup (vardiff_key d msg.channel_id) l.manager.vardiff)) [
              | inl untracked ↦ ground (arith, found, untracked, h.mine msg.channel_id)
              | inr (state, tracked) ↦
                  let (verdict, channel') = core.extended.validate_share channel msg in
                  rw (found, tracked, submit_extended, judge_extended, respond_extended)
                    (respond-found core.extended extended_rejection d (extended_submission msg) now
                      channel' verdict c _)
            ]
      ]

  -- A closure that never ends with an error gives a handler that ends with it only for an unknown
  -- connection.
  serve-found :
      (d c : ℕ) (e : PoolError) (body : Locked → Outcome PoolError (List RouteMessageTo) × Locked)
      (w : World)
      → e ≢ vardiff_not_found c
      → IsInSync w.manager
      → ((l : Locked) → IsInSyncLocked d l → (body l).0 ≢ failed (vardiff_not_found c))
      → (serve d e (λ ds. body) w).0 ≢ failed (vardiff_not_found c)
  unfolding serve with_downstream forward
  serve-found d c e body w other h never = elim (Option-cases (lookup d w.manager.downstream)) [
    | inl unknown ↦ ground (arith, unknown)
    | inr (ds, known) ↦ ground (arith, known, never (lock w ds) (lock-IsInSync w d ds known h))
  ]

  -- Where the vardiff states match the open channels, no submission of a share on a standard channel
  -- fails for want of a vardiff state.
  pub submit_standard-tracked :
      (d : ℕ) (msg : SubmitSharesStandard) (now c : ℕ) (w : World)
      → IsInSync w.manager
      → (handle_submit_shares_standard (some d) msg now w).0 ≢ failed (vardiff_not_found c)
  unfolding handle_submit_shares_standard
  submit_standard-tracked d msg now c w h =
      serve-found d c _ (submit_standard d msg now) w (λ e. cc) h
        (λ l. submit_standard-found d msg now c l)

  -- Where the vardiff states match the open channels, no submission of a share on an extended channel
  -- fails for want of a vardiff state.
  pub submit_extended-tracked :
      (d : ℕ) (msg : SubmitSharesExtended) (now c : ℕ) (w : World)
      → IsInSync w.manager
      → (handle_submit_shares_extended (some d) msg now w).0 ≢ failed (vardiff_not_found c)
  unfolding handle_submit_shares_extended negotiated_extensions_with_client
  submit_extended-tracked d msg now c w h =
      let served =
        serve-found d c (downstream_not_found d) (submit_extended d msg now) w (λ e. cc) h
          (λ l. submit_extended-found d msg now c l) in
      elim (Option-cases (lookup d w.manager.downstream)) [
        | inl unknown ↦
            rw (unknown, handle_submit_shares_extended, negotiated_extensions_with_client) (λ e. cc)
        | inr (ds, known) ↦
            rw (known, handle_submit_shares_extended, negotiated_extensions_with_client) served
      ]
