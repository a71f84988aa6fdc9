-- ===== src/Pool/Isolation/Shares.antt =====
-- Shares act on the submitting connection.
use mara_pool.Prelude.{
  ℕ, none, some, refl, inl, inr, nat_eq, arith, Result, ok, err, Option-cases, beq_refl,
}
use mara_pool.Prelude.Map.{lookup}
use mara_pool.Stratum.{
  StratumCore, ServerChannel, SubmitSharesStandard, SubmitSharesExtended, ShareValidationError,
  ShareValidationResult, valid, block_found,
}
use mara_pool.Pool.State.{vardiff_key, vardiff_key_eq}
use mara_pool.Pool.Access.{Locked}
use mara_pool.Pool.Shares.{
  Submission, Rejection, persisted_error, plain_error, returned, persist, solution, reject, respond,
  respond_extended, judge_standard, judge_extended, submit_standard, submit_extended,
  standard_rejection, extended_rejection, standard_submission, extended_submission, shares_error,
  shares_success,
}
use mara_pool.Pool.Isolation.{IsLocal, IsLocal-trans}

module _ ⦃core : StratumCore⦄ where
  open core use {Hashrate, Work}

  module _ {Job E Share : Type 0} (ops : ServerChannel Hashrate Work Job E Share) (d : ℕ)
      (sub : Submission) (now : ℕ) (channel : ops.Channel) where
    reject-IsLocal :
        (e : ShareValidationError) (r : Rejection) (l : Locked)
        → IsLocal d l (reject ops d sub now channel e r l)
    unfolding reject persist shares_error
    reject-IsLocal e (persisted_error code) l = record {
      downstream_eq = refl;
      addressed = λ messages h. ground (arith, beq_refl d);
    }
    reject-IsLocal e (plain_error code) l = record {
      downstream_eq = refl;
      addressed = λ messages h. ground (arith, beq_refl d);
    }
    reject-IsLocal e returned l = record {
      downstream_eq = refl;
      addressed = λ messages h. ground arith;
    }

    pub respond-IsLocal :
        (rejection : ShareValidationError → Rejection)
        (verdict : Result ShareValidationError ShareValidationResult) (l : Locked)
        → IsLocal d l (respond ops rejection d sub now channel verdict l)
    unfolding respond persist solution shares_success
    respond-IsLocal rejection (ok (valid hash)) l = record {
      downstream_eq = ground arith;
      addressed = λ messages h. ground (arith, beq_refl d);
    }
    respond-IsLocal rejection (ok (block_found hash none coinbase)) l = record {
      downstream_eq = ground arith;
      addressed = λ messages h. ground (arith, beq_refl d);
    }
    respond-IsLocal rejection (ok (block_found hash (some t) coinbase)) l = record {
      downstream_eq = ground arith;
      addressed = λ messages h. ground (arith, beq_refl d);
    }
    respond-IsLocal rejection (err e) l = reject-IsLocal e (rejection e) l

  pub submit_standard-IsLocal :
      (d : ℕ) (msg : SubmitSharesStandard) (now : ℕ) (l : Locked)
      → IsLocal d l (submit_standard d msg now l)
  unfolding submit_standard judge_standard shares_error
  submit_standard-IsLocal d msg now l =
      elim (Option-cases (lookup msg.channel_id l.downstream_data.standard_channels)) [
        | inl absent ↦
            rw (absent, submit_standard)
              (record {
                downstream_eq = refl;
                addressed = λ messages h. ground (arith, beq_refl d);
              })
        | inr (channel, found) ↦
            elim (Option-cases (lookup (vardiff_key d msg.channel_id) l.manager.vardiff)) [
              | inl untracked ↦
                  rw (found, submit_standard, judge_standard, untracked)
                    (record { downstream_eq = refl; addressed = λ messages h. ground arith })
              | inr (state, tracked) ↦
                  let (verdict, channel') = core.standard.validate_share channel msg in
                  rw (found, tracked, submit_standard, judge_standard)
                    (IsLocal-trans d _ l _ refl (
                      respond-IsLocal core.standard d (standard_submission msg) now channel'
                        standard_rejection verdict _))
            ]
      ]

  pub submit_extended-IsLocal :
      (d : ℕ) (msg : SubmitSharesExtended) (now : ℕ) (l : Locked)
      → IsLocal d l (submit_extended d msg now l)
  unfolding submit_extended judge_extended respond_extended shares_error
  submit_extended-IsLocal d msg now l =
      elim (Option-cases (lookup msg.channel_id l.downstream_data.extended_channels)) [
        | inl absent ↦
            rw (absent, submit_extended)
              (record {
                downstream_eq = refl;
                addressed = λ messages h. ground (arith, beq_refl d);
              })
        | inr (channel, found) ↦
            elim (Option-cases (lookup (vardiff_key d msg.channel_id) l.manager.vardiff)) [
              | inl untracked ↦
                  rw (found, submit_extended, judge_extended, untracked)
                    (record { downstream_eq = refl; addressed = λ messages h. ground arith })
              | inr (state, tracked) ↦
                  let (verdict, channel') = core.extended.validate_share channel msg in
                  rw (found, tracked, submit_extended, judge_extended, respond_extended)
                    (IsLocal-trans d _ l _ refl (
                      respond-IsLocal core.extended d (extended_submission msg) now channel'
                        extended_rejection verdict _))
            ]
      ]
