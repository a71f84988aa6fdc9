-- ===== src/Pool/Sync/Shares.antt =====
-- Shares keep the vardiff map in step with the channels.
use mara_pool.Prelude.{
  ℕ, true, Option, none, some, Result, ok, err, ◌≡◌, refl, nat_eq, Keeps, arith,
}
use mara_pool.Prelude.Map.{lookup, insert, contains}
use mara_pool.Stratum.{
  StratumCore, ServerChannel, ShareValidationError, ShareValidationResult, valid, block_found,
  SubmitSharesStandard,
}
use mara_pool.Pool.State.{ChannelManagerData, DownstreamData, vardiff_key, vardiff_key_eq}
use mara_pool.Pool.Access.{Locked}
use mara_pool.Pool.Shares.{
  Submission, Rejection, persisted_error, plain_error, returned, persist, solution, reject, respond,
  judge_standard, submit_standard, standard_rejection, standard_submission,
  handle_submit_shares_standard,
}
use mara_pool.Pool.Sync.Locks.{serve-IsInSync}
use mara_pool.Pool.Sync.Frame.{IsInSync, IsInSyncLocked, tracks-insert, contains-insert_old}

module _ ⦃core : StratumCore⦄ where
  open core use {Hashrate, Work, standard, extended, to_b064k}

  -- The two locked states are as they were.
  pub record IsAt (m : ChannelManagerData) (data' : DownstreamData) (l : Locked) : Type 0 where
    pub manager_eq : l.manager ≡ m
    pub data_eq : l.downstream_data ≡ data'

  module _ {Job E Share : Type 0} (ops : ServerChannel Hashrate Work Job E Share) where
    reject-IsAt :
        (d : ℕ) (sub : Submission) (now : ℕ) (channel : ops.Channel) (e : ShareValidationError)
        (r : Rejection) (m : ChannelManagerData) (data' : DownstreamData)
        → Keeps (IsAt m data') (reject ops d sub now channel e r)
    unfolding reject persist
    reject-IsAt d sub now channel e (persisted_error code) m data' l h = ground arith
    reject-IsAt d sub now channel e (plain_error code) m data' l h = h
    reject-IsAt d sub now channel e returned m data' l h = h

    pub respond-IsAt :
        (rejection : ShareValidationError → Rejection) (d : ℕ) (sub : Submission) (now : ℕ)
        (channel : ops.Channel) (verdict : Result ShareValidationError ShareValidationResult)
        (m : ChannelManagerData) (data' : DownstreamData)
        → Keeps (IsAt m data') (respond ops rejection d sub now channel verdict)
    unfolding respond persist solution
    respond-IsAt rejection d sub now channel (ok (valid hash)) m data' l h = ground arith
    respond-IsAt rejection d sub now channel (ok (block_found hash none coinbase)) m data' l h =
        ground arith
    respond-IsAt rejection d sub now channel (ok (block_found hash (some t) coinbase)) m data' l h =
        ground arith
    respond-IsAt rejection d sub now channel (err e) m data' l h =
        reject-IsAt d sub now channel e (rejection e) m data' l h

  pub IsAt-IsInSyncLocked :
      (d : ℕ) (k l : Locked)
      → IsInSyncLocked d k
      → IsAt k.manager k.downstream_data l
      → IsInSyncLocked d l
  IsAt-IsInSyncLocked d k l h at = record {
    mine = λ c. ground (arith, h.mine c, at.manager_eq, at.data_eq);
    others = λ e c ne. ground (arith, h.others e c, at.manager_eq, at.data_eq);
    fresh = λ e le. ground (arith, h.fresh e, at.manager_eq);
    known = ground (arith, h.known, at.manager_eq);
  }

  -- The state in which the verdict on a share is answered.
  abbrev pub judged_standard : ℕ → ℕ → standard.Channel → core.VardiffState → Locked → Locked
  judged_standard d id channel' state l = record l {
    manager = record (l.manager) { vardiff = insert (vardiff_key d id) state l.manager.vardiff };
    downstream_data = record (l.downstream_data) {
      standard_channels = insert id channel' l.downstream_data.standard_channels;
    };
  }

  judged_standard-IsInSync :
      (d id : ℕ) (channel' : standard.Channel) (state : core.VardiffState) (l : Locked)
      → contains id l.downstream_data.standard_channels ≡ true
      → IsInSyncLocked d l
      → IsInSyncLocked d (judged_standard d id channel' state l)
  judged_standard-IsInSync d id channel' state l found h = record {
    mine = λ c. ground (
      arith,
      h.mine c,
      h.mine id,
      tracks-insert d id d c state l.manager.vardiff,
      contains-insert_old id c channel' l.downstream_data.standard_channels found,
    );
    others =
        λ e c ne. ground (arith, h.others e c ne, tracks-insert d id e c state l.manager.vardiff);
    fresh = λ e le. ground (arith, h.fresh e);
    known = ground (arith, h.known);
  }

  judge_standard-IsInSync :
      (o : Option core.VardiffState) (d : ℕ) (msg : SubmitSharesStandard) (now : ℕ)
      (channel : standard.Channel) (l : Locked)
      → lookup (vardiff_key d msg.channel_id) l.manager.vardiff ≡ o
      → contains msg.channel_id l.downstream_data.standard_channels ≡ true
      → IsInSyncLocked d l
      → IsInSyncLocked d (judge_standard d msg now channel l).1
  unfolding judge_standard
  judge_standard-IsInSync none d msg now channel l e found h = rw (e, judge_standard) h
  judge_standard-IsInSync (some state) d msg now channel l e found h =
      let (verdict, channel') = standard.validate_share channel msg in
      let k =
        judged_standard d msg.channel_id channel' (core.increment_shares_since_last_update state)
          l in
      rw (e, judge_standard)
        (IsAt-IsInSyncLocked d k _ (judged_standard-IsInSync d msg.channel_id channel' _ l found h)
          (respond-IsAt standard standard_rejection d (standard_submission msg) now channel' verdict
            k.manager k.downstream_data k (record { manager_eq = refl; data_eq = refl })))

  submit_standard-IsInSync :
      (o : Option standard.Channel) (d : ℕ) (msg : SubmitSharesStandard) (now : ℕ) (l : Locked)
      → lookup msg.channel_id l.downstream_data.standard_channels ≡ o
      → IsInSyncLocked d l
      → IsInSyncLocked d (submit_standard d msg now l).1
  unfolding submit_standard
  submit_standard-IsInSync none d msg now l e h = rw (e, submit_standard) h
  submit_standard-IsInSync (some channel) d msg now l e h =
      rw (e, submit_standard) (judge_standard-IsInSync _ d msg now channel l refl (rw e) h)

  pub handle_submit_shares_standard-IsInSync :
      (d : ℕ) (msg : SubmitSharesStandard) (now : ℕ)
      → Keeps (λ w. IsInSync w.manager) (handle_submit_shares_standard (some d) msg now)
  unfolding handle_submit_shares_standard
  handle_submit_shares_standard-IsInSync d msg now =
      serve-IsInSync d _ _ (λ ds l. submit_standard-IsInSync _ d msg now l refl)
