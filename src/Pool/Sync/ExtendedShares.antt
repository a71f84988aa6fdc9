-- ===== src/Pool/Sync/ExtendedShares.antt =====
-- Shares on extended channels keep the vardiff map in step with the channels.
use mara_pool.Prelude.{ℕ, true, Option, none, some, ◌≡◌, refl, nat_eq, Keeps, >>=-Keeps, arith}
use mara_pool.Prelude.Map.{lookup, insert, contains}
use mara_pool.Stratum.{StratumCore, SubmitSharesExtended}
use mara_pool.Pool.State.{vardiff_key, vardiff_key_eq}
use mara_pool.Pool.Access.{World, Locked, serve}
use mara_pool.Pool.Error.{downstream_not_found}
use mara_pool.Pool.Sync.Shares.{respond-IsAt, IsAt-IsInSyncLocked}
use mara_pool.Pool.Shares.{
  negotiated_extensions_with_client, respond_extended, judge_extended, submit_extended,
  extended_rejection, extended_submission, handle_submit_shares_extended,
}
use mara_pool.Pool.Sync.Locks.{serve-IsInSync}
use mara_pool.Pool.Sync.Frame.{IsInSync, IsInSyncLocked, tracks-insert, contains-insert_old}

module _ ⦃core : StratumCore⦄ where
  open core use {extended}

  -- The state in which the verdict on a share is answered.
  abbrev pub judged_extended : ℕ → ℕ → extended.Channel → core.VardiffState → Locked → Locked
  judged_extended d id channel' state l = record l {
    manager = record (l.manager) { vardiff = insert (vardiff_key d id) state l.manager.vardiff };
    downstream_data = record (l.downstream_data) {
      extended_channels = insert id channel' l.downstream_data.extended_channels;
    };
  }

  judged_extended-IsInSync :
      (d id : ℕ) (channel' : extended.Channel) (state : core.VardiffState) (l : Locked)
      → contains id l.downstream_data.extended_channels ≡ true
      → IsInSyncLocked d l
      → IsInSyncLocked d (judged_extended d id channel' state l)
  judged_extended-IsInSync d id channel' state l found h = record {
    mine = λ c. ground (
      arith,
      h.mine c,
      h.mine id,
      tracks-insert d id d c state l.manager.vardiff,
      contains-insert_old id c channel' l.downstream_data.extended_channels found,
    );
    others =
        λ e c ne. ground (arith, h.others e c ne, tracks-insert d id e c state l.manager.vardiff);
    fresh = λ e le. ground (arith, h.fresh e);
    known = ground (arith, h.known);
  }

  judge_extended-IsInSync :
      (o : Option core.VardiffState) (d : ℕ) (msg : SubmitSharesExtended) (now : ℕ)
      (channel : extended.Channel) (l : Locked)
      → lookup (vardiff_key d msg.channel_id) l.manager.vardiff ≡ o
      → contains msg.channel_id l.downstream_data.extended_channels ≡ true
      → IsInSyncLocked d l
      → IsInSyncLocked d (judge_extended d msg now channel l).1
  unfolding judge_extended respond_extended
  judge_extended-IsInSync none d msg now channel l e found h = rw (e, judge_extended) h
  judge_extended-IsInSync (some state) d msg now channel l e found h =
      let (verdict, channel') = extended.validate_share channel msg in
      let k =
        judged_extended d msg.channel_id channel' (core.increment_shares_since_last_update state)
          l in
      rw (e, judge_extended)
        (IsAt-IsInSyncLocked d k _ (judged_extended-IsInSync d msg.channel_id channel' _ l found h)
          (respond-IsAt extended extended_rejection d (extended_submission msg) now channel' verdict
            k.manager k.downstream_data k (record { manager_eq = refl; data_eq = refl })))

  submit_extended-IsInSync :
      (o : Option extended.Channel) (d : ℕ) (msg : SubmitSharesExtended) (now : ℕ) (l : Locked)
      → lookup msg.channel_id l.downstream_data.extended_channels ≡ o
      → IsInSyncLocked d l
      → IsInSyncLocked d (submit_extended d msg now l).1
  unfolding submit_extended
  submit_extended-IsInSync none d msg now l e h = rw (e, submit_extended) h
  submit_extended-IsInSync (some channel) d msg now l e h =
      rw (e, submit_extended) (judge_extended-IsInSync _ d msg now channel l refl (rw e) h)

  negotiated_extensions-same :
      (d : ℕ) (w : World) → (negotiated_extensions_with_client (some d) w).1 ≡ w
  unfolding negotiated_extensions_with_client
  negotiated_extensions-same d w = ground arith

  pub handle_submit_shares_extended-IsInSync :
      (d : ℕ) (msg : SubmitSharesExtended) (now : ℕ)
      → Keeps (λ w. IsInSync w.manager) (handle_submit_shares_extended (some d) msg now)
  unfolding handle_submit_shares_extended
  handle_submit_shares_extended-IsInSync d msg now =
      >>=-Keeps (λ w. IsInSync w.manager) (negotiated_extensions_with_client (some d))
        (λ _. serve d (downstream_not_found d) (λ ds. submit_extended d msg now))
        (λ w h. rw (negotiated_extensions-same d w) h)
        (λ _. serve-IsInSync d _ _ (λ ds l. submit_extended-IsInSync _ d msg now l refl))
