-- ===== src/Translator/Connection/Shares.antt =====
-- The shares of a miner that reach the server.
use mathlib.Core.Path.{subst}
use mara_pool.Prelude.{
  ℕ, true, false, none, some, ◌≡◌, refl, inl, inr, ok, arith, resume, In, Option-cases,
  result_cases, ◌⊎◌, ◌∙◌, sym,
}
use mara_pool.Translator.Core.{Sv1Core, Submit, Message}
use mara_pool.Translator.State.{
  SubmitShareWithChannelId, submit_shares, DownstreamData, Sv1ServerData,
}
use mara_pool.Translator.Connection.Validation.{validate_sv1_share}
use mara_pool.Translator.Connection.Methods.{
  handle_configure, authorize_worker, set_version_rolling_mask, set_version_rolling_min_bit,
  accept_share, handle_submit, share_to_send, CallsMethods, none_called, calls_configure,
  calls_authorize, calls_set_mask, calls_set_min_bit, calls_submit, Sv1Protocol,
}
use mara_pool.Translator.Connection.Handlers.{
  Sv1Connection, answer_miner, send_pending_share, established, process_message, queue_by,
  is_authorize, handle_downstream_message,
}
use mara_pool.Translator.Connection.Forwarding.{answer-KeepsShares, forwarded, queued_no_share}

module _ ⦃core : Sv1Core⦄ where
  -- The share is for the channel, and its hash meets the target with the extranonce, by the job that
  -- the server has for it.
  pub record IsChecked (s : Sv1ServerData) (d : DownstreamData) (share : SubmitShareWithChannelId)
      : Type 0 where
    pub same_channel : d.channel_id ≡ some share.channel_id
    pub same_miner : share.downstream_id ≡ d.downstream_id
    pub same_extranonce : share.extranonce ≡ d.extranonce1
    pub accepted :
        validate_sv1_share share.share d.target d.extranonce1 share.version_rolling_mask s
          share.channel_id
        ≡ ok true

  -- What the methods of the protocol keep.
  pub record IsFrom (s : Sv1ServerData) (d e : DownstreamData) : Type 0 where
    pub channel : e.channel_id ≡ d.channel_id
    pub miner : e.downstream_id ≡ d.downstream_id
    pub extranonce : e.extranonce1 ≡ d.extranonce1
    pub target_kept : e.target ≡ d.target
    pub handshake : e.sv1_handshake_complete ≡ d.sv1_handshake_complete
    pub waits_checked :
        (share : SubmitShareWithChannelId)
        → e.pending_share ≡ some share
        → (d.pending_share ≡ some share) ⊎ IsChecked s d share

  submit-IsFrom :
      (s : Sv1ServerData) (d e : DownstreamData) (share : Submit)
      → IsFrom s d e
      → IsFrom s d (handle_submit s share e).1
  unfolding handle_submit accept_share
  submit-IsFrom s d e share h = elim (Option-cases e.channel_id) [
    | inl closed ↦ rw (closed, handle_submit) h
    | inr (c, opened) ↦
        elim (result_cases
          (validate_sv1_share share e.target e.extranonce1 e.version_rolling_mask s c)) [
            | inr (x, bad) ↦ rw (opened, bad, handle_submit) h
            | inl (false, low) ↦ rw (opened, low, handle_submit) h
            | inl (true, good) ↦
                rw (opened, good, handle_submit)
                  (record {
                    channel = h.channel;
                    miner = h.miner;
                    extranonce = h.extranonce;
                    target_kept = h.target_kept;
                    handshake = h.handshake;
                    waits_checked = λ w same. inr (checked c opened good w same);
                  })
          ]
  ]
    where
      checked :
          (c : ℕ)
          → e.channel_id ≡ some c
          → validate_sv1_share share e.target e.extranonce1 e.version_rolling_mask s c ≡ ok true
          → (w : SubmitShareWithChannelId) → some (share_to_send c share e) ≡ some w
          → IsChecked s d w
      checked c opened good w same =
          let this : share_to_send c share e ≡ w = ground arith in
          subst (λ x. IsChecked s d x) this
            (record {
              same_channel = sym h.channel ∙ opened;
              same_miner = h.miner;
              same_extranonce = h.extranonce;
              accepted = rw (sym h.target_kept, sym h.extranonce) good;
            })

  -- A method that writes to none of these.
  IsFrom-same :
      {s : Sv1ServerData} {d e e' : DownstreamData}
      → e'.channel_id ≡ e.channel_id
      → e'.downstream_id ≡ e.downstream_id
      → e'.extranonce1 ≡ e.extranonce1
      → e'.target ≡ e.target
      → e'.sv1_handshake_complete ≡ e.sv1_handshake_complete
      → e'.pending_share ≡ e.pending_share
      → IsFrom s d e
      → IsFrom s d e'
  IsFrom-same a b c t f p h = record {
    channel = a ∙ h.channel;
    miner = b ∙ h.miner;
    extranonce = c ∙ h.extranonce;
    target_kept = t ∙ h.target_kept;
    handshake = f ∙ h.handshake;
    waits_checked = λ share same. h.waits_checked share (sym p ∙ same);
  }

  pub calls-IsFrom : {s : Sv1ServerData} {d e : DownstreamData} → CallsMethods s d e → IsFrom s d e
  unfolding handle_configure authorize_worker set_version_rolling_mask set_version_rolling_min_bit
  calls-IsFrom none_called = record {
    channel = refl;
    miner = refl;
    extranonce = refl;
    target_kept = refl;
    handshake = refl;
    waits_checked = λ w same. inl same;
  }
  calls-IsFrom (calls_configure mask min_bit h) =
      IsFrom-same refl refl refl refl refl refl (calls-IsFrom h)
  calls-IsFrom (calls_authorize name h) = IsFrom-same refl refl refl refl refl refl (calls-IsFrom h)
  calls-IsFrom (calls_set_mask mask h) = IsFrom-same refl refl refl refl refl refl (calls-IsFrom h)
  calls-IsFrom (calls_set_min_bit min_bit h) =
      IsFrom-same refl refl refl refl refl refl (calls-IsFrom h)
  calls-IsFrom (calls_submit share h) = submit-IsFrom _ _ _ share (calls-IsFrom h)

  -- Of the messages of a miner for which no share waits, whatever they are, only a share reaches the
  -- server that names the connection's channel, miner and extranonce, and that the validation
  -- accepts: its job is one that the server has for the channel, and the header's hash is below the
  -- miner's target.
  pub only_valid_shares :
      (protocol : Sv1Protocol) (s : Sv1ServerData) (m : Message) (c : Sv1Connection)
      (share : SubmitShareWithChannelId)
      → c.downstream_data.pending_share ≡ none
      → In (submit_shares share) (handle_downstream_message protocol s m c).1.to_server
      → In (submit_shares share) c.to_server ⊎ IsChecked s c.downstream_data share
  unfolding handle_downstream_message established process_message
  only_valid_shares protocol s m c share idle at =
      elim (Option-cases c.downstream_data.channel_id) [
        | inl closed ↦
            let same : handle_downstream_message protocol s m c
                ≡ queue_by c.downstream_data.queued_sv1_handshake_messages m c =
              rw (closed, handle_downstream_message, established) refl in
            inl (
              queued_no_share c.downstream_data.queued_sv1_handshake_messages m c share
                (subst (λ r. In (submit_shares share) r.1.to_server) same at))
        | inr (id, opened) ↦
            let (r, d) = protocol.handle_message s m c.downstream_data in
            let k = record c { downstream_data = d } in
            let answered = answer_miner (is_authorize m) r k in
            let same : handle_downstream_message protocol s m c
                ≡ resume answered (λ _. send_pending_share) =
              rw (opened, handle_downstream_message, established) refl in
            let kept = answer-KeepsShares (is_authorize m) r k in
            elim (forwarded answered share
              (subst (λ x. In (submit_shares share) x.1.to_server) same at)) [
                | inl old ↦ inl (subst (λ xs. In (submit_shares share) xs) kept.0 old)
                | inr waited ↦
                    elim ((calls-IsFrom (protocol.by_methods s m c.downstream_data)).waits_checked
                      share (sym kept.1 ∙ waited)) [
                        | inl before ↦ ground (arith, idle, before)
                        | inr checked ↦ inr checked
                      ]
              ]
      ]
