-- ===== src/Translator/Server/Registry/Round.antt =====
-- A round of vardiff.
use mara_pool.Prelude.{
  ℕ, Bool, true, false, Option, none, some, ◌≡◌, refl, inl, inr, List, [], ◌∷◌, Result, ok, err,
  nat_eq, leb, Option-cases, Bool-cases, result_cases, ◌∙◌, ap, Keeps, resume, resume-Keeps, pure,
  expect, ◌>>=◌, ◌>>◌,
}
use mara_pool.Prelude.Map.{Map, lookup, insert, contains, is_some}
use mara_pool.Translator.Core.{Sv1Core}
use mara_pool.Translator.State.{TproxyError, DownstreamData, Sv1ServerData}
use mara_pool.Translator.Difficulty.{
  Update, write_downstream, set_pending, push_pending, decide, propose, adopt, adjust_channel,
  adjust_found, adjust, adjust_all, handle_vardiff_updates, send_update_channel_messages,
  send_upstream, send_broadcasts, immediate_messages, min_target, total_hashrate, on_data,
}
use mara_pool.Translator.Difficulty.Rounds.{both}
use mara_pool.Translator.Server.Registry.{
  contains-insert, IsPaired, Paired, IsPaired-same, write-IsPaired, on_data-Keeps,
}

module _ ⦃core : Sv1Core⦄ where
  open core use {Hashrate, VardiffState, try_vardiff, hash_rate_to_target}

  decide-Keeps : (o : Option ℕ) (u : Update) → Keeps IsPaired (decide o u)
  unfolding decide push_pending
  decide-Keeps none u s h = h
  decide-Keeps (some t) u s h = elim (Bool-cases (leb t u.new_target)) [
    | inl high ↦ rw (high, decide) h
    | inr low ↦ rw (low, decide) (IsPaired-same s (push_pending u s) (λ e. refl) (λ e. refl) h)
  ]

  propose-Keeps :
      (spm : Hashrate) (id c : ℕ) (o : Option ℕ) (hashrate : Hashrate)
      → Keeps IsPaired (propose spm id c o hashrate)
  unfolding propose
  propose-Keeps spm id c o hashrate s h = elim (result_cases (hash_rate_to_target hashrate spm)) [
    | inr (e, bad) ↦ rw (bad, propose) h
    | inl (target, made) ↦
        let u : Update = record {
          downstream_id = id;
          channel_id = c;
          new_target = target;
          new_hashrate = hashrate;
        } in
        let k = write_downstream id (set_pending target hashrate) s in
        let same : propose spm id c o hashrate s ≡ decide o u k = rw (made, propose) refl in
        rw same (decide-Keeps o u k (write-IsPaired id (set_pending target hashrate) s h))
  ]

  adopt-Keeps :
      (spm : Hashrate) (id c : ℕ) (o : Option ℕ) (r : Result ℕ (Option Hashrate))
      → Keeps IsPaired (adopt spm id c o r)
  unfolding adopt
  adopt-Keeps spm id c o (err e) s h = h
  adopt-Keeps spm id c o (ok none) s h = h
  adopt-Keeps spm id c o (ok (some hashrate)) s h = propose-Keeps spm id c o hashrate s h

  adjust_channel-IsPaired :
      (spm : Hashrate) (now id : ℕ) (state : VardiffState) (d : DownstreamData)
      (hashrate : Hashrate) (c : Option ℕ) (s : Sv1ServerData)
      → contains id s.vardiff ≡ true
      → IsPaired s
      → IsPaired (adjust_channel spm now id state d hashrate c s).1
  unfolding adjust_channel
  adjust_channel-IsPaired spm now id state d hashrate none s there h = h
  adjust_channel-IsPaired spm now id state d hashrate (some c) s there h =
      let (res, state') = try_vardiff state hashrate d.target spm now in
      adopt-Keeps spm id c d.upstream_target res (record s { vardiff = insert id state' s.vardiff })
        (IsPaired-same s (record s { vardiff = insert id state' s.vardiff })
          (λ e. contains-insert e id state' s.vardiff there) (λ e. refl) h)

  rated-IsPaired :
      (spm : Hashrate) (now id : ℕ) (state : VardiffState) (d : DownstreamData)
      (o : Option Hashrate) (s : Sv1ServerData)
      → contains id s.vardiff ≡ true
      → IsPaired s
      → IsPaired
          (resume
            (expect {E = TproxyError} o s)
            (λ hashrate. adjust_channel spm now id state d hashrate d.channel_id)).1
  rated-IsPaired spm now id state d none s there h = h
  rated-IsPaired spm now id state d (some hashrate) s there h =
      adjust_channel-IsPaired spm now id state d hashrate d.channel_id s there h

  adjust_found-IsPaired :
      (spm : Hashrate) (now id : ℕ) (state : VardiffState) (o : Option DownstreamData)
      (s : Sv1ServerData)
      → lookup id s.downstreams ≡ o
      → IsPaired s
      → IsPaired (adjust_found spm now id state o s).1
  unfolding adjust_found
  adjust_found-IsPaired spm now id state none s found h = h
  adjust_found-IsPaired spm now id state (some d) s found h =
      rated-IsPaired spm now id state d d.hashrate s (h.paired id ∙ ap is_some found) h

  adjust_all-Keeps :
      (spm : Hashrate) (now : ℕ) (m : Map ℕ VardiffState) → Keeps IsPaired (adjust_all spm now m)
  unfolding adjust_all adjust
  adjust_all-Keeps spm now [] s h = h
  adjust_all-Keeps spm now ((id, state) ∷ m) s h =
      resume-Keeps IsPaired (adjust spm now id state s)
        (λ first. adjust_all spm now m >>= λ rest. pure (both first rest))
        (adjust_found-IsPaired spm now id state (lookup id s.downstreams) s refl h)
        (λ first k kept.
          resume-Keeps IsPaired (adjust_all spm now m k) (λ rest. pure (both first rest))
            (adjust_all-Keeps spm now m k kept) (λ rest e p. p))

  messages-Keeps :
      (aggregated : Bool) (updates : List Update)
      → Keeps Paired (send_update_channel_messages aggregated updates)
  unfolding send_update_channel_messages send_upstream
  messages-Keeps false updates s h = h
  messages-Keeps true [] s h = h
  messages-Keeps true (u ∷ updates) s h =
      elim (Option-cases (min_target s.sv1_server_data.downstreams)) [
        | inl no_miner ↦ rw (no_miner, send_update_channel_messages) h
        | inr (t, least) ↦ elim (Option-cases (total_hashrate s.sv1_server_data.downstreams)) [
          | inl unrated ↦ rw (least, unrated, send_update_channel_messages) h
          | inr (total, summed) ↦ rw (least, summed, send_update_channel_messages) h
        ]
      ]

  pub round-Keeps :
      (aggregated : Bool) (spm : Hashrate) (now : ℕ)
      → Keeps Paired (handle_vardiff_updates aggregated spm now)
  unfolding handle_vardiff_updates on_data send_broadcasts
  round-Keeps aggregated spm now s h =
      resume-Keeps Paired (on_data (adjust_all spm now s.sv1_server_data.vardiff) s)
        (λ ds.
          send_update_channel_messages aggregated ds.all_updates
          >> send_broadcasts (immediate_messages ds.immediate_updates))
        (on_data-Keeps (adjust_all spm now s.sv1_server_data.vardiff)
          (adjust_all-Keeps spm now s.sv1_server_data.vardiff) s h)
        (λ ds k kept.
          resume-Keeps Paired (send_update_channel_messages aggregated ds.all_updates k)
            (λ u. send_broadcasts (immediate_messages ds.immediate_updates))
            (messages-Keeps aggregated ds.all_updates k kept) (λ u e p. p))
