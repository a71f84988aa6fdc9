-- ===== src/Translator/Server/Registry.antt =====
-- The miners that have a vardiff state are the connected ones: what single writes do to that.
pub mod Round
pub mod Opening
pub mod Messages
pub mod Reach
use mara_pool.Prelude.{
  ℕ, Bool, true, false, Option, none, some, ◌≡◌, refl, inl, inr, List, [], ◌∷◌, arith,
  if◌then◌else◌, ◌==◌, nat_eq, nat_eqb_iff, Option-cases, Bool-cases, ◌∙◌, ap, sym, Handler, Keeps,
  Outcome,
}
use mara_pool.Prelude.Map.{
  Map, lookup, insert, remove, contains, is_some, lookup-insert, lookup-remove,
}
use mara_pool.Translator.Core.{Sv1Core}
use mara_pool.Translator.State.{TproxyError, DownstreamData, Sv1ServerData, Sv1Server}
use mara_pool.Translator.Difficulty.{
  write_downstream, set_all_upstream_targets, set_upstream_target, on_data,
}
use mara_pool.Translator.Server.Sending.{set_open_targets, set_both_targets, count_share}

-- A write to a key that is there.
pub contains-insert :
    {V : Type 0} (e id : ℕ) (v : V) (m : Map ℕ V)
    → contains id m ≡ true
    → contains e (insert id v m) ≡ contains e m
contains-insert e id v m there = elim (Bool-cases (id == e)) [
  | inl same ↦ ground (arith, there, same, nat_eqb_iff id e, lookup-insert e id v m)
  | inr other ↦ ground (arith, other, lookup-insert e id v m)
]

module _ ⦃core : Sv1Core⦄ where
  open core use {VardiffState, increment_shares_since_last_update}

  pub record IsPaired (s : Sv1ServerData) : Type 0 where
    pub paired : (id : ℕ) → contains id s.vardiff ≡ contains id s.downstreams

  -- The same for the server.
  abbrev pub Paired : Sv1Server → Type 0
  Paired s = IsPaired s.sv1_server_data

  pub IsPaired-same :
      (s s' : Sv1ServerData)
      → ((id : ℕ) → contains id s'.vardiff ≡ contains id s.vardiff)
      → ((id : ℕ) → contains id s'.downstreams ≡ contains id s.downstreams)
      → IsPaired s
      → IsPaired s'
  IsPaired-same s s' v d h = record { paired = λ id. v id ∙ h.paired id ∙ sym (d id) }

  pub write-contains :
      (id e : ℕ) (f : DownstreamData → DownstreamData) (s : Sv1ServerData)
      → contains e (write_downstream id f s).downstreams ≡ contains e s.downstreams
  unfolding write_downstream
  write-contains id e f s = elim (Option-cases (lookup id s.downstreams)) [
    | inl absent ↦ ground (arith, absent)
    | inr (d, found) ↦
        ground (arith, found, contains-insert e id (f d) s.downstreams (ap is_some found))
  ]

  pub write-IsPaired :
      (id : ℕ) (f : DownstreamData → DownstreamData) (s : Sv1ServerData)
      → IsPaired s
      → IsPaired (write_downstream id f s)
  unfolding write_downstream
  write-IsPaired id f s h =
      IsPaired-same s (write_downstream id f s)
        (λ e. ground (arith, Option-cases (lookup id s.downstreams))) (λ e. write-contains id e f s)
        h

  pub set_all-contains :
      (e target : ℕ) (m : Map ℕ DownstreamData)
      → contains e (set_all_upstream_targets target m) ≡ contains e m
  unfolding set_all_upstream_targets lookup
  set_all-contains e target [] = refl
  set_all-contains e target ((j, d) ∷ m) = ground (arith, set_all-contains e target m)

  pub set_open-contains :
      (e target : ℕ) (m : Map ℕ DownstreamData)
      → contains e (set_open_targets target m) ≡ contains e m
  unfolding set_open_targets lookup
  set_open-contains e target [] = refl
  set_open-contains e target ((j, d) ∷ m) = ground (arith, set_open-contains e target m)

  pub count_share-IsPaired : (id : ℕ) (s : Sv1ServerData) → IsPaired s → IsPaired (count_share id s)
  unfolding count_share
  count_share-IsPaired id s h = elim (Option-cases (lookup id s.vardiff)) [
    | inl absent ↦ rw (absent, count_share) h
    | inr (state, found) ↦
        rw (found, count_share)
          (IsPaired-same s
            (record s { vardiff = insert id (increment_shares_since_last_update state) s.vardiff })
            (λ e.
              contains-insert e id (increment_shares_since_last_update state) s.vardiff
                (ap is_some found))
            (λ e. refl) h)
  ]

  pub on_data-Keeps :
      {A : Type 0} (m : Handler Sv1ServerData TproxyError A)
      → Keeps IsPaired m
      → Keeps Paired (on_data m)
  unfolding on_data
  on_data-Keeps m h s p = h s.sv1_server_data p
