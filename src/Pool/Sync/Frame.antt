-- ===== src/Pool/Sync/Frame.antt =====
-- Which channels a connection owns, and which have a vardiff state.
use mara_pool.Prelude.{
  ℕ, Bool, true, false, ◌||◌, Option, none, some, ◌≡◌, nat_eq, ◌==◌, if◌then◌else◌, ◌≤◌, arith,
}
use mara_pool.Prelude.Map.{Map, lookup, contains, insert, lookup-insert}
use mara_pool.Stratum.{StratumCore}
use mara_pool.Pool.State.{
  VardiffKey, vardiff_key, vardiff_key_eq, DownstreamData, Downstream, ChannelManagerData,
}
use mara_pool.Pool.Access.{Locked}

module _ ⦃core : StratumCore⦄ where
  open core use {VardiffState}

  abbrev pub has_channel : DownstreamData → ℕ → Bool
  has_channel data' c = contains c data'.standard_channels || contains c data'.extended_channels

  abbrev pub owns_in : Option Downstream → ℕ → Bool
  owns_in none c = false
  owns_in (some ds) c = has_channel ds.downstream_data c

  -- Connection `d` is known and has an open channel `c`.
  abbrev pub owns : Map ℕ Downstream → ℕ → ℕ → Bool
  owns m d c = owns_in (lookup d m) c

  abbrev pub tracks : Map VardiffKey VardiffState → ℕ → ℕ → Bool
  tracks m d c = contains (vardiff_key d c) m

  -- The channels that have a vardiff state are the open channels of the known connections.
  pub record IsInSync (m : ChannelManagerData) : Type 0 where
    pub sync : (d c : ℕ) → tracks m.vardiff d c ≡ owns m.downstream d c
    -- The ids that the factory has yet to give out are not in use.
    pub fresh : (d : ℕ) → m.downstream_id_factory ≤ d → contains d m.downstream ≡ false

  -- The same while connection `d` is locked: its data are not in the map.
  pub record IsInSyncLocked (d : ℕ) (l : Locked) : Type 0 where
    pub mine : (c : ℕ) → tracks l.manager.vardiff d c ≡ has_channel l.downstream_data c
    pub others :
        (e c : ℕ) → (d == e) ≡ false → tracks l.manager.vardiff e c ≡ owns l.manager.downstream e c
    pub fresh :
        (e : ℕ) → l.manager.downstream_id_factory ≤ e → contains e l.manager.downstream ≡ false
    pub known : contains d l.manager.downstream ≡ true

  pub tracks-insert :
      (d c e b : ℕ) (v : VardiffState) (m : Map VardiffKey VardiffState)
      → tracks (insert (vardiff_key d c) v m) e b
        ≡ (if d == e then (if c == b then true else tracks m e b) else tracks m e b)
  tracks-insert d c e b v m = ground (arith, lookup-insert (vardiff_key e b) (vardiff_key d c) v m)

  module _ {C : Type 0} where
    -- A write to an open channel opens none.
    pub contains-insert_old :
        (c b : ℕ) (v : C) (m : Map ℕ C)
        → contains c m ≡ true
        → contains b (insert c v m) ≡ contains b m
    contains-insert_old c b v m h = ground (arith, lookup-insert b c v m)

    pub contains-insert :
        (c b : ℕ) (v : C) (m : Map ℕ C)
        → contains b (insert c v m) ≡ (if c == b then true else contains b m)
    contains-insert c b v m = ground (arith, lookup-insert b c v m)

  pub owns-insert :
      (d e c : ℕ) (ds : Downstream) (m : Map ℕ Downstream)
      → owns (insert d ds m) e c ≡ (if d == e then has_channel ds.downstream_data c else owns m e c)
  owns-insert d e c ds m = ground (arith, lookup-insert e d ds m)
