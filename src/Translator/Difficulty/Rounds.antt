-- ===== src/Translator/Difficulty/Rounds.antt =====
-- What a vardiff round tells the miners at once, and what waits.
use mara_pool.Prelude.{◌++◌, nat_eq}
use mara_pool.Prelude.Map.{Map}
use mara_pool.Translator.Core.{Sv1Core}
use mara_pool.Translator.Difficulty.Proposals.{Decisions}

module _ ⦃core : Sv1Core⦄ where
  open core use {Hashrate, VardiffState, try_vardiff, hash_rate_to_target}

  abbrev pub both : Decisions → Decisions → Decisions
  both first rest = record {
    immediate_updates = first.immediate_updates ++ rest.immediate_updates;
    all_updates = first.all_updates ++ rest.all_updates;
  }
