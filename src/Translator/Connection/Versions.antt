-- ===== src/Translator/Connection/Versions.antt =====
-- Version rolling.
use mara_pool.Prelude.{ℕ, ◌<◌, ◌≡◌, arith, if◌then◌else◌, Bool-cases}
use mara_pool.Prelude.Bits.{bit, band, bnot, bit-band, bit-bor, bit-bnot}
use mara_pool.Translator.Connection.Validation.{rolled_version}

-- Every bit of the version that a share is checked with is the miner's where the mask has a one, and
-- the job's everywhere else.
pub rolled_version_bits :
    (i job_version share_version mask : ℕ)
    → i < 32
    → bit i (rolled_version job_version share_version mask)
      ≡ (if bit i mask then bit i share_version else bit i job_version)
unfolding rolled_version
rolled_version_bits i job_version share_version mask h = ground (
  arith,
  bit-bor 32 i (band 32 job_version (bnot 32 mask)) (band 32 share_version mask) h,
  bit-band 32 i job_version (bnot 32 mask) h,
  bit-band 32 i share_version mask h,
  bit-bnot 32 i mask h,
  Bool-cases (bit i mask),
  Bool-cases (bit i job_version),
  Bool-cases (bit i share_version),
)
