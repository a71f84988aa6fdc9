-- ===== src/Prelude/Bits.antt =====
-- The bitwise operations on `w`-bit integers.
use Prim.Native.Nat.{ℕ, zero, suc, ◌+◌, ◌*◌, ◌/◌, ◌%◌, ◌^◌, ◌<◌}
use mathlib.Core.Path.{◌≡◌}
use mathlib.Core.Bool.{Bool, true, false, not, ◌&&◌, ◌||◌}
use native.Mathlib.Omega.{arith}
use mara_pool.Prelude.Tests.{if◌then◌else◌, nat_eqb}

-- The lowest bit.
abbrev pub odd : ℕ → Bool
odd a = nat_eqb (a % 2) 1

-- Bit `i`, from the lowest.
abbrev pub bit : ℕ → ℕ → Bool
bit zero a = odd a
bit (suc i) a = bit i (a / 2)

-- A lowest bit in front of the others.
abbrev pub shift_in : Bool → ℕ → ℕ
shift_in b a = if b then 2 * a + 1 else 2 * a

odd-shift_in : (b : Bool) (a : ℕ) → odd (shift_in b a) ≡ b
odd-shift_in b a = elim b [ true ↦ ground arith | false ↦ ground arith ]

half-shift_in : (b : Bool) (a : ℕ) → shift_in b a / 2 ≡ a
half-shift_in b a = elim b [ true ↦ ground arith | false ↦ ground arith ]

-- `a & b`.
abbrev pub band : ℕ → ℕ → ℕ → ℕ
band zero a b = 0
band (suc w) a b = shift_in (odd a && odd b) (band w (a / 2) (b / 2))

-- `a | b`.
abbrev pub bor : ℕ → ℕ → ℕ → ℕ
bor zero a b = 0
bor (suc w) a b = shift_in (odd a || odd b) (bor w (a / 2) (b / 2))

-- `!a`.
abbrev pub bnot : ℕ → ℕ → ℕ
bnot zero a = 0
bnot (suc w) a = shift_in (not (odd a)) (bnot w (a / 2))

pub bit-band : (w i a b : ℕ) → i < w → bit i (band w a b) ≡ (bit i a && bit i b)
bit-band zero i a b h = ground arith
bit-band (suc w) zero a b h = odd-shift_in (odd a && odd b) (band w (a / 2) (b / 2))
bit-band (suc w) (suc i) a b h =
    rw (half-shift_in (odd a && odd b) (band w (a / 2) (b / 2)))
      (bit-band w i (a / 2) (b / 2) (omega arith))

pub bit-bor : (w i a b : ℕ) → i < w → bit i (bor w a b) ≡ (bit i a || bit i b)
bit-bor zero i a b h = ground arith
bit-bor (suc w) zero a b h = odd-shift_in (odd a || odd b) (bor w (a / 2) (b / 2))
bit-bor (suc w) (suc i) a b h =
    rw (half-shift_in (odd a || odd b) (bor w (a / 2) (b / 2)))
      (bit-bor w i (a / 2) (b / 2) (omega arith))

pub bit-bnot : (w i a : ℕ) → i < w → bit i (bnot w a) ≡ not (bit i a)
bit-bnot zero i a h = ground arith
bit-bnot (suc w) zero a h = odd-shift_in (not (odd a)) (bnot w (a / 2))
bit-bnot (suc w) (suc i) a h =
    rw (half-shift_in (not (odd a)) (bnot w (a / 2))) (bit-bnot w i (a / 2) (omega arith))

-- `fetch_add` on an `AtomicU32`.
abbrev pub next_u32 : ℕ → ℕ
next_u32 n = (n + 1) % 2 ^ 32

-- `AtomicUsize::fetch_add(1)` wraps around; `usize` has 64 bits.
abbrev pub next_usize : ℕ → ℕ
next_usize n = (n + 1) % 2 ^ 64
