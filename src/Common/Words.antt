-- ===== src/Common/Words.antt =====
-- Moduli of the machine words. A release build of the runtime has no overflow checks, so `+` and
-- `-` wrap round.
use Prim.Native.Nat.{ℕ, ◌+◌, ◌-◌, ◌*◌, ◌%◌, ◌^◌}
use mathlib.Core.Option.{Option, none, some}
use xxchain.Common.Tests.{leb, if◌then◌else◌}

abbrev pub u32_mod : ℕ
u32_mod = 2 ^ 32

abbrev pub u64_mod : ℕ
u64_mod = 2 ^ 64

abbrev pub u128_mod : ℕ
u128_mod = 2 ^ 128

-- a + b and a - b on a word of the given modulus, for operands in range.
abbrev pub wrapping_add : ℕ → ℕ → ℕ → ℕ
wrapping_add modulus a b = (a + b) % modulus

abbrev pub wrapping_sub : ℕ → ℕ → ℕ → ℕ
wrapping_sub modulus a b = (a + modulus - b) % modulus

abbrev pub wrapping_mul : ℕ → ℕ → ℕ → ℕ
wrapping_mul modulus a b = (a * b) % modulus

-- `checked_sub`
abbrev pub checked_sub : ℕ → ℕ → Option ℕ
checked_sub a b = if leb b a then some (a - b) else none
