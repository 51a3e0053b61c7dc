-- ===== src/Base/Words.antt =====
-- `int64` counters as 64-bit patterns: addition wraps, and a pattern from 2 ^ 63 on is negative.
use Prim.Native.Nat.{ℕ, ◌+◌, ◌-◌, ◌%◌, ◌^◌}
use mathlib.Core.Bool.{Bool, ◌&&◌}
use dns_automatic_traffic_sp.Base.Tests.{ltb, leb}

abbrev pub max_int64 : ℕ
max_int64 = 2 ^ 63 - 1

-- `n++`
abbrev pub inc64 : ℕ → ℕ
inc64 n = (n + 1) % 2 ^ 64

-- `n - 1`
abbrev pub dec64 : ℕ → ℕ
dec64 n = (n + (2 ^ 64 - 1)) % 2 ^ 64

abbrev pub add64 : ℕ → ℕ → ℕ
add64 a b = (a + b) % 2 ^ 64

-- `n > 0`
abbrev pub is_positive64 : ℕ → Bool
is_positive64 n = ltb 0 n && leb n max_int64

-- `a <= b`: adding 2 ^ 63 turns the signed order into the order of the patterns.
abbrev pub leb64 : ℕ → ℕ → Bool
leb64 a b = leb ((a + 2 ^ 63) % 2 ^ 64) ((b + 2 ^ 63) % 2 ^ 64)
