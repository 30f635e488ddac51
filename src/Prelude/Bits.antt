-- ===== src/Prelude/Bits.antt =====
-- Single bits of a number, in the arithmetic form that the tactics read. `x & (1 << k)` is tested
-- by `test_bit`, `x | (1 << k)` is `set_bit`, and `x & ~(1 << k)` is `clear_bit`.
use Prim.Native.Nat.{ℕ, ◌+◌, ◌-◌, ◌/◌, ◌%◌, ◌^◌}
use mathlib.Core.Bool.{Bool}
use osdev.Prelude.Tests.{◌==◌, if◌then◌else◌}

abbrev pub test_bit : ℕ → ℕ → Bool
test_bit x k = x / 2 ^ k % 2 == 1

abbrev pub set_bit : ℕ → ℕ → ℕ
set_bit x k = if test_bit x k then x else x + 2 ^ k

abbrev pub clear_bit : ℕ → ℕ → ℕ
clear_bit x k = if test_bit x k then x - 2 ^ k else x
