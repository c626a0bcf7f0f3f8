-- ===== src/Prelude/Int64.antt =====
-- Go's int64 (and `int` on a 64-bit platform): an integer, with each operation reduced to the
-- two's complement range.
use Prim.Native.Nat.{ℕ, ◌-◌, ◌%◌, ◌≤◌, ◌<◌}
use mathlib.Core.Path.{◌≡◌}
use native.Mathlib.Omega.{arith}
use go_ddd_core.Prelude.Tests.{ltb, if◌then◌else◌}
use go_ddd_core.Prelude.Int.{ℤ, pos, negsuc, pos_part, neg_part, ◌+ℤ◌, ◌-ℤ◌, ◌*ℤ◌}

-- 2 ^ 64 and 2 ^ 63.
abbrev pub word_size : ℕ
word_size = 18446744073709551616

abbrev pub half_size : ℕ
half_size = 9223372036854775808

-- The 64-bit pattern of an integer, and the integer that a pattern stands for.
abbrev pub to_word : ℤ → ℕ
to_word (pos n) = n % word_size
to_word (negsuc n) = word_size - 1 - n % word_size

abbrev pub of_word : ℕ → ℤ
of_word w = if ltb w half_size then pos w else negsuc (word_size - 1 - w)

unfoldable pub wrap : ℤ → ℤ
wrap a = of_word (to_word a)

abbrev pub Fits : ℤ → Type 0
Fits a = (pos_part a < half_size) × (neg_part a ≤ half_size)

unfoldable pub add64 : ℤ → ℤ → ℤ
add64 a b = wrap (a +ℤ b)

unfoldable pub sub64 : ℤ → ℤ → ℤ
sub64 a b = wrap (a -ℤ b)

unfoldable pub mul64 : ℤ → ℤ → ℤ
mul64 a b = wrap (a *ℤ b)

unfoldable pub neg64 : ℤ → ℤ
neg64 a = wrap (pos 0 -ℤ a)

pub wrap-eq_of_Fits : (a : ℤ) → Fits a → wrap a ≡ a
unfolding wrap
wrap-eq_of_Fits (pos n) h = ground arith
wrap-eq_of_Fits (negsuc n) h = ground arith

wrap-Fits : (a : ℤ) → Fits (wrap a)
unfolding wrap
wrap-Fits (pos n) = ground arith
wrap-Fits (negsuc n) = ground arith
