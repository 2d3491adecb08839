-- ===== src/Prelude/Int.antt =====
-- Signed integers, as the values of `int` and `int64_t`: `negsuc n` is -(n + 1).
use Prim.Native.Nat.{ℕ, zero, suc, ◌+◌, ◌*◌, ◌-◌}
use hvax.Prelude.Tests.{ltb, if◌then◌else◌}

pub data ℤ : Type 0 where
  pos : ℕ → ℤ
  negsuc : ℕ → ℤ

-- m - (n + 1)
abbrev sub_suc : ℕ → ℕ → ℤ
sub_suc m n = if ltb n m then pos (m - suc n) else negsuc (n - m)

infixl 50 ◌+ℤ◌
unfoldable pub ◌+ℤ◌ : ℤ → ℤ → ℤ
pos m +ℤ pos n = pos (m + n)
pos m +ℤ negsuc n = sub_suc m n
negsuc m +ℤ pos n = sub_suc n m
negsuc m +ℤ negsuc n = negsuc (suc (m + n))

-- -n
abbrev minus : ℕ → ℤ
minus zero = pos zero
minus (suc n) = negsuc n

infixl 60 ◌*ℤ◌
unfoldable pub ◌*ℤ◌ : ℤ → ℤ → ℤ
pos m *ℤ pos n = pos (m * n)
pos m *ℤ negsuc n = minus (m * suc n)
negsuc m *ℤ pos n = minus (suc m * n)
negsuc m *ℤ negsuc n = pos (suc m * suc n)
