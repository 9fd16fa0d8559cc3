-- ===== src/Base/Int.antt =====
-- The integers over the native numbers, as far as the validation of requests computes with them.
use Prim.Native.Nat.{ℕ, zero, suc, ◌+◌, ◌-◌, ◌*◌}
use mathlib.Core.Bool.{Bool, false}
use serverless_order_integra.Base.Tests.{leb, ltb, if◌then◌else◌}

-- `negsuc n` is `-(n + 1)`.
pub data ℤ : Type 0 where
  pos negsuc : ℕ → ℤ

-- `m - n`
abbrev difference : ℕ → ℕ → ℤ
difference m n = if leb n m then pos (m - n) else negsuc (n - m - 1)

abbrev minus : ℕ → ℤ
minus zero = pos zero
minus (suc n) = negsuc n

infixl 6 ◌+ℤ◌
abbrev pub ◌+ℤ◌ : ℤ → ℤ → ℤ
pos m +ℤ pos n = pos (m + n)
pos m +ℤ negsuc n = difference m (suc n)
negsuc m +ℤ pos n = difference n (suc m)
negsuc m +ℤ negsuc n = negsuc (suc (m + n))

infixl 7 ◌*ℤ◌
abbrev pub ◌*ℤ◌ : ℤ → ℤ → ℤ
pos m *ℤ pos n = pos (m * n)
pos m *ℤ negsuc n = minus (m * suc n)
negsuc m *ℤ pos n = minus (suc m * n)
negsuc m *ℤ negsuc n = pos (suc m * suc n)

-- Whether the absolute value is at most `bound`.
abbrev pub is_within : ℕ → ℤ → Bool
is_within bound (pos n) = leb n bound
is_within bound (negsuc n) = ltb n bound

-- `low <= z && z <= high` for natural bounds
abbrev pub is_between : ℕ → ℕ → ℤ → Bool
is_between low high (pos n) = if leb low n then leb n high else false
is_between low high (negsuc n) = false

-- The natural number that an integer is, 0 for a negative one.
abbrev pub to_natural : ℤ → ℕ
to_natural (pos n) = n
to_natural (negsuc n) = 0
