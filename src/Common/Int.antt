-- ===== src/Common/Int.antt =====
-- Go's signed integers.
use Prim.Native.Nat.{ℕ, ◌≤◌}
use mathlib.Core.Bool.{Bool, true, false}
use pubsub_event_processor.Common.Tests.{ltb}

-- `negsuc n` is -(n + 1).
pub data ℤ : Type 0 where
  pos : ℕ → ℤ
  negsuc : ℕ → ℤ

-- z < k and k < z, for a constant k that is not negative.
abbrev pub lt_const : ℤ → ℕ → Bool
lt_const (pos n) k = ltb n k
lt_const (negsuc n) k = true

abbrev pub gt_const : ℤ → ℕ → Bool
gt_const (pos n) k = ltb k n
gt_const (negsuc n) k = false

-- z lies between two such constants.
abbrev pub Within : ℕ → ℕ → ℤ → Type 0
Within lo hi (pos n) = (lo ≤ n) × (n ≤ hi)
Within lo hi (negsuc n) = ⊥

abbrev pub AtLeast : ℕ → ℤ → Type 0
AtLeast lo (pos n) = lo ≤ n
AtLeast lo (negsuc n) = ⊥
