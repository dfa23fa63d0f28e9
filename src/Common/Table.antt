-- ===== src/Common/Table.antt =====
-- A test checked at every value below a bound, by evaluation.
use Prim.Native.Nat.{ℕ, zero, suc, ◌<◌}
use mathlib.Core.Path.{◌≡◌}
use mathlib.Core.Bool.{Bool, true, ◌&&◌}
use native.Mathlib.Omega.{arith}

module _ (test : ℕ → Bool) where
  -- `test` holds at `size - 1`, and so on down to 0.
  unfoldable pub holds_throughout : ℕ → Bool
  holds_throughout (suc size) = holds_throughout size && test size
  holds_throughout zero = true

  pub holds_throughout-lookup :
      (size i : ℕ) → holds_throughout size ≡ true → i < size → test i ≡ true
  unfolding holds_throughout
  holds_throughout-lookup (suc size) i passed inside =
      ground (arith, holds_throughout-lookup size i)
  holds_throughout-lookup zero i passed inside = absurd (omega arith)
