-- ===== src/Base/Bits.antt =====
-- Masks with `&`: on a range of numbers they are remainders.
use Prim.Native.Nat.{ℕ, zero, suc, ◌%◌, ◌<◌, bit_and}
use mathlib.Core.Path.{◌≡◌, refl}
use mathlib.Core.Bool.{Bool, true, ◌&&◌}
use native.Mathlib.Omega.{arith}
use smart_door_lock.Base.Tests.{◌==◌, ==_iff}

-- A test of all numbers below a bound.
holds_below : ℕ → (ℕ → Bool) → Bool
holds_below zero p = true
holds_below (suc n) p = p n && holds_below n p

of_holds_below : (n : ℕ) (p : ℕ → Bool) (x : ℕ) → holds_below n p ≡ true → x < n → p x ≡ true
unfolding holds_below
of_holds_below zero p x h lt = absurd (omega arith)
of_holds_below (suc n) p x h lt = ground (arith, of_holds_below n p x)

mask_255_table : holds_below 257 (λ x. bit_and x 255 == x % 256) ≡ true
unfolding holds_below
mask_255_table = refl

pub mask_255 : (x : ℕ) → x < 257 → bit_and x 255 ≡ x % 256
mask_255 x h = (==_iff _ _).0 (of_holds_below 257 _ x mask_255_table h)
