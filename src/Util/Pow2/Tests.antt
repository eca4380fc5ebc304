-- ===== src/Util/Pow2/Tests.antt =====
-- next_pow2 on small arguments, and its theorem at one.
use tactyk.Base.{ℕ, ◌≡◌, ◌≤◌, ◌<◌, ◌*◌, ◌^◌, ◌+◌, refl, arith}
use tactyk.Util.Pow2.{next_pow2}
use tactyk.Util.Pow2.Least.{next_pow2-least}

powers :
    (next_pow2 1 ≡ 1)
    × (next_pow2 16 ≡ 16)
    × (next_pow2 17 ≡ 32)
    × (next_pow2 (2 ^ 62 + 1) ≡ 2 ^ 63)
unfolding next_pow2
powers = (refl, refl, refl, refl)

next_pow2-least_example :
    (k : ℕ) × (next_pow2 100 ≡ 2 ^ k) × (100 ≤ next_pow2 100) × (next_pow2 100 < 2 * 100)
next_pow2-least_example = next_pow2-least 100 (omega arith) (omega arith)
