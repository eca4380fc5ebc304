-- ===== src/Util/Pow2.antt =====
-- tactyk_util__next_pow2 of libtactyk/tactyk_util.c.
pub mod Least
mod Tests
use Prim.Native.Nat.{bit_and, bit_or}
use tactyk.Base.{ℕ, ◌/◌, ◌^◌, ◌==◌, if◌then◌else◌}
use tactyk.Base.Words.{add64, sub64}

-- `v |= v >> k`
abbrev pub smear : ℕ → ℕ → ℕ
smear k v = bit_or v (v / 2 ^ k)

unfoldable pub next_pow2 : ℕ → ℕ
next_pow2 val =
    let v = sub64 val 1 in
    if bit_and v val == 0
    then val
    else add64 (smear 32 (smear 16 (smear 8 (smear 4 (smear 2 (smear 1 v)))))) 1
