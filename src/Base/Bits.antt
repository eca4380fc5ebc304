-- ===== src/Base/Bits.antt =====
-- The masks that the code takes of a word, from the recursion on binary digits that the native
-- operations stand for.
pub mod Or
use Prim.Native.Nat.{
  ℕ, zero, suc, ◌+◌, ◌-◌, ◌*◌, ◌/◌, ◌%◌, ◌≤◌, ◌<◌, min, max, bit_and, bit_or, digits,
  bit_and-bitwise, bit_or-bitwise,
}
use mathlib.Core.Path.{◌≡◌, refl, sym, ◌∙◌, subst}
use native.Mathlib.Decide.{dec_le}
use native.Mathlib.Omega.{arith}

-- `digits` counts the digits to go: one more than enough changes nothing.
module _ (rest : ℕ → ℕ) (join : ℕ → ℕ → ℕ) where
  spare_digit : (n a b : ℕ) → a ≤ n → digits rest join (suc n) a b ≡ digits rest join n a b
  spare_digit n zero b h = by_count n
    where
      by_count : (k : ℕ) → digits rest join (suc k) 0 b ≡ digits rest join k 0 b
      by_count zero = refl
      by_count (suc k) = refl
  spare_digit zero (suc a) b h = elim h [ ]
  spare_digit (suc n) (suc a) b h = rw (spare_digit n (suc a / 2) (b / 2) (omega arith)) refl

  spare_digits : (n a b : ℕ) → a ≤ n → digits rest join n a b ≡ digits rest join a a b
  spare_digits zero zero b h = refl
  spare_digits zero (suc a) b h = elim h [ ]
  spare_digits (suc n) a b h = elim (dec_le a n) [
    | yes less ↦ spare_digit n a b less ∙ spare_digits n a b less
    | no all ↦
        let e : a ≡ suc n = omega arith in
        subst (λ m. digits rest join m a b ≡ digits rest join a a b) e refl
  ]

  lowest_digit :
      (a b : ℕ)
      → digits rest join (suc a) (suc a) b
        ≡ digits rest join (suc a / 2) (suc a / 2) (b / 2) * 2 + join (suc a % 2) (b % 2)
  lowest_digit a b = rw (spare_digits a (suc a / 2) (b / 2) (omega arith)) refl

-- The lowest digit of `a & b`, and of `a | b`.
pub bit_and-halves : (a b : ℕ) → bit_and a b ≡ 2 * bit_and (a / 2) (b / 2) + min (a % 2) (b % 2)
bit_and-halves zero b = omega (arith, bit_and-bitwise 0 b, bit_and-bitwise 0 (b / 2))
bit_and-halves (suc a) b = omega (
  arith,
  bit_and-bitwise (suc a) b,
  bit_and-bitwise (suc a / 2) (b / 2),
  lowest_digit (λ y. 0) min a b,
)

pub bit_or-halves : (a b : ℕ) → bit_or a b ≡ 2 * bit_or (a / 2) (b / 2) + max (a % 2) (b % 2)
bit_or-halves zero b = omega (arith, bit_or-bitwise 0 b, bit_or-bitwise 0 (b / 2))
bit_or-halves (suc a) b = omega (
  arith,
  bit_or-bitwise (suc a) b,
  bit_or-bitwise (suc a / 2) (b / 2),
  lowest_digit (λ y. y) max a b,
)

-- A mask is at most its second operand; `n` bounds the operand.
mask-le : (n a b : ℕ) → b ≤ n → bit_and a b ≤ b
mask-le n a zero h = nothing a a (omega arith)
  where
    nothing : (m c : ℕ) → c ≤ m → bit_and c 0 ≤ 0
    nothing zero c le = ground (arith, bit_and-bitwise 0 0)
    nothing (suc m) c le = omega (arith, bit_and-halves c 0, nothing m (c / 2) (omega arith))
mask-le zero a (suc b) h = elim h [ ]
mask-le (suc n) a (suc b) h =
    omega (arith, bit_and-halves a (suc b), mask-le n (a / 2) (suc b / 2) (omega arith))

pub bit_and-le_right : (a b : ℕ) → bit_and a b ≤ b
bit_and-le_right a b = mask-le b a b (omega arith)

-- `x & 7` is the remainder by 8.
pub mask_seven : (a : ℕ) → bit_and a 7 ≡ a % 8
mask_seven a = omega (
  arith,
  bit_and-halves a 7,
  bit_and-halves (a / 2) 3,
  bit_and-halves (a / 2 / 2) 1,
  bit_and-le_right (a / 2 / 2 / 2) 0,
)
