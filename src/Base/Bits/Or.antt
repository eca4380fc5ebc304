-- ===== src/Base/Bits/Or.antt =====
-- `|` on binary numbers: what it does to the digits above and below a place.
use Prim.Native.Nat.{ℕ, zero, suc, ◌+◌, ◌-◌, ◌*◌, ◌/◌, ◌%◌, ◌^◌, ◌≤◌, ◌<◌, bit_and, bit_or}
use mathlib.Core.Path.{◌≡◌, refl, sym, ap, ap₂, ◌∙◌}
use native.Mathlib.Nat.{div-div-eq-div-mul, pow-suc}
use native.Mathlib.Decide.{dec_lt}
use native.Mathlib.Omega.{arith}
use tactyk.Base.Bits.{bit_and-halves, bit_or-halves}

pub pow_pos : (k : ℕ) → 1 ≤ 2 ^ k
pow_pos zero = omega arith
pow_pos (suc k) = omega (arith, pow-suc 2 k, pow_pos k)

pub pow-add : (m j : ℕ) → 2 ^ (m + j) ≡ 2 ^ m * 2 ^ j
pow-add m zero = omega (arith, ap (λ (n : ℕ). 2 ^ n) (plus_zero m))
  where
    plus_zero : (n : ℕ) → n + 0 ≡ n
    plus_zero n = omega arith
pow-add m (suc j) =
    ap (λ (n : ℕ). 2 ^ n) (plus_suc m j)
    ∙ pow-suc 2 (m + j)
    ∙ omega (arith, ap (λ (t : ℕ). t * 2) (pow-add m j), ap (λ (t : ℕ). 2 ^ m * t) (pow-suc 2 j))
  where
    plus_suc : (n i : ℕ) → n + suc i ≡ suc (n + i)
    plus_suc n i = omega arith

halves_pow : (a d : ℕ) → a / 2 ^ suc d ≡ a / 2 / 2 ^ d
halves_pow a d = ap (λ (t : ℕ). a / t) flip ∙ sym (div-div-eq-div-mul a 2 (2 ^ d))
  where
    flip : 2 ^ suc d ≡ 2 * 2 ^ d
    flip = omega (arith, pow-suc 2 d)

or_half : (a b : ℕ) → bit_or a b / 2 ≡ bit_or (a / 2) (b / 2)
or_half a b = omega (arith, bit_or-halves a b)

-- The digits from a place on.
pub bit_or-div : (d a b : ℕ) → bit_or a b / 2 ^ d ≡ bit_or (a / 2 ^ d) (b / 2 ^ d)
bit_or-div zero a b = omega (arith, ap (λ (t : ℕ). t) (ones a b))
  where
    ones : (x y : ℕ) → bit_or (x / 1) (y / 1) ≡ bit_or x y
    ones x y = ap₂ bit_or (omega arith) (omega arith)
bit_or-div (suc d) a b =
    halves_pow (bit_or a b) d
    ∙ ap (λ (t : ℕ). t / 2 ^ d) (or_half a b)
    ∙ bit_or-div d (a / 2) (b / 2)
    ∙ ap₂ bit_or (sym (halves_pow a d)) (sym (halves_pow b d))

or_zero : (n a : ℕ) → a ≤ n → bit_or a 0 ≡ a
or_zero n zero h = refl
or_zero zero (suc a) h = elim h [ ]
or_zero (suc n) (suc a) h =
    omega (arith, bit_or-halves (suc a) 0, or_zero n (suc a / 2) (omega arith))

-- All digits below a place set.
pub bit_or_ones : (m a : ℕ) → bit_or a (2 ^ m - 1) ≡ a / 2 ^ m * 2 ^ m + (2 ^ m - 1)
bit_or_ones zero a = omega (arith, or_zero a a (omega arith))
bit_or_ones (suc m) a = omega (
  arith,
  bit_or-halves a (2 ^ suc m - 1),
  ap (bit_or (a / 2)) half_ones,
  bit_or_ones m (a / 2),
  pow_pos m,
  pow-suc 2 m,
  odd_ones,
  ap (λ (t : ℕ). t * 2 ^ suc m) (halves_pow a m),
  ap (λ (t : ℕ). a / 2 / 2 ^ m * t) (pow-suc 2 m),
)
  where
    half_ones : (2 ^ suc m - 1) / 2 ≡ 2 ^ m - 1
    half_ones = omega (arith, pow-suc 2 m, pow_pos m)

    odd_ones : (2 ^ suc m - 1) % 2 ≡ 1
    odd_ones = omega (arith, pow-suc 2 m, pow_pos m)

pub le-bit_or : (n a b : ℕ) → a ≤ n → a ≤ bit_or a b
le-bit_or n zero b h = omega arith
le-bit_or zero (suc a) b h = elim h [ ]
le-bit_or (suc n) (suc a) b h =
    omega (arith, bit_or-halves (suc a) b, le-bit_or n (suc a / 2) (b / 2) (omega arith))

div_small : (k a : ℕ) → a < 2 ^ k → a / 2 ^ k ≡ 0
div_small k a h = grind arith

pub bit_or-lt : (k a b : ℕ) → a < 2 ^ k → b < 2 ^ k → bit_or a b < 2 ^ k
bit_or-lt k a b h i = small (2 ^ k) (bit_or a b) (omega (arith, pow_pos k)) e
  where
    e : bit_or a b / 2 ^ k ≡ 0
    e = bit_or-div k a b ∙ ap₂ bit_or (div_small k a h) (div_small k b i)

    small : (p x : ℕ) → 0 < p → x / p ≡ 0 → x < p
    small p x pos z = grind arith

-- A number and its successor without a common digit: the successor is a power of two.
and_self : (n a : ℕ) → a ≤ n → bit_and a a ≡ a
and_self n zero h = refl
and_self zero (suc a) h = elim h [ ]
and_self (suc n) (suc a) h =
    omega (arith, bit_and-halves (suc a) (suc a), and_self n (suc a / 2) (omega arith))

pub power_of_two : (n a : ℕ) → a ≤ n → bit_and a (a + 1) ≡ 0 → (k : ℕ) × (a + 1 ≡ 2 ^ k)
power_of_two n zero h e = (0, omega arith)
power_of_two zero (suc a) h e = elim h [ ]
power_of_two (suc n) (suc a) h e = elim (dec_lt (suc a % 2) 1) [
  | yes even ↦
      let q : (suc a + 1) / 2 ≡ suc a / 2 = omega arith in
      absurd (
        omega (
          arith,
          bit_and-halves (suc a) (suc a + 1),
          ap (bit_and (suc a / 2)) q,
          and_self (suc a / 2) (suc a / 2) (omega arith),
        ))
  | no odd ↦
      let q : (suc a + 1) / 2 ≡ suc a / 2 + 1 = omega arith in
      let (k, p) =
        power_of_two n (suc a / 2) (omega arith)
          (omega (arith, bit_and-halves (suc a) (suc a + 1), ap (bit_and (suc a / 2)) q)) in
      (suc k, omega (arith, p, pow-suc 2 k))
]
