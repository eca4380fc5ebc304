-- ===== src/Util/Pow2/Least.antt =====
-- tactyk_util__next_pow2 gives the least power of two that is not below its argument.
use Prim.Native.Nat.{bit_and, bit_or}
use tactyk.Base.{
  ℕ, zero, suc, ◌+◌, ◌-◌, ◌*◌, ◌/◌, ◌%◌, ◌^◌, ◌≤◌, ◌<◌, ◌≡◌, ◌⊎◌, inl, inr, sym, ap, ◌∙◌, subst,
  arith, true, false, ◌==◌, ==_iff, Bool-cases,
}
use native.Mathlib.Nat.{div-div-eq-div-mul, pow-suc, pow-le-pow_right}
use native.Mathlib.Decide.{dec_le, dec_lt}
use tactyk.Base.Words.{add64, sub64}
use tactyk.Base.Bits.Or.{
  pow_pos, pow-add, bit_or-div, bit_or_ones, bit_or-lt, le-bit_or, power_of_two,
}
use tactyk.Util.Pow2.{smear, next_pow2}

-- Of the `k` binary digits of `v` the top `m` are set, or all.
Ones : ℕ → ℕ → ℕ → Type 0
Ones m k v = (v < 2 ^ k) × (((j : ℕ) × (k ≡ m + j) × (v / 2 ^ j ≡ 2 ^ m - 1)) ⊎ (v ≡ 2 ^ k - 1))

smear-lt : (m k v : ℕ) → v < 2 ^ k → smear m v < 2 ^ k
smear-lt m k v h = bit_or-lt k v (v / 2 ^ m) h (quotient (2 ^ m) (pow_pos m))
  where
    quotient : (p : ℕ) → 1 ≤ p → v / p < 2 ^ k
    quotient p pos = grind arith

product_ones : (p q r : ℕ) → 1 ≤ p → 1 ≤ q → r ≡ p * q → (p - 1) * q + (q - 1) ≡ r - 1
product_ones p q r a b e =
    let d : p ≡ p - 1 + 1 = omega arith in omega (arith, ap (λ (t : ℕ). t * q) d)

quotient_is : (p q v : ℕ) → 1 ≤ p → (q * p ≤ v) × (v < q * p + p) → v / p ≡ q
quotient_is p q v pos h = grind arith

bounds :
    (p q i : ℕ) {v : ℕ}
    → 1 ≤ p
    → 1 ≤ q
    → 1 ≤ i
    → p ≡ q * i
    → v / q ≡ p - 1
    → ((q - 1) * p ≤ v) × (v < (q - 1) * p + p)
bounds p q i {v} a b c e top =
    let le : q ≤ p = grind arith in
    let minus : p ≡ p - 1 + 1 = omega arith in
    let minus' : q ≡ q - 1 + 1 = omega arith in
    let whole : q * (v / q) + v % q ≡ v = grind arith in
    let below : v % q < q = grind arith in
    omega
      (arith, ap (λ (t : ℕ). q * t) top, ap (λ (t : ℕ). q * t) minus, ap (λ (t : ℕ). t * p) minus')

-- Digits remain below twice `m`.
smear_more : (m j v : ℕ) → v / 2 ^ (m + j) ≡ 2 ^ m - 1 → smear m v / 2 ^ j ≡ 2 ^ (m + m) - 1
smear_more m j v top =
    bit_or-div j v (v / 2 ^ m)
    ∙ ap (bit_or (v / 2 ^ j))
        (div-div-eq-div-mul v (2 ^ m) (2 ^ j) ∙ ap (λ (t : ℕ). v / t) (sym (pow-add m j)) ∙ top)
    ∙ bit_or_ones m (v / 2 ^ j)
    ∙ ap (λ (t : ℕ). t * 2 ^ m + (2 ^ m - 1)) high
    ∙ product_ones (2 ^ m) (2 ^ m) (2 ^ (m + m)) (pow_pos m) (pow_pos m) (pow-add m m)
  where
    high : v / 2 ^ j / 2 ^ m ≡ 2 ^ m - 1
    high =
        div-div-eq-div-mul v (2 ^ j) (2 ^ m)
        ∙ ap (λ (t : ℕ). v / t) (flip (2 ^ j) (2 ^ m) (2 ^ (m + j)) (pow-add m j))
        ∙ top
      where
        flip : (x y z : ℕ) → z ≡ y * x → x * y ≡ z
        flip x y z e = omega arith

-- At most as many digits remain as are set.
smear_last : (m i j v : ℕ) → m ≡ j + i → v / 2 ^ j ≡ 2 ^ m - 1 → smear m v ≡ 2 ^ (m + j) - 1
smear_last m i j v le top =
    ap (bit_or v) low
    ∙ bit_or_ones j v
    ∙ ap (λ (t : ℕ). t * 2 ^ j + (2 ^ j - 1)) top
    ∙ product_ones (2 ^ m) (2 ^ j) (2 ^ (m + j)) (pow_pos m) (pow_pos j) (pow-add m j)
  where
    low : v / 2 ^ m ≡ 2 ^ j - 1
    low = quotient_is (2 ^ m) (2 ^ j - 1) v (pow_pos m) (
        bounds (2 ^ m) (2 ^ j) (2 ^ i) (pow_pos m) (pow_pos j) (pow_pos i)
          (ap (λ (n : ℕ). 2 ^ n) le ∙ pow-add j i) top)

smear-Ones : (m k v : ℕ) → Ones m k v → Ones (m + m) k (smear m v)
unfolding Ones
smear-Ones m k v (lt, inr all) = (
  smear-lt m k v lt,
  inr (omega (arith, le-bit_or v v (v / 2 ^ m) (omega arith), smear-lt m k v lt)),
)
smear-Ones m k v (lt, inl (j, e, top)) = elim (dec_le m j) [
  | yes more ↦
      let d : j ≡ m + (j - m) = omega arith in
      (
        smear-lt m k v lt,
        inl (j - m, omega arith, smear_more m (j - m) v (subst (λ n. v / 2 ^ n ≡ 2 ^ m - 1) d top)),
      )
  | no few ↦ (
    smear-lt m k v lt,
    inr (smear_last m (m - j) j v (omega arith) top ∙ ap (λ (n : ℕ). 2 ^ n - 1) (sym e)),
  )
]

-- The place of the highest digit.
highest : (n v : ℕ) → 1 ≤ v → v < 2 ^ n → (k : ℕ) × (2 ^ k ≤ v) × (v < 2 ^ suc k) × (suc k ≤ n)
highest zero v p h = absurd (omega arith)
highest (suc n) v p h = elim (dec_lt v (2 ^ n)) [
  | yes less ↦ let (k, lo, hi, le) = highest n v p less in (k, lo, hi, omega arith)
  | no top ↦ (n, omega arith, h, omega arith)
]

first_digit : (k v : ℕ) → 2 ^ k ≤ v → v < 2 ^ suc k → Ones 1 (suc k) v
unfolding Ones
first_digit k v lo hi = (
  hi,
  inl (
    k,
    omega arith,
    quotient_is (2 ^ k) 1 v (pow_pos k) (omega arith, omega (arith, pow-suc 2 k)),
  ),
)

smeared : ℕ → ℕ
smeared v = smear 32 (smear 16 (smear 8 (smear 4 (smear 2 (smear 1 v)))))

value_full : (k w : ℕ) → k ≤ 64 → Ones 64 k w → w ≡ 2 ^ k - 1
unfolding Ones
value_full k w le (lt, inr all) = all
value_full k w le (lt, inl (zero, e, top)) =
    let f : k ≡ 64 = omega arith in omega (arith, top, ap (λ (n : ℕ). 2 ^ n) f)
value_full k w le (lt, inl (suc j, e, top)) = absurd (omega arith)

smeared_value : (k v : ℕ) → k ≤ 64 → Ones 1 k v → smeared v ≡ 2 ^ k - 1
unfolding smeared
smeared_value k v le h = value_full k _ le (
    smear-Ones 32 k _ (
      smear-Ones 16 k _
        (smear-Ones 8 k _ (smear-Ones 4 k _ (smear-Ones 2 k _ (smear-Ones 1 k v h))))))

pow_le : (k : ℕ) → k ≤ 63 → 2 ^ k ≤ 2 ^ 63
pow_le k h = pow-le-pow_right (omega arith) h

not_one : (val : ℕ) → (bit_and (sub64 val 1) val == 0) ≡ false → 1 ≤ val → 2 ≤ val
not_one zero e p = absurd (omega arith)
not_one (suc zero) e p = cc
not_one (suc (suc n)) e p = omega arith

module _ (val : ℕ) (p : 2 ≤ val) (h : val ≤ 2 ^ 63) where
  less_one : sub64 val 1 ≡ val - 1
  less_one = omega arith

  one_more : (k s : ℕ) → s ≡ 2 ^ k - 1 → k ≤ 63 → add64 s 1 ≡ 2 ^ k
  one_more k s e le = omega (arith, pow_le k le, pow_pos k)

  at_digit :
      (k : ℕ)
      → 2 ^ k ≤ val - 1
      → val - 1 < 2 ^ suc k
      → suc k ≤ 63
      → add64 (smeared (val - 1)) 1 ≡ 2 ^ suc k
  at_digit k lo hi le =
      one_more (suc k) (smeared (val - 1))
        (smeared_value (suc k) (val - 1) (omega arith) (first_digit k (val - 1) lo hi)) le

  -- The other case of the code: the argument is no power of two.
  least_above :
      (k : ℕ) × (add64 (smeared (sub64 val 1)) 1 ≡ 2 ^ k) × (val ≤ 2 ^ k) × (2 ^ k < 2 * val)
  least_above = pack (highest 63 (val - 1) (omega arith) (omega arith))
    where
      pack :
          (k : ℕ) × (2 ^ k ≤ val - 1) × (val - 1 < 2 ^ suc k) × (suc k ≤ 63)
          → (k : ℕ) × (add64 (smeared (sub64 val 1)) 1 ≡ 2 ^ k) × (val ≤ 2 ^ k) × (2 ^ k < 2 * val)
      pack (k, lo, hi, le) = (
        suc k,
        ap (λ (t : ℕ). add64 (smeared t) 1) less_one ∙ at_digit k lo hi le,
        omega arith,
        omega (arith, pow-suc 2 k),
      )

-- The argument is a power of two.
exact :
    (val : ℕ)
    → 1 ≤ val
    → val ≤ 2 ^ 63
    → (bit_and (sub64 val 1) val == 0) ≡ true
    → (k : ℕ) × (val ≡ 2 ^ k)
exact zero p h e = absurd (omega arith)
exact (suc v) p h e = pack (power_of_two v v (omega arith) mask)
  where
    v_is : sub64 (suc v) 1 ≡ v
    v_is = omega arith

    suc_is : v + 1 ≡ suc v
    suc_is = omega arith

    mask : bit_and v (v + 1) ≡ 0
    mask = ap (bit_and v) suc_is ∙ ap (λ (t : ℕ). bit_and t (suc v)) (sym v_is) ∙ (==_iff _ 0).0 e

    pack : (k : ℕ) × (v + 1 ≡ 2 ^ k) → (k : ℕ) × (suc v ≡ 2 ^ k)
    pack (k, eq) = (k, sym suc_is ∙ eq)

-- For an argument between 1 and 2 ^ 63 the result is a power of two, is not below the argument, and
-- is less than twice the argument; so it is the least such power.
pub next_pow2-least :
    (val : ℕ)
    → 1 ≤ val
    → val ≤ 2 ^ 63
    → (k : ℕ) × (next_pow2 val ≡ 2 ^ k) × (val ≤ next_pow2 val) × (next_pow2 val < 2 * val)
unfolding next_pow2 smeared
next_pow2-least val p h = elim (Bool-cases (bit_and (sub64 val 1) val == 0)) [
  | inl zero_mask ↦
      let (k, eq) = exact val p h zero_mask in
      (k, rw zero_mask eq, rw zero_mask (omega arith), rw zero_mask (omega arith))
  | inr mixed ↦ pack mixed (least_above val (not_one val mixed p) h)
]
  where
    pack :
        (bit_and (sub64 val 1) val == 0) ≡ false
        → (k : ℕ) × (add64 (smeared (sub64 val 1)) 1 ≡ 2 ^ k) × (val ≤ 2 ^ k) × (2 ^ k < 2 * val)
        → (k : ℕ) × (next_pow2 val ≡ 2 ^ k) × (val ≤ next_pow2 val) × (next_pow2 val < 2 * val)
    pack mixed (k, e, lo, hi) =
        let n : next_pow2 val ≡ 2 ^ k = rw mixed e in (k, n, omega (arith, n), omega (arith, n))
