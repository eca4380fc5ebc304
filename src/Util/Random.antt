-- ===== src/Util/Random.antt =====
-- tactyk_util__rand_range, libtactyk/tactyk_util.c: a number below a bound from 64-bit draws.
-- The source of the draws is a parameter: `draws` is what tactyk__rand_uint64 returns in turn, and a
-- result `none` is a division by 0 or the end of the draws.
use native.Mathlib.Nat.{mod-lt, lt-div-mul-add}
use tactyk.Base.{
  ℕ, suc, ◌+◌, ◌-◌, ◌*◌, ◌/◌, ◌%◌, ◌^◌, ◌≤◌, ◌<◌, ◌≡◌, inl, inr, refl, arith, false, List, [], ◌∷◌,
  Option, none, some, leb, ltb, ◌==◌, if◌then◌else◌, Bool-cases,
}

-- the loop: draws above the limit are thrown away
unfoldable pub rand_loop : ℕ → ℕ → List ℕ → Option (ℕ × List ℕ)
rand_loop range max_rnd [] = none
rand_loop range max_rnd (result ∷ draws) =
    let again = rand_loop range max_rnd draws in
    if leb result max_rnd then some (result % range, draws) else again

unfoldable pub rand_range : ℕ → List ℕ → Option (ℕ × List ℕ)
rand_range range draws =
    if range == 0 then none else rand_loop range ((2 ^ 64 - 1) / range * range) draws

-- How many draws are below 2 ^ 63: those are accepted for every range up to 2 ^ 63.
unfoldable pub small_draws : List ℕ → ℕ
small_draws [] = 0
small_draws (d ∷ draws) = let more = small_draws draws in if ltb d (2 ^ 63) then suc more else more

limit-large : (range : ℕ) → 1 ≤ range → range ≤ 2 ^ 63 → 2 ^ 63 ≤ (2 ^ 64 - 1) / range * range + 1
limit-large range pos h = omega (arith, lt-div-mul-add {a = 2 ^ 64 - 1} {b = range} (omega arith))

small_draws-cons : (d : ℕ) (draws : List ℕ) → small_draws (d ∷ draws) ≤ suc (small_draws draws)
unfolding small_draws
small_draws-cons d draws = elim (Bool-cases (ltb d (2 ^ 63))) [
  | inl small ↦ rw (small) (omega arith)
  | inr large ↦ rw (large) (omega arith)
]

small_draws-large :
    (d : ℕ) (draws : List ℕ) → 2 ^ 63 ≤ d → small_draws (d ∷ draws) ≡ small_draws draws
unfolding small_draws
small_draws-large d draws h = rw (not_small) refl
  where
    not_small : ltb d (2 ^ 63) ≡ false
    not_small = ground arith

small_draws-nil : (k : ℕ) → suc k ≤ small_draws [] → ⊥
unfolding small_draws
small_draws-nil k h = omega arith

rand_loop-IsBelow :
    (range max_rnd k : ℕ) (draws : List ℕ)
    → 1 ≤ range
    → 2 ^ 63 ≤ max_rnd + 1
    → suc k ≤ small_draws draws
    → (r : ℕ) × (rest : List ℕ) × (rand_loop range max_rnd draws ≡ some (r, rest))
      × (r < range)
      × (k ≤ small_draws rest)
unfolding rand_loop
rand_loop-IsBelow range max_rnd k [] pos large enough = absurd (small_draws-nil k enough)
rand_loop-IsBelow range max_rnd k (d ∷ draws) pos large enough = elim (Bool-cases (leb d max_rnd)) [
  | inl taken ↦ (
    d % range,
    draws,
    rw (taken) refl,
    mod-lt d (omega arith),
    omega (arith, small_draws-cons d draws),
  )
  | inr refused ↦
      let (r, rest, e, below, more) =
        rand_loop-IsBelow range max_rnd k draws pos large
          (omega (arith, small_draws-large d draws (above refused))) in
      (r, rest, rw (refused) e, below, more)
]
  where
    above : leb d max_rnd ≡ false → 2 ^ 63 ≤ d
    above e = ground arith

-- A draw below 2 ^ 63 is enough for a range from 1 to 2 ^ 63.
pub rand_range-IsBelow :
    (range k : ℕ) (draws : List ℕ)
    → 1 ≤ range
    → range ≤ 2 ^ 63
    → suc k ≤ small_draws draws
    → (r : ℕ) × (rest : List ℕ) × (rand_range range draws ≡ some (r, rest))
      × (r < range)
      × (k ≤ small_draws rest)
unfolding rand_range
rand_range-IsBelow range k draws pos fits enough =
    let (r, rest, e, below, more) =
      rand_loop-IsBelow range ((2 ^ 64 - 1) / range * range) k draws pos
        (limit-large range pos fits) enough in
    (r, rest, rw (not_zero) e, below, more)
  where
    not_zero : (range == 0) ≡ false
    not_zero = ground arith
