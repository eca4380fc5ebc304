-- ===== src/Dblock/Pool/Cull.antt =====
-- tactyk_dblock__cull releases exactly the blocks of a persistence code.
use tactyk.Base.{
  ℕ, zero, suc, ◌+◌, ◌≤◌, ◌<◌, ◌≡◌, inl, inr, refl, ap, ◌∙◌, subst, arith, Bool, false, ◌==◌,
  ==_iff, if◌then◌else◌, Bool-cases,
}
use tactyk.Dblock.Pool.{Node, zeroed, Pool, is_unused, clear_block, weak_dispose, cull_loop, cull}
use tactyk.Dblock.Pool.Inv.{Inv, weak_dispose-Inv, same_cell, other_cell}

abbrev marked : ℕ → Node → Bool
marked code n = n.header.persistence_code == code

weak_dispose_self : {p : Pool} (inv : Inv p) (i : ℕ) → (weak_dispose p i).cells i ≡ zeroed
unfolding weak_dispose clear_block
weak_dispose_self {p} inv i = elim (Bool-cases (is_unused (p.cells i))) [
  | inl unused ↦ rw unused (inv.clear i unused)
  | inr used ↦ rw used (same_cell p.cells i zeroed)
]

weak_dispose-other :
    (p : Pool) (i j : ℕ) → (i == j) ≡ false → (weak_dispose p i).cells j ≡ p.cells j
unfolding weak_dispose clear_block
weak_dispose-other p i j h = elim (Bool-cases (is_unused (p.cells i))) [
  | inl unused ↦ rw unused refl
  | inr used ↦ rw used (other_cell p.cells i j zeroed h)
]

weak_dispose-size : (p : Pool) (i : ℕ) → (weak_dispose p i).size ≡ p.size
unfolding weak_dispose clear_block
weak_dispose-size p i = elim (Bool-cases (is_unused (p.cells i))) [
  | inl unused ↦ rw unused refl
  | inr used ↦ rw used refl
]

-- one round of the loop
abbrev cull_at : ℕ → ℕ → Pool → Pool
cull_at code i p = if marked code (p.cells i) then weak_dispose p i else p

cull_at-Inv : (code i : ℕ) {p : Pool} (inv : Inv p) → Inv (cull_at code i p)
cull_at-Inv code i {p} inv = elim (Bool-cases (marked code (p.cells i))) [
  | inl hit ↦ rw hit (weak_dispose-Inv inv i)
  | inr miss ↦ rw miss inv
]

cull_at-size : (code i : ℕ) (p : Pool) → (cull_at code i p).size ≡ p.size
cull_at-size code i p = elim (Bool-cases (marked code (p.cells i))) [
  | inl hit ↦ rw hit (weak_dispose-size p i)
  | inr miss ↦ rw miss refl
]

cull_at_self :
    (code i : ℕ) {p : Pool} (inv : Inv p)
    → (cull_at code i p).cells i ≡ (if marked code (p.cells i) then zeroed else p.cells i)
cull_at_self code i {p} inv = elim (Bool-cases (marked code (p.cells i))) [
  | inl hit ↦ rw hit (weak_dispose_self inv i)
  | inr miss ↦ rw miss refl
]

cull_at-other :
    (code i j : ℕ) (p : Pool) → (i == j) ≡ false → (cull_at code i p).cells j ≡ p.cells j
cull_at-other code i j p h = elim (Bool-cases (marked code (p.cells i))) [
  | inl hit ↦ rw hit (weak_dispose-other p i j h)
  | inr miss ↦ rw miss refl
]

past : (i j : ℕ) → i ≤ j → (i == j) ≡ false → i + 1 ≤ j
past i j le h = ground arith

differ_below : (i j : ℕ) → j < i → (i == j) ≡ false
differ_below i j h = ground arith

differ_above : (i j n : ℕ) → i + suc n ≤ j → (i == j) ≡ false
differ_above i j n h = ground arith

-- What the loop over `n` blocks from `i` on leaves.
record IsCulled (code i n : ℕ) (p p' : Pool) : Type 0 where
  inv : Inv p'
  size : p'.size ≡ p.size
  inside :
      (j : ℕ)
      → i ≤ j
      → j < i + n
      → p'.cells j ≡ (if marked code (p.cells j) then zeroed else p.cells j)
  below : (j : ℕ) → j < i → p'.cells j ≡ p.cells j
  above : (j : ℕ) → i + n ≤ j → p'.cells j ≡ p.cells j

cull_loop-IsCulled :
    (code n i : ℕ) {p : Pool} (inv : Inv p) → IsCulled code i n p (cull_loop code n i p)
unfolding cull_loop
cull_loop-IsCulled code zero i inv = record {
  inv = inv;
  size = refl;
  inside = λ j lo hi. absurd (omega (arith, lo, hi));
  below = λ j h. refl;
  above = λ j h. refl;
}
cull_loop-IsCulled code (suc n) i {p} inv =
    let q = cull_at code i p in
    let r = cull_loop-IsCulled code n (i + 1) {p = q} (cull_at-Inv code i inv) in
    record {
      inv = r.inv;
      size = r.size ∙ cull_at-size code i p;
      inside = λ j lo hi. elim (Bool-cases (i == j)) [
        | inl same ↦
            subst
              (λ (k : ℕ).
                (cull_loop code n (i + 1) q).cells k
                ≡ (if marked code (p.cells k) then zeroed else p.cells k))
              ((==_iff i j).0 same) (r.below i (omega arith) ∙ cull_at_self code i inv)
        | inr other ↦
            r.inside j (past i j lo other) (omega (arith, hi))
            ∙ ap (λ (m : Node). if marked code m then zeroed else m)
                (cull_at-other code i j p other)
      ];
      below = λ j h. r.below j (omega (arith, h)) ∙ cull_at-other code i j p (differ_below i j h);
      above = λ j h. r.above j (omega (arith, h)) ∙ cull_at-other code i j p (differ_above i j n h);
    }

-- On a well-formed pool `cull` clears every block of the array that has the code, puts it back on
-- the stack, and changes no other block; the pool stays well-formed.
pub cull-exact :
    (code : ℕ) {p : Pool} (inv : Inv p)
    → Inv (cull code p)
      × ((i : ℕ)
          → i < p.size
          → (cull code p).cells i
            ≡ (if (p.cells i).header.persistence_code == code then zeroed else p.cells i))
      × ((i : ℕ) → p.size ≤ i → (cull code p).cells i ≡ p.cells i)
unfolding cull
cull-exact code {p} inv =
    let r = cull_loop-IsCulled code p.size 0 inv in
    (r.inv, λ i h. r.inside i (omega arith) (omega (arith, h)), λ i h. r.above i (omega (arith, h)))
