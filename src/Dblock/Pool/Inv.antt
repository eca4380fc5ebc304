-- ===== src/Dblock/Pool/Inv.antt =====
-- The stack of the pool holds exactly the unused blocks of the array, each of them once.
use tactyk.Base.{
  ℕ, zero, suc, ◌≤◌, ◌<◌, ◌≡◌, inl, inr, refl, sym, ap, ◌∙◌, subst, arith, Bool, true, false, List,
  [], ◌∷◌, ltb, lt→ltb, ◌==◌, ==_iff, if◌then◌else◌, Bool-cases,
}
use tactyk.Dblock.Pool.{
  Node, zeroed, Pool, is_unused, write_cell, indices, init, clear_block, weak_dispose,
}

-- how often an address stands in a stack
abbrev pub count : ℕ → List ℕ → ℕ
count i [] = 0
count i (x ∷ xs) = if x == i then suc (count i xs) else count i xs

abbrev pub once_if : Bool → ℕ
once_if b = if b then 1 else 0

-- The stack has each unused block of the array once and nothing else, and unused blocks are clear.
pub record Inv (p : Pool) : Type 0 where
  pub stacked : (i : ℕ) → i < p.size → count i p.stack ≡ once_if (is_unused (p.cells i))
  pub array_only : (i : ℕ) → p.size ≤ i → count i p.stack ≡ 0
  pub clear : (i : ℕ) → is_unused (p.cells i) ≡ true → p.cells i ≡ zeroed

pub same_cell : (cells : ℕ → Node) (i : ℕ) (n : Node) → write_cell cells i n i ≡ n
same_cell cells i n = rw ((==_iff i i).1 refl) refl

pub other_cell :
    (cells : ℕ → Node) (i j : ℕ) (n : Node) → (i == j) ≡ false → write_cell cells i n j ≡ cells j
other_cell cells i j n h = rw h refl

indices-count : (n i : ℕ) → count i (indices n) ≡ once_if (ltb i n)
indices-count zero i = ground arith
indices-count (suc n) i = ground (arith, indices-count n i)

-- At the start all blocks are unused.
pub init-Inv : (size : ℕ) → Inv (init size)
unfolding init
init-Inv size = record {
  stacked = λ i h. indices-count size i ∙ ap once_if (lt→ltb i size h);
  array_only = λ i h. indices-count size i ∙ ground arith;
  clear = λ i e. refl;
}

clear_count :
    (i j size : ℕ) (s : List ℕ)
    → (i == j) ≡ false
    → count j (if ltb i size then i ∷ s else s) ≡ count j s
clear_count i j size s h = elim (Bool-cases (ltb i size)) [
  | inl inside ↦ rw (inside, h) refl
  | inr outside ↦ rw outside refl
]

cleared_stacked :
    {p : Pool} (inv : Inv p) (i j : ℕ)
    → is_unused (p.cells i) ≡ false
    → i ≡ j
    → j < p.size
    → count j (if ltb i p.size then i ∷ p.stack else p.stack)
      ≡ once_if (is_unused (write_cell p.cells i zeroed j))
cleared_stacked {p} inv i j used e h =
    subst
      (λ (k : ℕ).
        count k (if ltb i p.size then i ∷ p.stack else p.stack)
        ≡ once_if (is_unused (write_cell p.cells i zeroed k)))
      e at_i
  where
    inside : i < p.size
    inside = omega (arith, e, h)

    at_i :
        count i (if ltb i p.size then i ∷ p.stack else p.stack)
        ≡ once_if (is_unused (write_cell p.cells i zeroed i))
    at_i =
        rw (lt→ltb i p.size inside, (==_iff i i).1 refl)
          (ap suc (inv.stacked i inside ∙ rw used refl))

cleared_outside :
    {p : Pool} (inv : Inv p) (i j : ℕ)
    → i ≡ j
    → p.size ≤ j
    → count j (if ltb i p.size then i ∷ p.stack else p.stack) ≡ 0
cleared_outside {p} inv i j e h = rw (not_below i p.size (omega (arith, e, h))) (inv.array_only j h)
  where
    not_below : (a b : ℕ) → b ≤ a → ltb a b ≡ false
    not_below a b le = ground arith

-- Clearing a block that is in use keeps the invariant.
pub clear_block-Inv :
    {p : Pool} (inv : Inv p) (i : ℕ) → is_unused (p.cells i) ≡ false → Inv (clear_block p i)
unfolding clear_block
clear_block-Inv {p} inv i used = record {
  stacked = λ j h. elim (Bool-cases (i == j)) [
    | inl same ↦ cleared_stacked inv i j used ((==_iff i j).0 same) h
    | inr other ↦
        clear_count i j p.size p.stack other
        ∙ inv.stacked j h
        ∙ ap (λ n. once_if (is_unused n)) (sym (other_cell p.cells i j zeroed other))
  ];
  array_only = λ j h. elim (Bool-cases (i == j)) [
    | inl same ↦ cleared_outside inv i j ((==_iff i j).0 same) h
    | inr other ↦ clear_count i j p.size p.stack other ∙ inv.array_only j h
  ];
  clear = λ j e. elim (Bool-cases (i == j)) [
    | inl same ↦ rw same refl
    | inr other ↦
        rw other (inv.clear j (sym (ap is_unused (other_cell p.cells i j zeroed other)) ∙ e))
  ];
}

-- Disposing a block of its own, used or not, keeps the invariant.
pub weak_dispose-Inv : {p : Pool} (inv : Inv p) (i : ℕ) → Inv (weak_dispose p i)
unfolding weak_dispose
weak_dispose-Inv {p} inv i = elim (Bool-cases (is_unused (p.cells i))) [
  | inl unused ↦ rw unused inv
  | inr used ↦ rw used (clear_block-Inv inv i used)
]
