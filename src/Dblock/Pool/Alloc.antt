-- ===== src/Dblock/Pool/Alloc.antt =====
-- tactyk_dblock__alloc takes an unused block of the array, and fails only when there is none.
use mathlib.Core.Bool.{false≢true}
use tactyk.Base.{
  ℕ, suc, ◌≤◌, ◌<◌, ◌≡◌, ◌⊎◌, inl, inr, refl, sym, ap, ◌∙◌, subst, arith, Bool, true, false, List,
  [], ◌∷◌, none, some, ltb, ltb→lt, ◌==◌, ==_iff, Bool-cases,
}
use tactyk.Dblock.Block.{BlockType}
use tactyk.Dblock.Pool.{Node, zeroed, Pool, is_unused, write_cell, alloc}
use tactyk.Dblock.Pool.Inv.{Inv, count, once_if, same_cell, other_cell}

-- Block `i` was taken from `p`.
pub record IsTaken (p : Pool) (i : ℕ) (p' : Pool) : Type 0 where
  pub inv : Inv p'
  pub inside : i < p.size
  pub was_clear : p.cells i ≡ zeroed
  pub used : is_unused (p'.cells i) ≡ false
  pub others : (j : ℕ) → (i == j) ≡ false → p'.cells j ≡ p.cells j

head_inside : {p : Pool} (inv : Inv p) (i : ℕ) (rest : List ℕ) → p.stack ≡ i ∷ rest → i < p.size
head_inside {p} inv i rest e = elim (Bool-cases (ltb i p.size)) [
  | inl below ↦ ltb→lt i p.size below
  | inr not_below ↦
      absurd (omega (arith, sym (inv.array_only i (above i p.size not_below)) ∙ counted))
]
  where
    above : (a b : ℕ) → ltb a b ≡ false → b ≤ a
    above a b h = ground arith

    counted : count i p.stack ≡ suc (count i rest)
    counted = rw e (rw ((==_iff i i).1 refl) refl)

once : (b : Bool) (n : ℕ) → suc n ≡ once_if b → (b ≡ true) × (n ≡ 0)
once true n e = (refl, omega (arith, e))
once false n e = absurd (omega (arith, e))

head_unused :
    {p : Pool} (inv : Inv p) (i : ℕ) (rest : List ℕ)
    → p.stack ≡ i ∷ rest
    → (is_unused (p.cells i) ≡ true) × (count i rest ≡ 0)
head_unused {p} inv i rest e =
    once (is_unused (p.cells i)) (count i rest)
      (sym counted ∙ inv.stacked i (head_inside inv i rest e))
  where
    counted : count i p.stack ≡ suc (count i rest)
    counted = rw e (rw ((==_iff i i).1 refl) refl)

tail_count :
    (p : Pool) (i j : ℕ) (rest : List ℕ)
    → p.stack ≡ i ∷ rest
    → (i == j) ≡ false
    → count j rest ≡ count j p.stack
tail_count p i j rest e h = rw e (rw h refl)

-- the block as it is handed out
abbrev taken : Node → Node
taken n = record n { header = record (n.header) { type = BlockType.unspecified } }

taken-IsTaken :
    {p : Pool} (inv : Inv p) (i : ℕ) (rest : List ℕ)
    → p.stack ≡ i ∷ rest
    → IsTaken p i (record p { cells = write_cell p.cells i (taken (p.cells i)); stack = rest })
taken-IsTaken {p} inv i rest e =
    let (unused, gone) = head_unused inv i rest e in
    let self = same_cell p.cells i (taken (p.cells i)) in
    record {
      inv = record {
        stacked = λ j h. elim (Bool-cases (i == j)) [
          | inl same ↦
              subst
                (λ (k : ℕ).
                  count k rest ≡ once_if (is_unused (write_cell p.cells i (taken (p.cells i)) k)))
                ((==_iff i j).0 same) (gone ∙ ap (λ (n : Node). once_if (is_unused n)) (sym self))
          | inr other ↦
              tail_count p i j rest e other
              ∙ inv.stacked j h
              ∙ ap (λ (n : Node). once_if (is_unused n))
                  (sym (other_cell p.cells i j (taken (p.cells i)) other))
        ];
        array_only = λ j h.
            tail_count p i j rest e (above i j p.size (head_inside inv i rest e) h)
            ∙ inv.array_only j h;
        clear = λ j u. elim (Bool-cases (i == j)) [
          | inl same ↦
              let w : write_cell p.cells i (taken (p.cells i)) j ≡ taken (p.cells i) =
                rw same refl in
              absurd (false≢true (ap is_unused (sym w) ∙ u))
          | inr other ↦
              other_cell p.cells i j (taken (p.cells i)) other
              ∙ inv.clear j
                  (ap is_unused (sym (other_cell p.cells i j (taken (p.cells i)) other)) ∙ u)
        ];
      };
      inside = head_inside inv i rest e;
      was_clear = inv.clear i unused;
      used = ap is_unused self;
      others = λ j h. other_cell p.cells i j (taken (p.cells i)) h;
    }
  where
    above : (a b n : ℕ) → a < n → n ≤ b → (a == b) ≡ false
    above a b n lo hi = ground arith

-- On a well-formed pool `alloc` fails if every block of the array is in use, and otherwise hands out
-- one that was unused and clear, which is in use from then on; no other block changes, and the pool
-- stays well-formed.
pub alloc-IsTaken :
    {p : Pool} (inv : Inv p)
    → ((alloc p ≡ none) × ((i : ℕ) → i < p.size → is_unused (p.cells i) ≡ false))
      ⊎ ((i : ℕ) × (p' : Pool) × (alloc p ≡ some (i, p')) × IsTaken p i p')
unfolding alloc
alloc-IsTaken {p} inv = go p.stack refl
  where
    no_block : (b : Bool) → 0 ≡ once_if b → b ≡ false
    no_block b e = ground arith

    go :
        (s : List ℕ)
        → p.stack ≡ s
        → ((alloc p ≡ none) × ((i : ℕ) → i < p.size → is_unused (p.cells i) ≡ false))
          ⊎ ((i : ℕ) × (p' : Pool) × (alloc p ≡ some (i, p')) × IsTaken p i p')
    go [] e = inl (
      rw e refl,
      λ i h. no_block (is_unused (p.cells i)) (ap (count i) (sym e) ∙ inv.stacked i h),
    )
    go (i ∷ rest) e = inr (i, _, rw e refl, taken-IsTaken inv i rest e)
