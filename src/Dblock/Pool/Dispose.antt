-- ===== src/Dblock/Pool/Dispose.antt =====
-- tactyk_dblock__dispose releases a block with all that it links to.
use mathlib.Core.Option
use mathlib.Core.Option.{none-ne-some, some-injective}
use tactyk.Base.{
  ℕ, zero, suc, ◌≤◌, ◌<◌, ◌≡◌, ◌⊎◌, inl, inr, refl, sym, ap, ◌∙◌, subst, arith, false, List, [],
  ◌∷◌, Option, none, some, ◌==◌, ==_iff, Bool-cases,
}
use tactyk.Dblock.Pool.{
  Field, child, next, token, store, Node, zeroed, Pool, is_unused, write_cell, clear_block,
  dispose_links, dispose,
}
use tactyk.Dblock.Pool.Inv.{Inv, clear_block-Inv, same_cell, other_cell}
use tactyk.Dblock.Pool.Shrunk.{
  Freed, IsShrunk, Ranked, stays_clear, IsShrunk-trans, Ranked-shrunk, same-IsShrunk,
}

-- What the fields of a block link to is clear.
abbrev AllClear : Node → Pool → List Field → Type 0
AllClear n p [] = Unit
AllClear n p (f ∷ fs) = ((b : ℕ) → n.link f ≡ some b → p.cells b ≡ zeroed) × AllClear n p fs

every_field :
    (n : Node) (p : Pool)
    → AllClear n p (child ∷ next ∷ token ∷ store ∷ [])
    → (f : Field) (b : ℕ) → n.link f ≡ some b
    → p.cells b ≡ zeroed
every_field n p a child = a.0
every_field n p a next = a.1.0
every_field n p a token = a.1.1.0
every_field n p a store = a.1.1.1.0

-- A way to dispose of what a pointer leads to, if that has a rank below `bound`.
abbrev Disposes : (ℕ → ℕ) → ℕ → (Pool → Option ℕ → Option Pool) → Type 0
Disposes rank bound go =
    (p : Pool) (ptr : Option ℕ)
    → Inv p
    → Ranked rank p
    → ((i : ℕ) → ptr ≡ some i → rank i < bound)
    → (p' : Pool) × (go p ptr ≡ some p')
      × IsShrunk rank bound p p'
      × ((i : ℕ) → ptr ≡ some i → p'.cells i ≡ zeroed)

dispose_links-IsShrunk :
    {rank : ℕ → ℕ} {go : Pool → Option ℕ → Option Pool} (i : ℕ)
    → Disposes rank (rank i) go
    → (fs : List Field) (p : Pool) → Inv p
    → Ranked rank p
    → (p' : Pool) × (dispose_links go i fs p ≡ some p')
      × IsShrunk rank (rank i) p p'
      × AllClear (p.cells i) p' fs
unfolding dispose_links Option.bind
dispose_links-IsShrunk i d [] p inv r = (p, refl, same-IsShrunk inv, tt)
dispose_links-IsShrunk {rank} {go} i d (f ∷ fs) p inv r =
    let (q, e, s, z) = d p ((p.cells i).link f) inv r (r i f) in
    let (p', e', s', all) = dispose_links-IsShrunk i d fs q s.inv (Ranked-shrunk r s) in
    (
      p',
      rw e e',
      IsShrunk-trans (omega arith) s s',
      (
        λ b l. stays_clear q p' b (s'.cells b) (z b l),
        subst (λ (n : Node). AllClear n p' fs) (s.kept i (omega arith)) all,
      ),
    )

clear_block-IsShrunk :
    {rank : ℕ → ℕ} {bound : ℕ} {p : Pool} (inv : Inv p) (i : ℕ)
    → is_unused (p.cells i) ≡ false
    → rank i < bound
    → AllClear (p.cells i) p (child ∷ next ∷ token ∷ store ∷ [])
    → IsShrunk rank bound p (clear_block p i)
unfolding clear_block
clear_block-IsShrunk {rank} {bound} {p} inv i used low all = record {
  inv = clear_block-Inv inv i used;
  cells = λ j. elim (Bool-cases (i == j)) [
    | inl same ↦
        subst (λ (k : ℕ). (write_cell p.cells i zeroed k ≡ p.cells k) ⊎ Freed p (clear_block p i) k)
          ((==_iff i j).0 same)
          (inr (
            same_cell p.cells i zeroed,
            λ f b l. still_clear b (every_field (p.cells i) p all f b l),
          ))
    | inr other ↦ inl (other_cell p.cells i j zeroed other)
  ];
  kept = λ j h. other_cell p.cells i j zeroed (differ j h);
}
  where
    still_clear : (b : ℕ) → p.cells b ≡ zeroed → write_cell p.cells i zeroed b ≡ zeroed
    still_clear b z = elim (Bool-cases (i == b)) [
      | inl same ↦ rw same refl
      | inr other ↦ other_cell p.cells i b zeroed other ∙ z
    ]

    differ : (j : ℕ) → bound ≤ rank j → (i == j) ≡ false
    differ j h = elim (Bool-cases (i == j)) [
      | inl same ↦ absurd (omega (arith, h, low, ap rank ((==_iff i j).0 same)))
      | inr other ↦ other
    ]

clear_block_self : (p : Pool) (i : ℕ) → (clear_block p i).cells i ≡ zeroed
unfolding clear_block
clear_block_self p i = same_cell p.cells i zeroed

dispose-Disposes :
    {rank : ℕ → ℕ} (fuel bound : ℕ) → bound ≤ fuel → Disposes rank bound (dispose fuel)
unfolding dispose
dispose-Disposes fuel bound h p none inv r low =
    (p, refl, same-IsShrunk inv, λ i e. absurd (none-ne-some _ e))
dispose-Disposes zero bound h p (some i) inv r low = absurd (omega (arith, low i refl, h))
dispose-Disposes {rank} (suc fuel) bound h p (some i) inv r low =
    elim (Bool-cases (is_unused (p.cells i))) [
      | inl unused ↦
          (p, rw unused refl, same-IsShrunk inv, λ j e. at_pointer p j e (inv.clear i unused))
      | inr used ↦
          let below : rank i < bound = low i refl in
          let d : Disposes rank (rank i) (dispose fuel) =
            dispose-Disposes {rank = rank} fuel (rank i) (omega (arith, below, h)) in
          let (q, e, s, all) =
            dispose_links-IsShrunk {rank = rank} {go = dispose fuel} i d
              (child ∷ next ∷ token ∷ store ∷ []) p inv r in
          let same : q.cells i ≡ p.cells i = s.kept i (omega arith) in
          (
            clear_block q i,
            rw used (rw e refl),
            IsShrunk-trans (omega (arith, below)) s (
                clear_block-IsShrunk s.inv i (ap is_unused same ∙ used) below (
                  subst (λ (n : Node). AllClear n q (child ∷ next ∷ token ∷ store ∷ [])) (sym same)
                    all)),
            λ j e. at_pointer (clear_block q i) j e (clear_block_self q i),
          )
    ]
  where
    at_pointer : (q : Pool) (j : ℕ) → some i ≡ some j → q.cells i ≡ zeroed → q.cells j ≡ zeroed
    at_pointer q j e z = subst (λ (k : ℕ). q.cells k ≡ zeroed) (some-injective _ _ e) z

-- Block `j` is linked to from `i`, over any number of blocks.
pub data Reaches (p : Pool) : ℕ → ℕ → Type 0 where
  here : {i : ℕ} → Reaches p i i
  step : {i j : ℕ} (f : Field) (b : ℕ) → (p.cells i).link f ≡ some b → Reaches p b j → Reaches p i j

reached_clear :
    (p p' : Pool)
    → ((j : ℕ) → (p'.cells j ≡ p.cells j) ⊎ Freed p p' j)
    → {i j : ℕ} → Reaches p i j
    → p'.cells i ≡ zeroed
    → p'.cells j ≡ zeroed
reached_clear p p' cells here z = z
reached_clear p p' cells {i} (step f b l w) z = reached_clear p p' cells w (go (cells i))
  where
    go : (p'.cells i ≡ p.cells i) ⊎ Freed p p' i → p'.cells b ≡ zeroed
    go (inl e) = absurd (none-ne-some _ (ap (λ (n : Node). n.link f) (sym (sym e ∙ z)) ∙ l))
    go (inr (y, links)) = links f b l

-- On a well-formed pool whose links run in no circle (each leads to a block of a smaller rank)
-- `dispose` of a block returns, with a depth of calls above the rank of the block; the block and all
-- that it reaches are clear then, every block is clear or as it was, those that were not reached and
-- rank above the block are as they were, and the pool stays well-formed.
pub dispose-frees :
    {rank : ℕ → ℕ} (fuel : ℕ) {p : Pool} (inv : Inv p) (r : Ranked rank p) (i : ℕ)
    → rank i < fuel
    → (p' : Pool) × (dispose fuel p (some i) ≡ some p')
      × Inv p'
      × ((j : ℕ) → Reaches p i j → p'.cells j ≡ zeroed)
      × ((j : ℕ) → (p'.cells j ≡ p.cells j) ⊎ (p'.cells j ≡ zeroed))
      × ((j : ℕ) → rank i < rank j → p'.cells j ≡ p.cells j)
dispose-frees {rank} fuel {p} inv r i h =
    let (p', e, s, z) =
      dispose-Disposes fuel (suc (rank i)) (omega (arith, h)) p (some i) inv r
        (λ j e. omega (arith, ap rank (some-injective _ _ e))) in
    (
      p',
      e,
      s.inv,
      λ j w. reached_clear p p' s.cells w (z i refl),
      λ j. either p' j (s.cells j),
      λ j a. s.kept j (omega (arith, a)),
    )
  where
    either :
        (q : Pool) (j : ℕ)
        → (q.cells j ≡ p.cells j) ⊎ Freed p q j
        → (q.cells j ≡ p.cells j) ⊎ (q.cells j ≡ zeroed)
    either q j (inl e) = inl e
    either q j (inr (y, links)) = inr y
