-- ===== src/Dblock/Pool/Shrunk.antt =====
-- Releasing blocks of the pool: what tactyk_dblock__dispose does to the pool on the way.
use mathlib.Core.Option.{none-ne-some}
use tactyk.Base.{ℕ, ◌≤◌, ◌<◌, ◌≡◌, ◌⊎◌, inl, inr, refl, sym, ap, ◌∙◌, arith, some}
use tactyk.Dblock.Pool.{Field, Node, zeroed, Pool}
use tactyk.Dblock.Pool.Inv.{Inv}

-- Block `j` was released: it is clear, and so is every block that it linked to.
abbrev pub Freed : Pool → Pool → ℕ → Type 0
Freed p p' j =
    (p'.cells j ≡ zeroed)
    × ((f : Field) (b : ℕ) → (p.cells j).link f ≡ some b → p'.cells b ≡ zeroed)

-- From `p` to `p'` blocks were released and nothing else happened, none of them of rank `bound` or
-- more.
pub record IsShrunk (rank : ℕ → ℕ) (bound : ℕ) (p p' : Pool) : Type 0 where
  pub inv : Inv p'
  pub cells : (j : ℕ) → (p'.cells j ≡ p.cells j) ⊎ Freed p p' j
  pub kept : (j : ℕ) → bound ≤ rank j → p'.cells j ≡ p.cells j

-- Links lead down in rank, so that no block links to itself over others.
abbrev pub Ranked : (ℕ → ℕ) → Pool → Type 0
Ranked rank p = (i : ℕ) (f : Field) (j : ℕ) → (p.cells i).link f ≡ some j → rank j < rank i

pub stays_clear :
    (p p' : Pool) (j : ℕ)
    → (p'.cells j ≡ p.cells j) ⊎ Freed p p' j
    → p.cells j ≡ zeroed
    → p'.cells j ≡ zeroed
stays_clear p p' j (inl e) z = e ∙ z
stays_clear p p' j (inr (z', links)) z = z'

pub IsShrunk-trans :
    {rank : ℕ → ℕ} {low high : ℕ} {p q r : Pool}
    → low ≤ high
    → IsShrunk rank low p q
    → IsShrunk rank high q r
    → IsShrunk rank high p r
IsShrunk-trans {p = p} {q} {r} le a b = record {
  inv = b.inv;
  cells = λ j. join j (a.cells j) (b.cells j);
  kept = λ j h. b.kept j h ∙ a.kept j (omega (arith, le, h));
}
  where
    join :
        (j : ℕ)
        → (q.cells j ≡ p.cells j) ⊎ Freed p q j
        → (r.cells j ≡ q.cells j) ⊎ Freed q r j
        → (r.cells j ≡ p.cells j) ⊎ Freed p r j
    join j (inl e) (inl e') = inl (e' ∙ e)
    join j (inl e) (inr (z, links)) =
        inr (z, λ f b' l. links f b' (ap (λ (n : Node). n.link f) e ∙ l))
    join j (inr (z, links)) (inl e') =
        inr (e' ∙ z, λ f b' l. stays_clear q r b' (b.cells b') (links f b' l))
    join j (inr (z, links)) (inr (z', links')) =
        inr (z', λ f b' l. stays_clear q r b' (b.cells b') (links f b' l))

pub Ranked-shrunk :
    {rank : ℕ → ℕ} {bound : ℕ} {p p' : Pool}
    → Ranked rank p
    → IsShrunk rank bound p p'
    → Ranked rank p'
Ranked-shrunk {rank = rank} {p = p} {p'} r s i f j l = go (s.cells i)
  where
    go : (p'.cells i ≡ p.cells i) ⊎ Freed p p' i → rank j < rank i
    go (inl e) = r i f j (ap (λ (n : Node). n.link f) (sym e) ∙ l)
    go (inr (z, links)) = absurd (none-ne-some _ (ap (λ (n : Node). n.link f) (sym z) ∙ l))

pub same-IsShrunk : {rank : ℕ → ℕ} {bound : ℕ} {p : Pool} → Inv p → IsShrunk rank bound p p
same-IsShrunk inv = record { inv = inv; cells = λ j. inl refl; kept = λ j h. refl }
