-- ===== src/Dblock/Stratify/Shape.antt =====
-- Outlines: what an indented text means, the lines it has, and the pointers that represent it.
use tactyk.Base.{
  ℕ, suc, ◌+◌, ◌≤◌, ◌<◌, ◌≡◌, refl, ◌∙◌, arith, List, [], ◌∷◌, ◌++◌, Option, none, some, length,
  length-append,
}

-- The entries of one level in order, each with the entries below it, which are indented by
-- `suc width` more.
pub data Outline : Type 0 where
  nil : Outline
  entry : ℕ → Outline → Outline → Outline

-- the indentation of each line, top down
abbrev pub levels : ℕ → Outline → List ℕ
levels d nil = []
levels d (entry width kids rest) = d ∷ (levels (d + suc width) kids ++ levels d rest)

abbrev pub size : Outline → ℕ
size nil = 0
size (entry width kids rest) = suc (size kids + size rest)

-- No indentation is 256 or more.
abbrev pub Fits : ℕ → Outline → Type 0
Fits d nil = Unit
Fits d (entry width kids rest) = (d < 256) × Fits (d + suc width) kids × Fits d rest

-- the line where the outline starts whose lines are numbered from `n` on
abbrev pub first : ℕ → Outline → Option ℕ
first n nil = none
first n (entry width kids rest) = some n

-- The pointers represent the outline whose lines are numbered from `n` on.
abbrev pub Represents : (ℕ → Option ℕ) → (ℕ → Option ℕ) → ℕ → Outline → Type 0
Represents next child n nil = Unit
Represents next child n (entry width kids rest) =
    (child n ≡ first (suc n) kids)
    × (next n ≡ first (suc n + size kids) rest)
    × Represents next child (suc n) kids
    × Represents next child (suc n + size kids) rest

pub length-levels : (d : ℕ) (o : Outline) → length (levels d o) ≡ size o
length-levels d nil = refl
length-levels d (entry width kids rest) = omega (
  arith,
  length-append (levels (d + suc width) kids) (levels d rest),
  length-levels (d + suc width) kids,
  length-levels d rest,
)

-- The representation depends on the pointers of its own lines only.
pub Represents-frame :
    (next child next' child' : ℕ → Option ℕ) (n : ℕ) (o : Outline)
    → ((j : ℕ) → n ≤ j → j < n + size o → next' j ≡ next j)
    → ((j : ℕ) → n ≤ j → j < n + size o → child' j ≡ child j)
    → Represents next child n o
    → Represents next' child' n o
Represents-frame next child next' child' n nil f g r = tt
Represents-frame next child next' child' n (entry width kids rest) f g (c, x, k, r) = (
  g n (omega arith) (omega arith) ∙ c,
  f n (omega arith) (omega arith) ∙ x,
  Represents-frame next child next' child' (suc n) kids (λ j lo hi. f j (omega arith) (omega arith))
      (λ j lo hi. g j (omega arith) (omega arith)) k,
  Represents-frame next child next' child' (suc n + size kids) rest
      (λ j lo hi. f j (omega arith) (omega arith)) (λ j lo hi. g j (omega arith) (omega arith)) r,
)
