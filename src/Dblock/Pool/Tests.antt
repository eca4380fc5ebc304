-- ===== src/Dblock/Pool/Tests.antt =====
-- A small pool: runs of its operations, and the theorems at it.
use mathlib.Core.Option
use mathlib.Core.Option.{none-ne-some, some-injective}
use mathlib.Core.Bool.{false≢true}
use tactyk.Base.{
  ℕ, zero, suc, ◌≤◌, ◌<◌, ◌≡◌, ◌⊎◌, refl, subst, arith, true, false, [], ◌∷◌, Option, none, some,
  ◌==◌, if◌then◌else◌,
}
use tactyk.Dblock.Block.{BlockType}
use tactyk.Dblock.Pool.{
  Field, child, next, token, store, Node, zeroed, Pool, is_unused, alloc, clear_block, weak_dispose,
  dispose_links, dispose, cull_loop, cull,
}
use tactyk.Dblock.Pool.Inv.{Inv, count, once_if, weak_dispose-Inv}
use tactyk.Dblock.Pool.Alloc.{IsTaken, alloc-IsTaken}
use tactyk.Dblock.Pool.Cull.{cull-exact}
use tactyk.Dblock.Pool.Shrunk.{Ranked}
use tactyk.Dblock.Pool.Dispose.{Reaches, dispose-frees}

-- a block in use with a persistence code
abbrev used_block : ℕ → (Field → Option ℕ) → Node
used_block code links = record {
  header = record (zeroed.header) { type = BlockType.string; persistence_code = code };
  link = links;
}

abbrev root_links : Field → Option ℕ
root_links child = some 1
root_links next = none
root_links token = none
root_links store = none

-- Block 0 has block 1 as its child; block 2 is unused.
abbrev small_cells : ℕ → Node
small_cells zero = used_block 5 root_links
small_cells (suc zero) = used_block 7 (λ f. none)
small_cells (suc (suc i)) = zeroed

abbrev small : Pool
small = record { size = 3; cells = small_cells; stack = 2 ∷ [] }

small-Inv : Inv small
small-Inv = record { stacked = stacked; array_only = λ i h. ground arith; clear = clear }
  where
    stacked : (i : ℕ) → i < 3 → count i (2 ∷ []) ≡ once_if (is_unused (small_cells i))
    stacked zero h = refl
    stacked (suc zero) h = refl
    stacked (suc (suc zero)) h = refl
    stacked (suc (suc (suc i))) h = absurd (omega arith)

    clear : (i : ℕ) → is_unused (small_cells i) ≡ true → small_cells i ≡ zeroed
    clear zero e = absurd (false≢true e)
    clear (suc zero) e = absurd (false≢true e)
    clear (suc (suc i)) e = refl

abbrev small_rank : ℕ → ℕ
small_rank zero = 2
small_rank (suc zero) = 1
small_rank (suc (suc i)) = 0

small-Ranked : Ranked small_rank small
small-Ranked zero child j e =
    subst (λ (k : ℕ). small_rank k < 2) (some-injective _ _ e) (omega arith)
small-Ranked zero next j e = absurd (none-ne-some _ e)
small-Ranked zero token j e = absurd (none-ne-some _ e)
small-Ranked zero store j e = absurd (none-ne-some _ e)
small-Ranked (suc zero) f j e = absurd (none-ne-some _ e)
small-Ranked (suc (suc i)) f j e = absurd (none-ne-some _ e)

-- The stack after disposing of the root, and after culling by code 7.
stacks :
    (Option.map (λ p. p.stack) (dispose 3 small (some 0)) ≡ some (0 ∷ 1 ∷ 2 ∷ []))
    × ((cull 7 small).stack ≡ 1 ∷ 2 ∷ [])
unfolding dispose dispose_links clear_block Option.bind cull cull_loop weak_dispose
stacks = (refl, refl)

dispose-frees_example :
    (p' : Pool) × (dispose 3 small (some 0) ≡ some p')
    × Inv p'
    × ((j : ℕ) → Reaches small 0 j → p'.cells j ≡ zeroed)
    × ((j : ℕ) → (p'.cells j ≡ small.cells j) ⊎ (p'.cells j ≡ zeroed))
    × ((j : ℕ) → small_rank 0 < small_rank j → p'.cells j ≡ small.cells j)
dispose-frees_example =
    dispose-frees {rank = small_rank} 3 {p = small} small-Inv small-Ranked 0 (omega arith)

cull-exact_example :
    Inv (cull 7 small)
    × ((i : ℕ)
        → i < small.size
        → (cull 7 small).cells i
          ≡ (if (small.cells i).header.persistence_code == 7 then zeroed else small.cells i))
    × ((i : ℕ) → small.size ≤ i → (cull 7 small).cells i ≡ small.cells i)
cull-exact_example = cull-exact 7 {p = small} small-Inv

alloc-IsTaken_example :
    ((alloc small ≡ none) × ((i : ℕ) → i < small.size → is_unused (small.cells i) ≡ false))
    ⊎ ((i : ℕ) × (p' : Pool) × (alloc small ≡ some (i, p')) × IsTaken small i p')
alloc-IsTaken_example = alloc-IsTaken {p = small} small-Inv

weak_dispose-Inv_example : Inv (weak_dispose small 1)
weak_dispose-Inv_example = weak_dispose-Inv {p = small} small-Inv 1
