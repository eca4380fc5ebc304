-- ===== src/Dblock/Pool.antt =====
-- The pool of blocks of libtactyk/tactyk_dblock.c: tactyk_dblock__init, alloc, dispose, weak_dispose
-- and cull on the array `dblocks` and the stack of the unused ones.
-- An address is a number: one below `size` is an index of the array, any other a block elsewhere.
pub mod Inv
pub mod Alloc
pub mod Cull
pub mod Shrunk
pub mod Dispose
mod Tests
use mathlib.Core.Option
use tactyk.Base.{
  ℕ, zero, suc, ◌+◌, ◌-◌, Bool, true, false, List, [], ◌∷◌, Option, none, some, ltb, ◌==◌,
  if◌then◌else◌,
}
use tactyk.Dblock.Block.{BlockType, Block}

-- The pointers from a block to others.
pub data Field : Type 0 where
  child : Field
  next : Field
  token : Field
  store : Field

-- a block in memory, NULL pointers as `none`
pub record Node : Type 0 where
  pub header : Block
  pub link : Field → Option ℕ

-- memset to 0
abbrev pub zeroed : Node
zeroed = record {
  header = record {
    type = BlockType.none;
    length = 0;
    stride = 0;
    element_capacity = 0;
    element_count = 0;
    capacity = 0;
    hashcode = 0;
    bytes = List.[];
    persistence_code = 0;
    fixed = false;
    self_managed = false;
  };
  link = λ f. none;
}

-- DBLOCKS_CAPACITY, the blocks by address, and dblocks_stack from dblocks_stack_idx down
pub record Pool : Type 0 where
  pub size : ℕ
  pub cells : ℕ → Node
  pub stack : List ℕ

abbrev pub is_unused : Node → Bool
is_unused node = elim node.header.type [ BlockType.none ↦ true | _ ↦ false ]

abbrev pub write_cell : (ℕ → Node) → ℕ → Node → ℕ → Node
write_cell cells i node j = if i == j then node else cells j

abbrev pub indices : ℕ → List ℕ
indices zero = []
indices (suc n) = n ∷ indices n

-- all of `dblocks`, which is static memory, on the stack, the last on top
unfoldable pub init : ℕ → Pool
init size = record { size = size; cells = λ i. zeroed; stack = indices size }

-- `none` where the stack is empty: the error of an exceeded capacity
unfoldable pub alloc : Pool → Option (ℕ × Pool)
alloc pool = elim pool.stack [
  | [] ↦ none
  | i ∷ rest ↦
      let node = pool.cells i in
      some (
        i,
        record pool {
          cells =
              write_cell pool.cells i
                (record node { header = record (node.header) { type = BlockType.unspecified } });
          stack = rest;
        },
      )
]

-- The end of both dispose functions: clear the block and, if it is in the array, push it.
unfoldable pub clear_block : Pool → ℕ → Pool
clear_block pool i = record pool {
  cells = write_cell pool.cells i zeroed;
  stack = if ltb i pool.size then i ∷ pool.stack else pool.stack;
}

unfoldable pub weak_dispose : Pool → ℕ → Pool
weak_dispose pool i = if is_unused (pool.cells i) then pool else clear_block pool i

-- The pointers of block `i` in turn, each read when its turn comes.
unfoldable pub dispose_links : (Pool → Option ℕ → Option Pool) → ℕ → List Field → Pool → Option Pool
dispose_links go i [] pool = some pool
dispose_links go i (f ∷ fs) pool =
    Option.bind (go pool ((pool.cells i).link f)) (λ p. dispose_links go i fs p)

-- The fuel bounds the depth: blocks that link in a circle are disposed without end.
unfoldable pub dispose : ℕ → Pool → Option ℕ → Option Pool
dispose fuel pool none = some pool
dispose zero pool (some i) = none
dispose (suc fuel) pool (some i) =
    let links = dispose_links (dispose fuel) i (child ∷ next ∷ token ∷ store ∷ []) pool in
    if is_unused (pool.cells i) then some pool else Option.map (λ p. clear_block p i) links

-- the loop of tactyk_dblock__cull: `n` blocks from index `i` on
unfoldable pub cull_loop : ℕ → ℕ → ℕ → Pool → Pool
cull_loop persist_code zero i pool = pool
cull_loop persist_code (suc n) i pool =
    let db = pool.cells i in
    cull_loop persist_code n (i + 1)
      (if db.header.persistence_code == persist_code then weak_dispose pool i else pool)

unfoldable pub cull : ℕ → Pool → Pool
cull persist_code pool = cull_loop persist_code pool.size 0 pool
