-- ===== src/Dblock/Block.antt =====
-- `struct tactyk_dblock__DBlock` and the hierarchies and tables that its pointers make up
-- (include/tactyk_dblock.h).
use tactyk.Base.{ℕ, Bool, List}

-- enum tactyk_dblock__Type
pub data BlockType : Type 0 where
  none unspecified array table string external tree : BlockType

-- The fields of the struct that are no pointers to blocks. `bytes` is the memory at the pointer
-- `data`: the allocation of a self-managed block, or the rest of the text that an external block
-- points into.
pub record Block : Type 0 where
  pub type : BlockType
  pub length : ℕ
  pub stride : ℕ
  pub element_capacity : ℕ
  pub element_count : ℕ
  pub capacity : ℕ
  pub hashcode : ℕ
  pub bytes : List ℕ
  pub persistence_code : ℕ
  pub fixed : Bool
  pub self_managed : Bool

-- A pointer to a block with all that it reaches: `null`, or a node with its fields, its table
-- slots (of a block of type TABLE) and its links `next`, `child`, `token` and `store`.
mutual
  pub data DBlock : Type 0 where
    null : DBlock
    node : Block → Slots → DBlock → DBlock → DBlock → DBlock → DBlock

  -- the memory of a table: pairs of a key and a value
  pub data Slots : Type 0 where
    nil : Slots
    slot : DBlock → Value → Slots → Slots

  -- a `void*` stored in a table: NULL, TACTYK_PSEUDONULL, a managed block, or any other pointer
  pub data Value : Type 0 where
    empty : Value
    pseudonull : Value
    block : DBlock → Value
    pointer : ℕ → Value
