-- ===== src/Dblock/Container.antt =====
-- Containers of objects of one size: the functions new_container, new_allocated_container,
-- new_object, index and index_allocated of libtactyk/tactyk_dblock.c.
-- A pointer to an object is the block that holds it with the offset in its memory. A result `none`
-- is the error handler's exit, a failed `assert`, or a doubling loop that does not end.
pub mod Objects
mod Tests
use mathlib.Core.Option
use tactyk.Base.{
  ℕ, ◌+◌, ◌*◌, Bool, true, false, not, ◌&&◌, Option, none, some, leb, ltb, if◌then◌else◌, replicate,
}
use tactyk.Base.Words.{add64, mul64}
use tactyk.Dblock.Block.{BlockType, Block, DBlock, null, node}
use tactyk.Dblock.Text.{expand}

-- on a fresh block, whose other fields are zero
unfoldable pub new_container : ℕ → ℕ → Block
new_container element_capacity stride = record {
  type = BlockType.unspecified;
  length = 0;
  stride = stride;
  element_capacity = element_capacity;
  element_count = 0;
  capacity = mul64 element_capacity stride;
  hashcode = 0;
  bytes = replicate (mul64 element_capacity stride) 0;
  persistence_code = 0;
  fixed = false;
  self_managed = true;
}

unfoldable pub new_allocated_container : ℕ → ℕ → Block
new_allocated_container capacity stride =
    let db = new_container capacity stride in
    record db { length = db.capacity; element_count = db.element_capacity }

-- a container that is full and may grow
unfoldable pub grow_container : Block → Option Block
grow_container container =
    let doubled = mul64 container.element_capacity 2 in
    expand (record container { element_capacity = doubled }) (mul64 doubled container.stride)

-- the object behind the others, within the capacity
unfoldable pub take_object : Block → Option (Block × ℕ)
take_object container =
    let taken = record container {
      length = add64 container.length container.stride;
      element_count = add64 container.element_count 1;
    } in
    if ltb container.capacity taken.length
    then none
    else some (taken, mul64 container.element_count container.stride)

unfoldable pub new_object : Block → Option (Block × ℕ)
new_object container =
    let is_full = leb container.element_capacity container.element_count in
    let grown = Option.bind (grow_container container) take_object in
    if container.fixed && is_full then none else if is_full then grown else take_object container

-- An object of a table is in the container at its `store`.
unfoldable pub index : DBlock → ℕ → Option (Block × ℕ)
index null i = none
index (node b s next child token (node sb ss sn sc st sst)) i = index (node sb ss sn sc st sst) i
index (node b s next child token null) i =
    if leb b.element_count i then none else some (b, mul64 i b.stride)

unfoldable pub index_allocated : DBlock → ℕ → Option (Block × ℕ)
index_allocated null i = none
index_allocated (node b s next child token (node sb ss sn sc st sst)) i =
    index (node sb ss sn sc st sst) i
index_allocated (node b s next child token null) i =
    if leb b.element_capacity i then none else some (b, mul64 i b.stride)
