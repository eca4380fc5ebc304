-- ===== src/Dblock/Table.antt =====
-- The tables of libtactyk/tactyk_dblock.c: open addressing with linear probing over pairs of
-- pointers. A table starts at a power of two, doubles when it is full, and marks a deleted entry
-- by TACTYK_PSEUDONULL, which keeps its slot.
-- A result `none` is a stop of the process: a failed `assert`, or the error handler's exit.
pub mod Scan
pub mod Memory
pub mod Keys
pub mod Names
pub mod Inv
pub mod Insert
pub mod Overwrite
pub mod Store
pub mod Rebuild
pub mod Map
pub mod Refine
mod Tests
use Prim.Native.Nat.{bit_and}
use mathlib.Core.Option
use tactyk.Base.{
  ℕ, zero, suc, ◌+◌, ◌-◌, ◌*◌, ◌%◌, ◌^◌, Bool, true, false, not, ◌&&◌, ◌||◌, List, Option, none,
  some, ltb, leb, ◌==◌, if◌then◌else◌, length, replicate,
}
use tactyk.Base.Words.{mul64, sub64}
use tactyk.Dblock.Block.{
  BlockType, Block, DBlock, null, node, Slots, nil, slot, Value, empty, pseudonull, block, pointer,
}
use tactyk.Dblock.Hash.{equals}
use tactyk.Dblock.Persist.{set_persistence_code, mark_value, shallow_copy, from_c_string}
use tactyk.Util.Pow2.{next_pow2}

-- A block of type TABLE: its fields, and the memory at `data` read as pairs of pointers.
pub record Table : Type 0 where
  pub header : Block
  pub fields : Slots

-- `fields[2 * i]` and `fields[2 * i + 1]`, for `i` within the memory
unfoldable pub key_at : Slots → ℕ → DBlock
key_at nil i = null
key_at (slot k v s) zero = k
key_at (slot k v s) (suc i) = key_at s i

unfoldable pub value_at : Slots → ℕ → Value
value_at nil i = empty
value_at (slot k v s) zero = v
value_at (slot k v s) (suc i) = value_at s i

-- a write of both, and of the value alone
unfoldable pub set_slot : Slots → ℕ → DBlock → Value → Slots
set_slot nil i k v = nil
set_slot (slot k' v' s) zero k v = slot k v s
set_slot (slot k' v' s) (suc i) k v = slot k' v' (set_slot s i k v)

unfoldable pub set_value : Slots → ℕ → Value → Slots
set_value nil i v = nil
set_value (slot k v' s) zero v = slot k v s
set_value (slot k v' s) (suc i) v = slot k v' (set_value s i v)

-- zeroed memory for `n` pairs
unfoldable pub new_slots : ℕ → Slots
new_slots zero = nil
new_slots (suc n) = slot null empty (new_slots n)

abbrev pub is_null : Value → Bool
is_null empty = true
is_null pseudonull = false
is_null (block d) = false
is_null (pointer p) = false

-- The fields of a block that is pointed to. NULL is never followed: see `Slots.Inv.keyed`.
abbrev pub zero_block : Block
zero_block = record {
  type = BlockType.none;
  length = 0;
  stride = 0;
  element_capacity = 0;
  element_count = 0;
  capacity = 0;
  hashcode = 0;
  bytes = List.[];
  persistence_code = 0;
  fixed = false;
  self_managed = false;
}

abbrev pub header_of : DBlock → Block
header_of null = zero_block
header_of (node b s n c t st) = b

-- Where the search of tactyk_dblock__table_find stops at an index.
abbrev pub hit : Slots → Block → ℕ → Bool
hit fields key i = is_null (value_at fields i) || equals key (header_of (key_at fields i))

-- one loop of the search: `n` rounds from `i` on
unfoldable pub scan : (ℕ → Bool) → ℕ → ℕ → Option ℕ
scan stop zero i = none
scan stop (suc n) i = let rest = scan stop n (i + 1) in if stop i then some i else rest

abbrev pub or_else : Option ℕ → Option ℕ → Option ℕ
or_else none b = b
or_else (some i) b = some i

-- from the preferred index to the end, then from the start; `none` is -1
unfoldable pub probe : (ℕ → Bool) → ℕ → ℕ → Option ℕ
probe stop capacity pref_index =
    let wrapped = scan stop pref_index 0 in
    or_else (scan stop (capacity - pref_index) pref_index) wrapped

abbrev pub preferred : ℕ → Block → ℕ
preferred capacity key = bit_and key.hashcode (sub64 capacity 1)

unfoldable pub table_find : Table → Block → Option ℕ
table_find table key =
    let capacity = table.header.element_capacity in
    probe (hit table.fields key) capacity (preferred capacity key)

-- What a caller hands over as a key: a C string, or a managed block.
pub data Key : Type 0 where
  c_string : List ℕ → Key
  dblock : DBlock → Key

-- tactyk_dblock__from_string_or_dblock
unfoldable pub from_string_or_dblock : Key → DBlock
from_string_or_dblock (c_string text) = from_c_string text
from_string_or_dblock (dblock d) = d

abbrev pub key_block : Key → Block
key_block key = header_of (from_string_or_dblock key)

-- The key that a new entry gets: a temporary block itself, a copy of a block that manages its
-- memory, and any other block itself; with the persistence code of the table.
unfoldable pub stored_key : ℕ → Key → DBlock
stored_key code (c_string text) = set_persistence_code code (from_c_string text)
stored_key code (dblock d) =
    if (header_of d).self_managed
    then set_persistence_code code (shallow_copy d)
    else set_persistence_code code d

abbrev pub count_of : Table → ℕ
count_of table = table.header.element_count

abbrev pub capacity_of : Table → ℕ
capacity_of table = table.header.element_capacity

-- The four branches of tactyk_dblock__put, on the index that was found.
unfoldable pub store : Table → Key → Value → ℕ → Table
store table key value idx =
    let tbl_value = value_at table.fields idx in
    if is_null value && is_null tbl_value
    then table
    else if not (is_null value) && is_null tbl_value
    then record table {
      header = record (table.header) { element_count = count_of table + 1 };
      fields = set_slot table.fields idx (stored_key table.header.persistence_code key) value;
    }
    else if is_null value
    then record table { fields = set_value table.fields idx pseudonull }
    else record table { fields = set_value table.fields idx value }

-- From the search on: `assert(idx != -1)`.
unfoldable pub put_found : Table → Key → Value → Option Table
put_found table key value = Option.map (store table key value) (table_find table (key_block key))

-- the loop of tactyk_dblock__rebuild_table over the old pairs, `n` of them
unfoldable pub reinsert : (Table → Key → Value → Option Table) → Slots → ℕ → Table → Option Table
reinsert put nil n table = some table
reinsert put (slot k v s) zero table = some table
reinsert put (slot k empty s) (suc n) table = reinsert put s n table
reinsert put (slot k pseudonull s) (suc n) table = reinsert put s n table
reinsert put (slot k (block d) s) (suc n) table =
    Option.bind (put table (dblock k) (block d)) (λ t. reinsert put s n t)
reinsert put (slot k (pointer p) s) (suc n) table =
    Option.bind (put table (dblock k) (pointer p)) (λ t. reinsert put s n t)

-- Where no larger memory is taken the pairs stay in the old memory, which is freed in the end:
-- a use after free, `none` here.
unfoldable pub rebuild_table : (Table → Key → Value → Option Table) → Table → ℕ → Option Table
rebuild_table put table element_capacity =
    let min_length = mul64 element_capacity 16 in
    let grown = record table {
      header = record (table.header) {
        element_capacity = element_capacity;
        capacity = min_length;
        element_count = 0;
      };
      fields = new_slots element_capacity;
    } in
    if not (leb (capacity_of table) element_capacity)
    then none
    else if ltb table.header.capacity min_length
    then reinsert put table.fields (capacity_of table) grown
    else none

-- tactyk_dblock__put. A full table is rebuilt, which puts again: the fuel bounds that nesting.
unfoldable pub put : ℕ → Table → Key → Value → Option Table
put zero table key value = none
put (suc fuel) table key value =
    let marked = mark_value table.header.persistence_code value in
    let rebuilt = rebuild_table (put fuel) table (mul64 (count_of table) 2) in
    if not (leb (count_of table) (capacity_of table))
    then none
    else if count_of table == capacity_of table
    then Option.bind rebuilt (λ t. put_found t key marked)
    else put_found table key marked

-- A value read by tactyk_dblock__get: TACTYK_PSEUDONULL is NULL to the caller.
abbrev pub visible : Value → Value
visible empty = empty
visible pseudonull = empty
visible (block d) = block d
visible (pointer p) = pointer p

unfoldable pub get : Table → Key → Value
get table key = elim (table_find table (key_block key)) [
  | none ↦ empty
  | some idx ↦ visible (value_at table.fields idx)
]

unfoldable pub delete : ℕ → Table → Key → Option Table
delete fuel table key = put fuel table key empty

unfoldable pub new_table : ℕ → Table
new_table element_capacity =
    let capacity = next_pow2 element_capacity in
    record {
      header = record {
        type = BlockType.table;
        length = 0;
        stride = 8;
        element_capacity = capacity;
        element_count = 0;
        capacity = mul64 (mul64 capacity 8) 2;
        hashcode = 0;
        bytes = List.[];
        persistence_code = 0;
        fixed = false;
        self_managed = true;
      };
      fields = new_slots capacity;
    }

-- tactyk_dblock__reset_table, behind the disposal of the keys, whose blocks go back to the pool
unfoldable pub reset_table : Bool → Table → Table
reset_table overwrite table = record {
  header = record table.header { element_count = 0 };
  fields = if overwrite then new_slots (capacity_of table) else table.fields;
}
