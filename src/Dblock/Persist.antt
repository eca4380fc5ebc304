-- ===== src/Dblock/Persist.antt =====
-- tactyk_dblock__set_persistence_code and the block copies of libtactyk/tactyk_dblock.c.
use tactyk.Base.{
  ℕ, zero, suc, Bool, true, false, not, List, [], ◌∷◌, leb, ◌==◌, if◌then◌else◌, length, replicate,
}
use tactyk.Dblock.Block.{BlockType, DBlock, null, node, Slots, nil, slot, Value, block}
use tactyk.Dblock.Hash.{update_hash}

abbrev pub is_table : BlockType → Bool
is_table BlockType.table = true
is_table _ = false

-- `key->length != 0` of a key that is not NULL
abbrev has_text : DBlock → Bool
has_text null = false
has_text (node b s n c t st) = not (b.length == 0)

-- A block that has the code, or a higher one, is left as it is with all that it reaches.
unfoldable mutual
  pub set_persistence_code : ℕ → DBlock → DBlock
  set_persistence_code code null = null
  set_persistence_code code (node b s n c t st) =
      let marked =
        node (record b { persistence_code = code })
          (if is_table b.type then mark_keys code s b.element_capacity else s)
          (set_persistence_code code n) (set_persistence_code code c) (set_persistence_code code t)
          (set_persistence_code code st) in
      if leb code b.persistence_code then node b s n c t st else marked

  -- the loop over the keys of a table, `count` slots from here on
  pub mark_keys : ℕ → Slots → ℕ → Slots
  mark_keys code nil count = nil
  mark_keys code (slot k v s) zero = slot k v s
  mark_keys code (slot k v s) (suc count) =
      let rest = mark_keys code s count in
      slot (if has_text k then set_persistence_code code k else k) v rest

-- `if (is_dblock(value)) set_persistence_code(value, ...)`
unfoldable pub mark_value : ℕ → Value → Value
mark_value code (block d) = block (set_persistence_code code d)
mark_value code v = v

-- memcpy of `n` bytes to the start of `dest`
unfoldable pub memcpy : ℕ → List ℕ → List ℕ → List ℕ
memcpy zero dest source = dest
memcpy (suc n) [] source = []
memcpy (suc n) (d ∷ dest) [] = 0 ∷ memcpy n dest []
memcpy (suc n) (d ∷ dest) (s ∷ source) = s ∷ memcpy n dest source

-- The copy has its own memory, and shares what the links point to.
unfoldable pub shallow_copy : DBlock → DBlock
unfolding memcpy
shallow_copy null = null
shallow_copy (node b s n c t st) =
    node
      (record b {
        self_managed = true;
        bytes = memcpy b.length (replicate b.capacity 0) b.bytes;
        persistence_code = 0;
      })
      s n c t st

-- tactyk_dblock__from_c_string on a fresh block: free blocks are all zeros. The argument is the
-- text before the terminator.
unfoldable pub from_c_string : List ℕ → DBlock
from_c_string text =
    node
      (update_hash (record {
        type = BlockType.string;
        length = length text;
        stride = 1;
        element_capacity = 0;
        element_count = 0;
        capacity = length text;
        hashcode = 0;
        bytes = memcpy (length text) (replicate (length text) 0) text;
        persistence_code = 0;
        fixed = false;
        self_managed = true;
      }))
      nil null null null null
