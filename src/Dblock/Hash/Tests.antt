-- ===== src/Dblock/Hash/Tests.antt =====
-- Runs of the hash and of the equality of blocks, and the theorems at concrete blocks.
use tactyk.Base.{ℕ, ◌≡◌, refl, arith, List, [], ◌∷◌, length, true, false, ◌↔◌}
use tactyk.Dblock.Block.{BlockType, Block}
use tactyk.Dblock.Hash.{equals, update_hash, same_loop}
use tactyk.Dblock.Hash.Content.{Agree}
use tactyk.Dblock.Hash.Exact.{IsBytes, compared, equals_iff}
use tactyk.Dblock.Hash.Equivalence.{equals-update_hash}

abbrev text_block : ℕ → ℕ → List ℕ → Block
text_block hash length bytes = record {
  type = BlockType.string;
  length = length;
  stride = 1;
  element_capacity = 0;
  element_count = 0;
  capacity = length;
  hashcode = hash;
  bytes = bytes;
  persistence_code = 0;
  fixed = false;
  self_managed = true;
}

abbrev ten : List ℕ
ten = 1 ∷ 2 ∷ 3 ∷ 4 ∷ 5 ∷ 6 ∷ 7 ∷ 8 ∷ 9 ∷ 10 ∷ []

abbrev ten' : List ℕ
ten' = 1 ∷ 2 ∷ 3 ∷ 4 ∷ 5 ∷ 6 ∷ 7 ∷ 8 ∷ 0 ∷ 0 ∷ []

ten-IsBytes : IsBytes ten
ten-IsBytes j = ground arith

-- The last two of ten bytes differ, and the blocks are equal if their hash codes are.
residue_ignored : equals (text_block 5 10 ten) (text_block 5 10 ten') ≡ true
unfolding equals same_loop
residue_ignored = refl

ten'-IsBytes : IsBytes ten'
ten'-IsBytes j = ground arith

abbrev left : Block
left = text_block 5 10 ten

abbrev right : Block
right = text_block 5 10 ten'

equals_iff_example :
    (equals left right ≡ true)
    ↔ (left.hashcode ≡ right.hashcode)
      × (left.length ≡ right.length)
      × Agree (compared left.length) left.bytes right.bytes
equals_iff_example = equals_iff left right ten-IsBytes ten'-IsBytes

-- the first ten bytes of a longer text
abbrev prefix : Block
prefix = text_block 0 10 (1 ∷ 2 ∷ 3 ∷ 4 ∷ 5 ∷ 6 ∷ 7 ∷ 8 ∷ 9 ∷ 10 ∷ 11 ∷ 12 ∷ [])

prefix-Agree : Agree 10 ten prefix.bytes
prefix-Agree j lt = ground arith

equals-update_hash_example : equals (update_hash left) (update_hash prefix) ≡ true
equals-update_hash_example = equals-update_hash left prefix refl prefix-Agree
