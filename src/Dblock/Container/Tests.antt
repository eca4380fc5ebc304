-- ===== src/Dblock/Container/Tests.antt =====
-- A container for four objects of 8 bytes, and the theorem at it.
use tactyk.Base.{ℕ, ◌≡◌, refl, arith, none, some, length-replicate}
use tactyk.Dblock.Block.{Block, null, node, nil}
use tactyk.Dblock.Container.{new_container, new_allocated_container, new_object, index}
use tactyk.Dblock.Container.Objects.{IsContainer, IsTaken, new_object-IsTaken}

four-IsContainer : IsContainer (new_container 4 8)
unfolding new_container
four-IsContainer = record {
  used = refl;
  below = omega arith;
  room = omega arith;
  owned = length-replicate {A = ℕ} 32 0;
  small = omega arith;
  sized = omega arith;
}

new_object-IsTaken_example :
    (b' : Block) × (offset : ℕ) × (new_object (new_container 4 8) ≡ some (b', offset))
    × IsTaken (new_container 4 8) b' offset
unfolding new_container
new_object-IsTaken_example = new_object-IsTaken (new_container 4 8) four-IsContainer (omega arith)

-- An index that is not below the count is refused.
index-end : index (node (new_allocated_container 4 8) nil null null null null) 4 ≡ none
unfolding index new_allocated_container new_container
index-end = refl
