-- ===== src/Dblock/Links/Copies.antt =====
-- What deep_copy makes of a hierarchy of blocks.
use tactyk.Base.{◌≤◌, ◌≡◌, true, length}
use tactyk.Dblock.Block.{Block, DBlock, null, node, Slots}
use tactyk.Dblock.Text.{content}

-- The content lies within the capacity and within the memory.
abbrev pub Holds : Block → Type 0
Holds b = (b.length ≤ b.capacity) × (b.length ≤ length b.bytes)

abbrev pub AllHold : DBlock → Type 0
AllHold null = Unit
AllHold (node b s next child token store) =
    Holds b × AllHold next × AllHold child × AllHold token × AllHold store

-- `b'` has the content of `b`, in memory of its own as large as the capacity, and may be culled.
pub record IsBlockCopy (b b' : Block) : Type 0 where
  pub same_content : content b' ≡ content b
  pub same_length : b'.length ≡ b.length
  pub same_hash : b'.hashcode ≡ b.hashcode
  pub same_type : b'.type ≡ b.type
  pub managed : b'.self_managed ≡ true
  pub owned : length b'.bytes ≡ b.capacity
  pub transient : b'.persistence_code ≡ 0

-- The same shape with a copy of every block. The slots of a table are shared.
pub data IsCopy : DBlock → DBlock → Type 0 where
  nothing : IsCopy null null
  copied :
      {b b' : Block} {s : Slots} {n n' c c' t t' st st' : DBlock}
      → IsBlockCopy b b'
      → IsCopy n n'
      → IsCopy c c'
      → IsCopy t t'
      → IsCopy st st'
      → IsCopy (node b s n c t st) (node b' s n' c' t' st')
