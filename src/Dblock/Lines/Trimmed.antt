-- ===== src/Dblock/Lines/Trimmed.antt =====
-- What trim makes of lines that hold no NUL byte, their children and their peers.
use mathlib.Core.Option
use tactyk.Base.{ℕ, ◌+◌, ◌-◌, ◌≤◌, ◌<◌, ◌≡◌, ◌≢◌, ◌⊎◌, true, false, List}
use tactyk.Dblock.Block.{Block, DBlock, null, node, Slots}
use tactyk.Dblock.Hash.{byte_at, hash_bytes}
use tactyk.Dblock.Lines.{is_blank, found, ended, start_loop}

-- Every byte with an index from `lo` on and below `hi` is a space or a tab.
abbrev pub AreBlank : List ℕ → ℕ → ℕ → Type 0
AreBlank text lo hi = (j : ℕ) → lo ≤ j → j < hi → is_blank (byte_at text j) ≡ true

abbrev IsCode : List ℕ → ℕ → Type 0
IsCode text j = is_blank (byte_at text j) ≡ false

-- Where a trimmed line starts: at its first byte that is not blank, or at 0 if it has none.
abbrev pub StartsAt : Block → ℕ → Type 0
StartsAt b s =
    ((s < b.length) × IsCode b.bytes s × AreBlank b.bytes 0 s)
    ⊎ ((s ≡ 0) × AreBlank b.bytes 0 b.length)

-- Where it ends: behind the last byte after the start that is not blank, or, if there is none, at
-- the end of the line.
abbrev pub EndsAt : Block → ℕ → ℕ → Type 0
EndsAt b s e =
    ((q : ℕ) × (s < q)
      × (e ≡ q + 1)
      × (e ≤ b.length)
      × IsCode b.bytes q
      × AreBlank b.bytes e b.length)
    ⊎ ((e ≡ b.length) × AreBlank b.bytes (s + 1) b.length)

abbrev IsHashed : Block → Type 0
IsHashed b = b.hashcode ≡ hash_bytes b.length b.bytes

-- The line holds the bytes between the two places, and a right hash code stays right.
pub record IsTrimmed (b b' : Block) : Type 0 where
  pub from : ℕ
  pub to : ℕ
  pub starts : StartsAt b from
  pub ends : EndsAt b from to
  pub counted : b'.length ≡ to - from
  pub moved : (j : ℕ) → byte_at b'.bytes j ≡ byte_at b.bytes (from + j)
  pub hashed : IsHashed b → IsHashed b'

-- The same shape, every line trimmed.
pub data AreTrimmed : DBlock → DBlock → Type 0 where
  nothing : AreTrimmed null null
  line :
      {b b' : Block} {s : Slots} {next next' child child' token store : DBlock}
      → IsTrimmed b b'
      → AreTrimmed next next'
      → AreTrimmed child child'
      → AreTrimmed (node b s next child token store) (node b' s next' child' token store)

-- Fixed lines without a NUL byte, with all their children and peers.
abbrev pub AreText : DBlock → Type 0
AreText null = Unit
AreText (node b s next child token store) =
    (b.fixed ≡ true)
    × ((j : ℕ) → j < b.length → byte_at b.bytes j ≢ 0)
    × AreText child
    × AreText next

abbrev Started : List ℕ → ℕ → ℕ → Type 0
Started text n i =
    ((s : ℕ) × (start_loop text n i ≡ found s)
      × (i ≤ s)
      × (s < i + n)
      × IsCode text s
      × AreBlank text i s)
    ⊎ ((start_loop text n i ≡ ended) × AreBlank text i (i + n))
