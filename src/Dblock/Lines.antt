-- ===== src/Dblock/Lines.antt =====
-- Lines of structured text: tactyk_dblock__remove_blanks and tactyk_dblock__trim of
-- libtactyk/tactyk_dblock.c. The blocks that remove_blanks drops are handed back to the pool.
pub mod Kept
pub mod Trimmed
mod Tests
use mathlib.Core.Option
use tactyk.Base.{
  ℕ, zero, suc, ◌+◌, ◌-◌, Bool, true, false, ◌&&◌, ◌||◌, List, Option, none, some, ◌==◌, ltb,
  if◌then◌else◌, drop,
}
use tactyk.Dblock.Block.{Block, DBlock, null, node}
use tactyk.Dblock.Hash.{byte_at, update_hash}

-- A `char`, which is signed, equal to a `uint8_t`: no character from 128 on is.
abbrev pub is_char : ℕ → ℕ → Bool
is_char ch byte = ltb ch 128 && ch == byte

-- the scan of a line: `n` bytes from index `i` on
unfoldable pub kept_loop : List ℕ → ℕ → ℕ → ℕ → ℕ → Bool
kept_loop text space comment zero i = false
kept_loop text space comment (suc n) i =
    let rest = kept_loop text space comment n (suc i) in
    let ch = byte_at text i in
    if is_char ch space
    then rest
    else if ch == 0
    then false
    else if is_char ch comment
    then false
    else true

unfoldable pub is_kept : ℕ → ℕ → Block → Bool
is_kept space comment dblock = kept_loop dblock.bytes space comment dblock.length 0

-- the loop over the lines
unfoldable pub keep_lines : ℕ → ℕ → DBlock → DBlock
keep_lines space comment null = null
keep_lines space comment (node b s next child token store) =
    let rest = keep_lines space comment next in
    if is_kept space comment b then node b s rest child token store else rest

-- `assert(dblock->fixed == true)`, on a block that is there
unfoldable pub remove_blanks : ℕ → ℕ → DBlock → Option DBlock
remove_blanks space comment null = none
remove_blanks space comment (node b s next child token store) =
    if b.fixed then some (keep_lines space comment (node b s next child token store)) else none

abbrev pub is_blank : ℕ → Bool
is_blank ch = ch == b' ' || ch == b'\t'

-- What the first loop of trim ends by: a NUL byte, a byte that is not blank, or the end.
pub data Start : Type 0 where
  nul : Start
  found : ℕ → Start
  ended : Start

unfoldable pub start_loop : List ℕ → ℕ → ℕ → Start
start_loop text zero i = ended
start_loop text (suc n) i =
    let rest = start_loop text n (suc i) in
    let ch = byte_at text i in if ch == 0 then Start.nul else if is_blank ch then rest else found i

-- the second loop, `n` rounds from index `start_pos + n` down; `end_pos` if none stops it
unfoldable pub end_loop : List ℕ → ℕ → ℕ → ℕ → ℕ
end_loop text start_pos end_pos zero = end_pos
end_loop text start_pos end_pos (suc n) =
    let rest = end_loop text start_pos end_pos n in
    if is_blank (byte_at text (start_pos + suc n)) then rest else start_pos + suc n + 1

-- the block between two positions
unfoldable pub narrow : Block → ℕ → ℕ → Block
narrow dblock start_pos end_pos =
    if start_pos == 0 && end_pos == dblock.length
    then dblock
    else update_hash
        (record dblock { bytes = drop start_pos dblock.bytes; length = end_pos - start_pos })

abbrev pub trim_from : Block → ℕ → Block
trim_from dblock start_pos =
    narrow dblock start_pos
      (end_loop dblock.bytes start_pos dblock.length (dblock.length - 1 - start_pos))

-- A NUL byte before anything but blanks ends the function at once.
unfoldable pub trim_block : Block → Start → Option Block
trim_block dblock Start.nul = none
trim_block dblock (found i) = some (trim_from dblock i)
trim_block dblock ended = some (trim_from dblock 0)

abbrev pub line_start : Block → Start
line_start dblock = start_loop dblock.bytes dblock.length 0

-- The children and the peers are trimmed if the function got that far.
abbrev pub trim_rest : (Block → Option DBlock) → DBlock → Option Block → Option DBlock
trim_rest go same none = some same
trim_rest go same (some b) = go b

unfoldable pub trim : DBlock → Option DBlock
trim null = some null
trim (node b s next child token store) =
    let trimmed =
      trim_rest
        (λ b'.
          Option.bind (trim child)
            (λ child'. Option.map (λ next'. node b' s next' child' token store) (trim next)))
        (node b s next child token store) (trim_block b (line_start b)) in
    if b.fixed then trimmed else none
