-- ===== src/Dblock/Tokens.antt =====
-- tactyk_dblock__tokenize, libtactyk/tactyk_dblock.c: blocks are cut at separators, into tokens or
-- into sibling blocks.
pub mod Fields
pub mod Cut
pub mod Whole
mod Tests
use mathlib.Core.Option
use tactyk.Base.{
  ℕ, zero, suc, ◌+◌, ◌-◌, Bool, true, false, not, List, [], ◌∷◌, ◌++◌, Option, none, some, ltb,
  ◌==◌, if◌then◌else◌, drop,
}
use tactyk.Dblock.Block.{Block, DBlock, null, node, nil}
use tactyk.Dblock.Hash.{byte_at, update_hash}
use tactyk.Dblock.Table.{zero_block}
use tactyk.Dblock.Text.{view}

-- memchr: the first of `n` bytes from index `pos` on that is `c`
unfoldable pub memchr : List ℕ → ℕ → ℕ → ℕ → Option ℕ
memchr text c zero pos = none
memchr text c (suc n) pos =
    let rest = memchr text c n (suc pos) in if byte_at text pos == c then some pos else rest

-- tactyk_dblock__from_bytes with safe data, then tactyk_dblock__fix
unfoldable pub piece : List ℕ → ℕ → ℕ → Block
piece ptr start_index length = record (view zero_block ptr start_index length) { fixed = true }

-- After a round: the loop ends, or goes on from a position. The Boolean says whether `db` is set;
-- the list has the blocks linked behind the primary block.
pub data Round : Type 0 where
  done : Block → List Block → Round
  again : ℕ → Bool → Block → List Block → Round

-- `if (next_ln > 0)`, with a token before
unfoldable pub add_piece : List ℕ → ℕ → ℕ → List Block → List Block
add_piece ptr pos next_pos more =
    if ltb pos next_pos then more ++ piece ptr pos (next_pos - pos) ∷ [] else more

-- the first separator after a token, or one more at the start
unfoldable pub first_cut : List ℕ → ℕ → ℕ → ℕ → Block → List Block → Round
first_cut ptr ln pos next_pos primary more =
    if ltb pos next_pos
    then again (suc next_pos) true (update_hash (record primary { length = next_pos - pos })) more
    else again (suc next_pos) false
        (update_hash (record primary { bytes = drop (suc next_pos) ptr; length = ln - next_pos }))
        more

-- a round, on what memchr found
unfoldable pub cut_round : List ℕ → ℕ → ℕ → Bool → Block → List Block → Option ℕ → Round
cut_round ptr ln pos false primary more none = done primary more
cut_round ptr ln pos true primary more none = done primary (more ++ piece ptr pos (ln - pos) ∷ [])
cut_round ptr ln pos false primary more (some next_pos) = first_cut ptr ln pos next_pos primary more
cut_round ptr ln pos true primary more (some next_pos) =
    again (suc next_pos) true primary (add_piece ptr pos next_pos more)

abbrev pub go_on :
    (ℕ → Bool → Block → List Block → Option (Block × List Block))
    → Round
    → Option (Block × List Block)
go_on loop (done primary more) = some (primary, more)
go_on loop (again pos found primary more) = loop pos found primary more

-- `while (pos < ln)`, with fuel
unfoldable pub cut_loop :
    ℕ → List ℕ → ℕ → ℕ → ℕ → Bool → Block → List Block → Option (Block × List Block)
cut_loop zero ptr separator ln pos found primary more = none
cut_loop (suc fuel) ptr separator ln pos found primary more =
    let next =
      go_on (cut_loop fuel ptr separator ln)
        (cut_round ptr ln pos found primary more (memchr ptr separator (ln - pos) pos)) in
    if ltb pos ln then next else some (primary, more)

-- Each round moves the position on, so one more round than bytes is enough.
unfoldable pub cut : Block → ℕ → Block → Option (Block × List Block)
cut dblock separator primary =
    cut_loop (suc dblock.length) dblock.bytes separator dblock.length 0 false primary []

-- blocks linked by `next`
abbrev pub chain : List Block → DBlock
chain [] = null
chain (b ∷ bs) = node b nil (chain bs) null null null

-- `db->next = next_db` on the block itself, where it was cut
abbrev pub behind : List Block → DBlock → DBlock
behind [] next = next
behind (b ∷ bs) next = chain (b ∷ bs)

unfoldable pub tokenize : ℕ → Bool → DBlock → Option DBlock
tokenize separator tokens null = some null
tokenize separator true (node b s next child token store) =
    let cut_tokens = Option.bind (tokenize separator true child) (λ child'.
      Option.bind (tokenize separator true next) (λ next'.
        Option.map (λ (r : Block × List Block). node b s next' child' (chain (r.0 ∷ r.1)) store)
          (cut b separator (piece b.bytes 0 b.length)))) in
    if b.fixed then cut_tokens else none
tokenize separator false (node b s next child token store) =
    let cut_blocks = Option.bind (tokenize separator false child) (λ child'.
      Option.bind (tokenize separator false next) (λ next'.
        Option.map (λ (r : Block × List Block). node r.0 s (behind r.1 next') child' token store)
          (cut b separator b))) in
    if b.fixed then cut_blocks else none
