-- ===== src/Dblock/Links.antt =====
-- Walks along the links of blocks: the functions count_peers, count_children, count_tokens,
-- last_peer, last_token, last_child and deep_copy of libtactyk/tactyk_dblock.c.
-- A result `none` is a read of a NULL pointer.
pub mod Walks
pub mod Copies
mod Tests
use mathlib.Core.Option
use tactyk.Base.{ℕ, suc, Option, none, some}
use tactyk.Dblock.Block.{Block, DBlock, null, node}
use tactyk.Dblock.Persist.{shallow_copy}

unfoldable pub count_peers : DBlock → ℕ
count_peers null = 0
count_peers (node b s next child token store) = suc (count_peers next)

-- `dblock->next`, `dblock->child` and `dblock->token`
abbrev pub next_of : DBlock → Option DBlock
next_of null = none
next_of (node b s next child token store) = some next

abbrev pub child_of : DBlock → Option DBlock
child_of null = none
child_of (node b s next child token store) = some child

abbrev pub token_of : DBlock → Option DBlock
token_of null = none
token_of (node b s next child token store) = some token

unfoldable pub count_children : DBlock → Option ℕ
count_children dblock = Option.map count_peers (child_of dblock)

unfoldable pub count_tokens : DBlock → Option ℕ
count_tokens dblock = Option.map count_peers (token_of dblock)

unfoldable pub last_peer : DBlock → DBlock
last_peer null = null
last_peer (node b s null child token store) = node b s null child token store
last_peer (node b s (node b' s' n' c' t' st') child token store) =
    last_peer (node b' s' n' c' t' st')

unfoldable pub last_token : DBlock → Option DBlock
last_token dblock = Option.map last_peer (token_of dblock)

unfoldable pub last_child : DBlock → Option DBlock
last_child dblock = Option.map last_peer (child_of dblock)

-- the four writes of deep_copy to the copy of a block
abbrev pub relink : DBlock → DBlock → DBlock → DBlock → DBlock → DBlock
relink null child next store token = null
relink (node b s next' child' token' store') child next store token =
    node b s next child token store

unfoldable pub deep_copy : DBlock → DBlock
deep_copy null = null
deep_copy (node b s next child token store) =
    relink (shallow_copy (node b s next child token store)) (deep_copy child) (deep_copy next)
      (deep_copy store) (deep_copy token)
