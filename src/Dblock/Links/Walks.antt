-- ===== src/Dblock/Links/Walks.antt =====
-- The peers of a block as a list, how many they are and which is the last.
use tactyk.Base.{suc, ◌≡◌, refl, ap, List, [], ◌∷◌, length}
use tactyk.Dblock.Block.{DBlock, null, node}
use tactyk.Dblock.Links.{count_peers, last_peer}

-- the block and the blocks that `next` leads to, in order
abbrev pub peers : DBlock → List DBlock
peers null = []
peers (node b s next child token store) = node b s next child token store ∷ peers next

-- the last element of a list, NULL if it has none
abbrev pub last_or_null : List DBlock → DBlock
last_or_null [] = null
last_or_null (d ∷ []) = d
last_or_null (d ∷ e ∷ ds) = last_or_null (e ∷ ds)

pub count_peers-peers : (d : DBlock) → count_peers d ≡ length (peers d)
unfolding count_peers
count_peers-peers null = refl
count_peers-peers (node b s next child token store) = ap suc (count_peers-peers next)

pub last_peer-peers : (d : DBlock) → last_peer d ≡ last_or_null (peers d)
unfolding last_peer
last_peer-peers null = refl
last_peer-peers (node b s null child token store) = refl
last_peer-peers (node b s (node b' s' n' c' t' st') child token store) =
    last_peer-peers (node b' s' n' c' t' st')
