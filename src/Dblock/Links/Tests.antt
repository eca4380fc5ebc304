-- ===== src/Dblock/Links/Tests.antt =====
-- Links of a small hierarchy, and the theorem at it.
use tactyk.Base.{◌≡◌, refl, false, [], ◌∷◌, some}
use tactyk.Dblock.Block.{DBlock, null, node, nil}
use tactyk.Dblock.Text.{new}
use tactyk.Dblock.Links.{count_peers, count_tokens, last_token, last_peer}

-- a view of one byte of a text of two bytes
abbrev view_block : DBlock → DBlock → DBlock
view_block next token =
    node
      (record (new 0) { length = 1; capacity = 1; bytes = b'a' ∷ b'b' ∷ []; self_managed = false })
      nil next null token null

abbrev views : DBlock
views = view_block (view_block null null) (view_block (view_block null null) null)

views-tokens : count_tokens views ≡ some 2
unfolding count_tokens count_peers
views-tokens = refl

views-last : last_token views ≡ some (view_block null null)
unfolding last_token last_peer
views-last = refl
