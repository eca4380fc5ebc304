-- ===== src/Dblock/Tokens/Whole.antt =====
-- Tokenizing a hierarchy of blocks: each block gets the fields of its content as its tokens.
use mathlib.Core.Option
use tactyk.Base.{
  ℕ, ◌≤◌, ◌<◌, ◌≡◌, ◌≢◌, refl, ap, ◌∙◌, Bool, true, List, [], ◌∷◌, Option, some, if◌then◌else◌,
  length,
}
use tactyk.Dblock.Block.{Block, DBlock, null, node}
use tactyk.Dblock.Hash.{byte_at, update_hash}
use tactyk.Dblock.Text.{content, view}
use tactyk.Dblock.Tokens.{piece, chain, tokenize}
use tactyk.Dblock.Tokens.Fields.{fields}
use tactyk.Dblock.Tokens.Cut.{contents, cut-fields}

-- A fixed block whose content lies in its memory, is not empty and starts with no separator.
pub record IsLine (separator : ℕ) (b : Block) : Type 0 where
  pub fixed : b.fixed ≡ true
  pub inside : b.length ≤ length b.bytes
  pub some_bytes : 0 < b.length
  pub head : byte_at b.bytes 0 ≢ separator

-- All blocks that children and peers lead to are lines.
abbrev pub AreLines : ℕ → DBlock → Type 0
AreLines separator null = Unit
AreLines separator (node b s next child token store) =
    IsLine separator b × AreLines separator child × AreLines separator next

-- the contents of blocks linked by `next`
abbrev pub chain_contents : DBlock → List (List ℕ)
chain_contents null = []
chain_contents (node b s next child token store) = content b ∷ chain_contents next

-- `t'` has the blocks of `t`, each with the fields of its content as tokens.
abbrev pub IsTokenized : ℕ → DBlock → DBlock → Type 0
IsTokenized separator null null = Unit
IsTokenized separator null (node b' s' next' child' token' store') = ⊥
IsTokenized separator (node b s next child token store) null = ⊥
IsTokenized separator (node b s next child token store) (node b' s' next' child' token' store') =
    (b' ≡ b)
    × (s' ≡ s)
    × (store' ≡ store)
    × (chain_contents token' ≡ fields separator (content b))
    × IsTokenized separator child child'
    × IsTokenized separator next next'

chain_contents-chain : (bs : List Block) → chain_contents (chain bs) ≡ contents bs
chain_contents-chain [] = refl
chain_contents-chain (b ∷ bs) = ap (λ l. content b ∷ l) (chain_contents-chain bs)

-- On a hierarchy of fixed lines that are not empty, lie in their memory and start with no separator,
-- `tokenize` in token mode returns, keeps every block with its children,
-- peers, slots and store, and gives it as tokens the longest runs of bytes without a separator, in
-- order.
pub tokenize-IsTokenized :
    (separator : ℕ) (t : DBlock)
    → AreLines separator t
    → (t' : DBlock) × (tokenize separator true t ≡ some t') × IsTokenized separator t t'
unfolding tokenize Option.bind piece view update_hash
tokenize-IsTokenized separator null h = (null, refl, tt)
tokenize-IsTokenized separator (node b s next child token store) (l, lc, ln) =
    let (c, ec, tc) = tokenize-IsTokenized separator child lc in
    let (n, en, tn) = tokenize-IsTokenized separator next ln in
    let (p, more, e, same) =
      cut-fields b separator (piece b.bytes 0 b.length) l.inside l.some_bytes l.head refl refl in
    (
      node b s n c (chain (p ∷ more)) store,
      guard b.fixed _ _ l.fixed ∙ rw (ec, en) (rw e refl),
      (refl, refl, refl, ap (λ w. content p ∷ w) (chain_contents-chain more) ∙ same, tc, tn),
    )
  where
    guard : (f : Bool) (x y : Option DBlock) → f ≡ true → (if f then x else y) ≡ x
    guard f x y h = rw h refl
