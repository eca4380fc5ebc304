-- ===== src/Dblock/Tokens/Tests.antt =====
-- Small texts, and the theorem at one.
use mathlib.Core.Option
use tactyk.Base.{ℕ, ◌≡◌, ◌≢◌, refl, arith, true, List, [], ◌∷◌, some}
use tactyk.Dblock.Block.{DBlock, null, node, nil}
use tactyk.Dblock.Hash.{update_hash}
use tactyk.Dblock.Text.{new, view}
use tactyk.Dblock.Tokens.{memchr, piece, add_piece, first_cut, cut_round, cut_loop, cut, tokenize}
use tactyk.Dblock.Tokens.Whole.{IsTokenized, tokenize-IsTokenized, chain_contents}

-- the blocks at `token`
abbrev tokens_of : DBlock → List (List ℕ)
tokens_of null = []
tokens_of (node b s next child token store) = chain_contents token

abbrev text_block : ℕ → List ℕ → DBlock
text_block n text =
    node (record (new 0) { length = n; bytes = text; fixed = true }) nil null null null null

-- "ab  c", with a byte of other memory behind it
abbrev two_words : DBlock
two_words = text_block 5 (b'a' ∷ b'b' ∷ b' ' ∷ b' ' ∷ b'c' ∷ b'z' ∷ [])

tokenize-IsTokenized_example :
    (t' : DBlock) × (tokenize b' ' true two_words ≡ some t') × IsTokenized b' ' two_words t'
unfolding new update_hash
tokenize-IsTokenized_example = tokenize-IsTokenized b' ' two_words (
  record { fixed = refl; inside = omega arith; some_bytes = omega arith; head = not_space },
  tt,
  tt,
)
  where
    not_space : ◌≢◌ {A = ℕ} b'a' b' '
    not_space e = omega (arith, e)

-- After a leading separator with no other behind it the token is one byte too long.
leading_separator :
    Option.map tokens_of (tokenize b' ' true (text_block 3 (b' ' ∷ b'a' ∷ b'b' ∷ b'z' ∷ [])))
    ≡ some ((b'a' ∷ b'b' ∷ b'z' ∷ []) ∷ [])
unfolding tokenize cut cut_loop cut_round first_cut add_piece memchr piece view update_hash new
    Option.bind
leading_separator = refl
