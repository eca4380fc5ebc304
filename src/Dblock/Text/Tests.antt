-- ===== src/Dblock/Text/Tests.antt =====
-- Text blocks on small inputs, and the theorems at concrete values.
use tactyk.Base.{ℕ, ◌+◌, ◌≤◌, ◌<◌, ◌≡◌, ◌↔◌, refl, arith, true, [], ◌∷◌, some}
use tactyk.Dblock.Block.{Block}
use tactyk.Dblock.Hash.{byte_at, update_hash}
use tactyk.Dblock.Persist.{from_c_string, memcpy}
use tactyk.Dblock.Table.{header_of}
use tactyk.Dblock.Text.{new, expand, content, contains, contains_char}
use tactyk.Dblock.Text.Grow.{IsText, IsExpanded, expand-IsExpanded}
use tactyk.Dblock.Text.Pieces.{
  block, char, word, part, pieces_bytes, piece_bytes, PiecesOk, PieceOk, append_pieces, IsHashed,
  append_pieces-new,
}
use tactyk.Dblock.Text.Search.{OccursAt, contains_iff, contains_char_iff}

-- "tactyk"
abbrev name : Block
name = header_of (from_c_string (b't' ∷ b'a' ∷ b'c' ∷ b't' ∷ b'y' ∷ b'k' ∷ []))

-- "ty"
abbrev part_of_name : Block
part_of_name = header_of (from_c_string (b't' ∷ b'y' ∷ []))

expand-IsExpanded_example : (d' : Block) × (expand (new 3) 10 ≡ some d') × IsExpanded (new 3) 10 d'
unfolding new update_hash
expand-IsExpanded_example =
    expand-IsExpanded {d = new 3}
      (record { within = omega arith; fits = omega arith; owned = λ e. refl; mutable = refl }) 10
      (omega arith) (omega arith)

-- "tactyk", 'x', the word 0x0201 and "tyk", in a block that starts with one byte of memory
append_pieces-new_example :
    (d : Block) × (append_pieces (new 1) (block name ∷ char b'x' ∷ word 0x0201 ∷ part name 3 9 ∷ [])
      ≡ some d)
    × (content d ≡ pieces_bytes (block name ∷ char b'x' ∷ word 0x0201 ∷ part name 3 9 ∷ []))
    × IsText d
    × IsHashed d
unfolding PiecesOk PieceOk pieces_bytes piece_bytes from_c_string memcpy update_hash
append_pieces-new_example =
    append_pieces-new 1 (block name ∷ char b'x' ∷ word 0x0201 ∷ part name 3 9 ∷ [])
      (omega arith, (omega arith, (omega arith, (omega arith, omega arith)))) (omega arith)

contains_iff_example :
    (contains name part_of_name ≡ true)
    ↔ ((q : ℕ) × (q + part_of_name.length ≤ name.length) × OccursAt name part_of_name q)
contains_iff_example = contains_iff name part_of_name

contains_char_iff_example :
    (contains_char name b'y' ≡ true) ↔ ((q : ℕ) × (q < name.length) × (byte_at name.bytes q ≡ b'y'))
contains_char_iff_example = contains_char_iff name b'y'
