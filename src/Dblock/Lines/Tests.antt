-- ===== src/Dblock/Lines/Tests.antt =====
-- Small lines, and the theorems at one.
use mathlib.Core.Option
use tactyk.Base.{ℕ, ◌≡◌, ◌↔◌, refl, true, List, [], ◌∷◌, some, length}
use tactyk.Dblock.Block.{Block, DBlock, null, node, nil}
use tactyk.Dblock.Hash.{update_hash}
use tactyk.Dblock.Text.{new, content}
use tactyk.Dblock.Lines.{
  is_kept, kept_loop, trim_block, start_loop, end_loop, narrow, line_start, remove_blanks,
  keep_lines,
}
use tactyk.Dblock.Lines.Kept.{HasCode, is_kept_iff}

abbrev line_of : List ℕ → Block
line_of text = record (new 0) { length = length text; bytes = text; fixed = true }

-- " ab "
abbrev padded : Block
padded = line_of (b' ' ∷ b'a' ∷ b'b' ∷ b' ' ∷ [])

is_kept_iff_example : (is_kept b' ' b'#' padded ≡ true) ↔ HasCode padded.bytes b' ' b'#' 4 0
unfolding new update_hash
is_kept_iff_example = is_kept_iff b' ' b'#' padded

abbrev padded_line : DBlock
padded_line = node padded nil null null null null

trim_padded : Option.map content (trim_block padded (line_start padded)) ≡ some (b'a' ∷ b'b' ∷ [])
unfolding trim_block start_loop end_loop narrow update_hash new
trim_padded = refl

-- The blank behind a line of one letter stays.
trim_letter :
    Option.map content
      (trim_block (line_of (b'a' ∷ b' ' ∷ [])) (line_start (line_of (b'a' ∷ b' ' ∷ []))))
    ≡ some (b'a' ∷ b' ' ∷ [])
unfolding trim_block start_loop end_loop narrow update_hash new
trim_letter = refl

-- A comment is dropped.
kept_lines :
    remove_blanks b' ' b'#'
      (node (line_of (b'#' ∷ b'a' ∷ [])) nil (node padded nil null null null null) null null null)
    ≡ some (node padded nil null null null null)
unfolding remove_blanks keep_lines is_kept kept_loop new update_hash
kept_lines = refl
