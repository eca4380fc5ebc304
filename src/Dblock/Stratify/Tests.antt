-- ===== src/Dblock/Stratify/Tests.antt =====
-- Small texts, and the theorem at one.
use tactyk.Base.{ℕ, zero, suc, ◌≡◌, refl, arith, true, List, [], ◌∷◌}
use tactyk.Dblock.Block.{Block}
use tactyk.Dblock.Hash.{update_hash}
use tactyk.Dblock.Text.{new}
use tactyk.Dblock.Stratify.{
  State, ok, invalid_indentation, undefined, indent, indent_loop, link_peer, link_child, place,
  place_all, levels_of, stratify_levels, stratify,
}
use tactyk.Dblock.Stratify.Shape.{Outline, nil, entry, levels, Represents}
use tactyk.Dblock.Stratify.Links.{stratify-Represents}

-- a fixed line of `n` spaces and a letter
abbrev spaced : ℕ → List ℕ
spaced zero = b'a' ∷ []
spaced (suc n) = b' ' ∷ spaced n

abbrev text_line : ℕ → Block
text_line n = record (new 0) { length = suc n; bytes = spaced n; fixed = true }

-- a
--   a
--   a
-- a
abbrev small : Outline
small = entry 1 (entry 0 nil (entry 0 nil nil)) (entry 0 nil nil)

small-levels :
    levels_of b' ' (text_line 0 ∷ text_line 2 ∷ text_line 2 ∷ text_line 0 ∷ []) ≡ levels 0 small
unfolding indent indent_loop new update_hash
small-levels = refl

stratify-Represents_example :
    (s : State) × (stratify (text_line 0 ∷ text_line 2 ∷ text_line 2 ∷ text_line 0 ∷ []) b' '
      ≡ ok s)
    × Represents s.next s.child 0 small
unfolding new update_hash
stratify-Represents_example =
    stratify-Represents b' ' (text_line 0) (text_line 2 ∷ text_line 2 ∷ text_line 0 ∷ []) 1 0
      (entry 0 nil (entry 0 nil nil)) (entry 0 nil nil) refl small-levels (omega arith)
      (omega arith)

-- A single line is followed to NULL; a return to a level that was never used reads an entry of the
-- stack that was not set, and one to a level that was left is reported.
bad-levels :
    (stratify_levels (0 ∷ []) ≡ undefined)
    × (stratify_levels (0 ∷ 4 ∷ 2 ∷ []) ≡ undefined)
    × (stratify_levels (0 ∷ 2 ∷ 0 ∷ 4 ∷ 2 ∷ []) ≡ invalid_indentation)
unfolding stratify_levels place_all place link_peer link_child
bad-levels = (refl, refl, refl)
