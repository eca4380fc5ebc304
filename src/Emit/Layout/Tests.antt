-- ===== src/Emit/Layout/Tests.antt =====
-- A program of three commands.
use mathlib.Core.Option
use tactyk.Base.{ℕ, ◌≡◌, refl, true, List, [], ◌∷◌, none, some}
use tactyk.Dblock.Block.{Block}
use tactyk.Dblock.Text.{new}
use tactyk.Emit.Layout.{upto, through_int32, shuffle_loop, layout_map}
use tactyk.Util.Random.{rand_range, rand_loop}

abbrev code : ℕ → Block
code c = record (new 1) { length = 1; bytes = c ∷ [] }

abbrev codes : List Block
codes = code b'a' ∷ code b'b' ∷ code b'c' ∷ []

layout_map-swaps : layout_map true 3 (5 ∷ 0 ∷ []) ≡ some (2 ∷ 1 ∷ 0 ∷ [], [])
unfolding layout_map shuffle_loop upto through_int32 rand_range rand_loop Option.bind
layout_map-swaps = refl

layout_map-empty : layout_map true 0 (5 ∷ []) ≡ none
unfolding layout_map shuffle_loop upto rand_range rand_loop Option.bind
layout_map-empty = refl
