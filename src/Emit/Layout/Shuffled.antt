-- ===== src/Emit/Layout/Shuffled.antt =====
-- Whatever is drawn, the code of every command is written, and once.
use mathlib.Core.Option
use mathlib.Core.List.{Perm}
use mathlib.Core.List.Perm
use tactyk.Base.{ℕ, ◌<◌, List, [], ◌∷◌, ◌++◌, Option, some}
use tactyk.Dblock.Block.{Block}
use tactyk.Emit.Layout.{print_command}

AllBelow : ℕ → List ℕ → Type 0
AllBelow n [] = Unit
AllBelow n (x ∷ xs) = (x < n) × AllBelow n xs

-- What the rounds make of the map.
record IsShuffled (n : ℕ) (before after : List ℕ) : Type 0 where
  reordered : Perm after before
  below : AllBelow n after

-- the commands printed in the order they stand in
unfoldable pub print_all : List Block → Option (List ℕ)
print_all [] = some []
print_all (asm_code ∷ codes) =
    Option.bind (print_command asm_code)
      (λ text. Option.map (λ more. text ++ more) (print_all codes))
