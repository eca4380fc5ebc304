-- ===== src/Emit/Layout.antt =====
-- The second half of tactyk_emit__compile, libtactyk/tactyk_emit.c: the order in which the code of
-- the commands is written to the assembler's input. `codes` is the assembly code of each command.
-- A result `none` is a failed operation of a block, a division by 0, or the end of the draws.
pub mod Shuffled
mod Tests
use mathlib.Core.Option
use tactyk.Base.{
  ℕ, zero, suc, ◌+◌, ◌-◌, ◌%◌, ◌^◌, Bool, List, [], ◌∷◌, ◌++◌, Option, none, some, ltb,
  if◌then◌else◌, length, get_elem?, set,
}
use tactyk.Base.Words.{sub64}
use tactyk.Dblock.Block.{Block}
use tactyk.Dblock.Export.{export_cstring, c_text}
use tactyk.Util.Random.{rand_range}

-- `program_map[i] = i`, from `i` on
unfoldable pub upto : ℕ → ℕ → List ℕ
upto zero i = []
upto (suc count) i = i ∷ upto count (suc i)

-- a 64-bit number that goes through an `int32_t`
unfoldable pub through_int32 : ℕ → ℕ
through_int32 v = let low = v % 2 ^ 32 in if ltb low (2 ^ 31) then low else low + (2 ^ 64 - 2 ^ 32)

-- the loop of the randomization from the entry `i` on
unfoldable pub shuffle_loop : ℕ → ℕ → List ℕ → List ℕ → Option (List ℕ × List ℕ)
shuffle_loop zero i program_map draws = some (program_map, draws)
shuffle_loop (suc rounds) i program_map draws =
    Option.bind (rand_range (length program_map - i) draws) (λ (r, rest).
      Option.bind (get_elem? program_map i) (λ iv.
        Option.bind (get_elem? program_map (i + r)) (λ jv.
          shuffle_loop rounds (suc i)
            (set (set program_map i (through_int32 jv)) (i + r) (through_int32 iv)) rest)))

-- An empty program makes the bound of the loop wrap, and its first round divides by 0.
unfoldable pub layout_map : Bool → ℕ → List ℕ → Option (List ℕ × List ℕ)
layout_map use_executable_layout_randomization program_size draws =
    let shuffled = shuffle_loop (sub64 program_size 1) 0 (upto program_size 0) draws in
    if use_executable_layout_randomization then shuffled else some (upto program_size 0, draws)

-- the code of a command through a buffer with one byte more, and `fprintf` of "%s\n\n"
unfoldable pub print_command : Block → Option (List ℕ)
print_command asm_code =
    Option.bind (export_cstring (suc asm_code.length) asm_code)
      (λ buf. Option.map (λ text. text ++ 10 ∷ 10 ∷ []) (c_text buf))

-- the loop over the map
unfoldable pub print_mapped : List Block → List ℕ → Option (List ℕ)
print_mapped codes [] = some []
print_mapped codes (j ∷ program_map) =
    Option.bind (Option.bind (get_elem? codes j) print_command)
      (λ text. Option.map (λ more. text ++ more) (print_mapped codes program_map))

-- what is written behind the header of the assembler's input
unfoldable pub print_program : Bool → List Block → List ℕ → Option (List ℕ)
print_program use_executable_layout_randomization codes draws =
    Option.bind (layout_map use_executable_layout_randomization (length codes) draws)
      (λ (program_map, rest). print_mapped codes program_map)
