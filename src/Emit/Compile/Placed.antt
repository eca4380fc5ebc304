-- ===== src/Emit/Compile/Placed.antt =====
-- Where the labels of a program stand in the code of its commands.
use mathlib.Core.Option.{some-injective}
use mathlib.Core.List.{append_assoc}
use tactyk.Base.{
  ℕ, suc, ◌+◌, ◌*◌, ◌^◌, ◌≤◌, ◌≡◌, inl, inr, refl, sym, ap, ◌∙◌, subst, arith, List, [], ◌∷◌, ◌++◌,
  some, true, false, length, length-append, Bool-cases,
}
use tactyk.Dblock.Block.{Block, DBlock}
use tactyk.Dblock.Interpolate.Expansion.{IsTextOf}
use tactyk.Dblock.Table.{Key, get, header_of}
use tactyk.Dblock.Text.{content}
use tactyk.Emit.Compile.{Compiler, Subroutine, subroutine_of, compile_loop}
use tactyk.Emit.Machine.{Machine}
use tactyk.Emit.Script.{ScriptCommand}
use tactyk.Emit.Script.Nesting.{command_labels, bound, mapped, taken_if, left_if}
use tactyk.Emit.Compile.Lines.{label_lines}
use tactyk.Emit.Compile.Instruction.{IsCompiled, compile_command-IsCompiled}

-- The subroutine of a command, found under its name.
abbrev pub IsSubroutine : Compiler → ScriptCommand → Subroutine → Type 0
IsSubroutine compiler cmd sub =
    subroutine_of compiler (get compiler.instruction_table (Key.dblock cmd.name)) ≡ some sub

-- The commands with their code, from the command `i` on, where `labels` wait and the number `next` is
-- the first that was not put: a command whose subroutine is to be skipped keeps what it had and hands
-- its labels on; the code of another one is made behind the labels that wait and its own.
pub data Placed (compiler : Compiler)
    : List DBlock → ℕ → ℕ → List ScriptCommand → List ScriptCommand → Type 0 where
  nil : {labels : List DBlock} {next i : ℕ} → Placed compiler labels next i [] []
  skipped :
      {labels : List DBlock} {next i : ℕ} {cmd : ScriptCommand}
      {commands compiled : List ScriptCommand} (sub : Subroutine)
      → IsSubroutine compiler cmd sub
      → sub.skip ≡ true
      → Placed compiler (labels ++ cmd.labels) next (suc i) commands compiled
      → Placed compiler labels next i (cmd ∷ commands) (cmd ∷ compiled)
  placed :
      {labels : List DBlock} {next i : ℕ} {cmd : ScriptCommand}
      {commands compiled : List ScriptCommand} (sub : Subroutine) (asm_code : Block) (next' : ℕ)
      → IsSubroutine compiler cmd sub
      → sub.skip ≡ false
      → IsCompiled compiler sub.vopcfg cmd.tokens (labels ++ cmd.labels) next i asm_code next'
      → Placed compiler [] next' (suc i) commands compiled
      → Placed compiler labels next i
          (cmd ∷ commands)
          (record cmd { asm_code = asm_code } ∷ compiled)

label_lines-append :
    (xs ys : List DBlock) → label_lines (xs ++ ys) ≡ label_lines xs ++ label_lines ys
label_lines-append [] ys = refl
label_lines-append (x ∷ xs) ys =
    ap (λ l. content (header_of x) ++ (b':' ∷ 10 ∷ l)) (label_lines-append xs ys)
    ∙ sym (append_assoc (content (header_of x)) (b':' ∷ 10 ∷ label_lines xs) (label_lines ys))

-- A script whose commands have no code yet.
abbrev pub IsFresh : List ScriptCommand → Type 0
IsFresh [] = Unit
IsFresh (cmd ∷ commands) = IsTextOf cmd.asm_code [] × IsFresh commands

-- With any interpreter, such as the one of the virtual instruction set: when no command has code yet,
-- the lines of all labels and 30 bytes for each command stay below 2 ^ 61, and the loop over the
-- commands returns, every command has a subroutine; one that is to be skipped keeps its empty code
-- and its labels wait; for another one the interpreter is called on its tokens where the code is the lines of the
-- labels that wait and of its own, then the lines of all numbers from the first not put to its own,
-- it returns true with code of another length, and the code is what it leaves, or what it leaves
-- after the branch to the next instruction.
pub compile_loop-Placed :
    (compiler : Compiler) (commands compiled : List ScriptCommand) (i : ℕ) (labels : List DBlock)
    (ctx ctx' : Machine)
    → IsFresh commands
    → length (label_lines (labels ++ command_labels commands)) + 30 * (i + length commands) ≤ 2 ^ 61
    → compile_loop compiler commands i labels ctx ≡ some (compiled, ctx')
    → Placed compiler labels ctx.iptr i commands compiled
unfolding compile_loop command_labels
compile_loop-Placed compiler [] compiled i labels ctx ctx' fresh fits e =
    subst (Placed compiler labels ctx.iptr i [])
      (ap (λ (r : List ScriptCommand × Machine). r.0) (some-injective _ _ e)) nil
compile_loop-Placed compiler (cmd ∷ commands) compiled i labels ctx ctx' (empty_code, fresh) fits
      e =
    let (sub, e1, f1) = bound _ _ (compiled, ctx') e in
    let together =
      ap (λ l. length (label_lines l)) (append_assoc labels cmd.labels (command_labels commands)) in
    elim (Bool-cases sub.skip) [
      | inl skip ↦
          let ((cs, c), e2, f2) = mapped _ _ (compiled, ctx') (taken_if _ _ _ _ skip f1) in
          subst (Placed compiler labels ctx.iptr i (cmd ∷ commands))
            (ap (λ (r : List ScriptCommand × Machine). r.0) f2)
            (skipped sub e1 skip (
              compile_loop-Placed compiler commands cs (suc i) (labels ++ cmd.labels) ctx c fresh
                (omega (arith, together, fits)) e2))
      | inr run ↦
          let (c, e2, f2) = bound _ _ (compiled, ctx') (left_if _ _ _ _ run f1) in
          let ((cs, c'), e3, f3) = mapped _ _ (compiled, ctx') f2 in
          let split =
            ap length (label_lines-append (labels ++ cmd.labels) (command_labels commands))
            ∙ length-append (label_lines (labels ++ cmd.labels)) _ in
          let made =
            compile_command-IsCompiled compiler sub i (labels ++ cmd.labels) cmd ctx c empty_code
              (omega (arith, together, split, fits)) e2 in
          subst (Placed compiler labels ctx.iptr i (cmd ∷ commands))
            (ap (λ (r : List ScriptCommand × Machine). r.0) f3)
            (placed sub c.asm_code c.iptr e1 run made (
              compile_loop-Placed compiler commands cs (suc i) [] c c' fresh
                (omega (arith, together, split, fits)) e3))
    ]
