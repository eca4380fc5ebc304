-- ===== src/Emit/Compile.antt =====
-- tactyk_emit__ExecInstruction and the first half of tactyk_emit__compile, libtactyk/tactyk_emit.c: the
-- assembly code of each command. `exec` is tactyk_emit__ExecSubroutine on the structured text of an
-- instruction.
-- A result `none` is the error handler's exit, a failed operation of a block or a table, or a read of
-- a NULL pointer.
pub mod Lines
pub mod Instruction
pub mod Placed
mod Tests
use mathlib.Core.Option
use tactyk.Base.{
  ℕ, zero, suc, ◌+◌, ◌-◌, Bool, true, false, not, ◌&&◌, List, [], ◌∷◌, ◌++◌, Option, none, some,
  ◌==◌, if◌then◌else◌,
}
use tactyk.Dblock.Block.{Block, DBlock, null, Value, empty, pseudonull, block, pointer}
use tactyk.Dblock.Number.{from_uint}
use tactyk.Dblock.Persist.{from_c_string}
use tactyk.Dblock.Table.{Table, Key, c_string, get, header_of, reset_table}
use tactyk.Dblock.Text.{append, clear}
use tactyk.Emit.Machine.{Machine, template_selector, alone, put_var}
use tactyk.Emit.Script.{ScriptCommand, Codeblock}

-- What compile uses of struct tactyk_emit__subroutine_spec: the function of an instruction is always
-- tactyk_emit__ExecInstruction.
pub record Subroutine : Type 0 where
  pub vopcfg : DBlock
  pub skip : Bool

-- the settings, and what stays as it is while the commands are compiled; `next_instruction` is the
-- structured text of ctx->insert_branch_to_next_instruction
pub record Compiler : Type 0 where
  pub instruction_table : Table
  pub subroutine_at : ℕ → Subroutine
  pub exec : DBlock → Machine → Option (Machine × Bool)
  pub use_executable_layout_randomization : Bool
  pub next_instruction : Option DBlock

abbrev pub command_prefix : List ℕ
command_prefix = b'c' ∷ b'm' ∷ b'd' ∷ b'#' ∷ []

-- ":\n"
abbrev pub colon : List ℕ
colon = b':' ∷ 10 ∷ []

abbrev pub append_text : List ℕ → Block → Option Block
append_text text out = append out (header_of (from_c_string text))

-- one label of the command itself
unfoldable pub number_line : ℕ → Block → Option Block
number_line index asm_code =
    Option.bind (append_text command_prefix asm_code)
      (λ a. Option.bind (append a (header_of (from_uint index))) (append_text colon))

-- `while (ctx->iptr <= ctx->target_iptr)`
unfoldable pub number_loop : ℕ → Machine → Option Machine
number_loop zero ctx = some ctx
number_loop (suc rounds) ctx =
    Option.bind (number_line ctx.iptr ctx.asm_code)
      (λ asm_code. number_loop rounds (record ctx { asm_code = asm_code; iptr = suc ctx.iptr }))

-- the variables with the labels of the codeblock below the command
unfoldable pub put_child : Option Codeblock → Machine → Option Machine
put_child none ctx = some ctx
put_child (some child) ctx =
    Option.bind
      (put_var
        (c_string (
          b'$' ∷ b'C' ∷ b'O' ∷ b'D' ∷ b'E' ∷ b'B' ∷ b'L' ∷ b'O' ∷ b'C' ∷ b'K' ∷ b'_' ∷ b'C' ∷ b'H'
          ∷ b'I' ∷ b'L' ∷ b'D' ∷ b'_' ∷ b'H' ∷ b'E' ∷ b'A' ∷ b'D' ∷ b'E' ∷ b'R' ∷ []))
        (block child.header_label) ctx)
      (λ c.
        Option.bind
          (put_var
            (c_string (
              b'$' ∷ b'C' ∷ b'O' ∷ b'D' ∷ b'E' ∷ b'B' ∷ b'L' ∷ b'O' ∷ b'C' ∷ b'K' ∷ b'_' ∷ b'C'
              ∷ b'H' ∷ b'I' ∷ b'L' ∷ b'D' ∷ b'_' ∷ b'F' ∷ b'I' ∷ b'R' ∷ b'S' ∷ b'T' ∷ []))
            (block child.first_label) c)
          (put_var
            (c_string (
              b'$' ∷ b'C' ∷ b'O' ∷ b'D' ∷ b'E' ∷ b'B' ∷ b'L' ∷ b'O' ∷ b'C' ∷ b'K' ∷ b'_' ∷ b'C'
              ∷ b'H' ∷ b'I' ∷ b'L' ∷ b'D' ∷ b'_' ∷ b'C' ∷ b'L' ∷ b'O' ∷ b'S' ∷ b'E' ∷ []))
            (block child.close_label)))

-- Up to the loop: the template and the variables are reset. The template's variable is the block of
-- the template itself.
unfoldable pub start_instruction : DBlock → Machine → Option Machine
start_instruction tokens ctx = Option.bind (clear ctx.code_template) (λ template.
    Option.bind
      (put_var (c_string template_selector) (block (alone template)) (record ctx {
        local_vars = reset_table true ctx.local_vars;
        code_template = template;
        subarg_count = 0;
        is_terminal = false;
        pl_operand_raw = tokens;
        pl_operand_resolved = null;
      }))
      (put_var
        (c_string (
          b'$' ∷ b'C' ∷ b'O' ∷ b'M' ∷ b'M' ∷ b'A' ∷ b'N' ∷ b'D' ∷ b'_' ∷ b'I' ∷ b'N' ∷ b'D' ∷ b'E'
          ∷ b'X' ∷ b'_' ∷ b'N' ∷ b'E' ∷ b'X' ∷ b'T' ∷ []))
        (block (from_uint (suc ctx.target_iptr)))))

-- `cmd_idx`, which is NULL where the loop has no round
abbrev pub command_index : ℕ → ℕ → Value
command_index rounds target_iptr = if rounds == 0 then empty else block (from_uint target_iptr)

-- from the loop to the call of the interpreter
unfoldable pub number_instruction : Machine → Option Machine
number_instruction ctx =
    let rounds = suc ctx.target_iptr - ctx.iptr in
    Option.bind (number_loop rounds ctx) (λ c.
      Option.bind
        (put_var
          (c_string (
            b'$' ∷ b'C' ∷ b'O' ∷ b'M' ∷ b'M' ∷ b'A' ∷ b'N' ∷ b'D' ∷ b'_' ∷ b'I' ∷ b'N' ∷ b'D' ∷ b'E'
            ∷ b'X' ∷ []))
          (command_index rounds ctx.target_iptr) c)
        (λ c'. Option.bind (put_child ctx.child c') (λ c''.
          Option.bind
            (append (header_of (from_c_string command_prefix))
              (header_of (from_uint (suc ctx.target_iptr))))
            (λ label.
              put_var
                (c_string (
                  b'$' ∷ b'N' ∷ b'E' ∷ b'X' ∷ b'T' ∷ b'_' ∷ b'I' ∷ b'N' ∷ b'S' ∷ b'T' ∷ b'R' ∷ b'U'
                  ∷ b'C' ∷ b'T' ∷ b'I' ∷ b'O' ∷ b'N' ∷ []))
                (block (alone label)) c''))))

-- Code must have been generated.
unfoldable pub generated : ℕ → Machine × Bool → Option Machine
generated code_len (ctx, result) =
    let grown = if ctx.asm_code.length == code_len then none else some ctx in
    if result then grown else none

-- the branch to the next instruction, whose result is not looked at
unfoldable pub branch_to : Compiler → Option DBlock → Machine → Option Machine
branch_to compiler none ctx = some ctx
branch_to compiler (some vopcfg) ctx =
    let branch = Option.map (λ r. r.0) (compiler.exec vopcfg ctx) in
    if compiler.use_executable_layout_randomization && not ctx.is_terminal then branch else some ctx

unfoldable pub insert_branch : Compiler → Machine → Option Machine
insert_branch compiler ctx = branch_to compiler compiler.next_instruction ctx

abbrev pub finish_instruction : Machine → Machine
finish_instruction ctx = record ctx { pl_operand_raw = null; pl_operand_resolved = null }

unfoldable pub exec_instruction : Compiler → DBlock → DBlock → Machine → Option Machine
exec_instruction compiler vopcfg tokens ctx = Option.bind (start_instruction tokens ctx) (λ c.
    Option.bind (number_instruction c) (λ c'. Option.bind (compiler.exec vopcfg c') (λ r.
      Option.bind (generated c'.asm_code.length r)
        (λ c''. Option.map finish_instruction (insert_branch compiler c'')))))

-- The labels that wait, each in a line of its own.
unfoldable pub put_labels : List DBlock → Block → Option Block
put_labels [] asm_code = some asm_code
put_labels (label ∷ labels) asm_code =
    Option.bind (append asm_code (header_of label))
      (λ a. Option.bind (append_text colon a) (put_labels labels))

unfoldable pub subroutine_of : Compiler → Value → Option Subroutine
subroutine_of compiler (pointer p) = some (compiler.subroutine_at p)
subroutine_of compiler empty = none
subroutine_of compiler pseudonull = none
subroutine_of compiler (block d) = none

-- a command that is not skipped, with the labels before it
unfoldable pub compile_command :
    Compiler → Subroutine → ℕ → List DBlock → ScriptCommand → Machine → Option Machine
compile_command compiler sub i labels cmd ctx =
    Option.bind (put_labels labels cmd.asm_code) (λ asm_code.
      exec_instruction compiler sub.vopcfg cmd.tokens
        (record ctx { target_iptr = i; asm_code = asm_code; child = cmd.child }))

-- The loop over the commands from the index `i` on, with the labels that wait: the commands with
-- their code. The labels behind the last command that is not skipped are never put.
unfoldable pub compile_loop :
    Compiler
    → List ScriptCommand
    → ℕ
    → List DBlock
    → Machine
    → Option (List ScriptCommand × Machine)
compile_loop compiler [] i labels ctx = some ([], ctx)
compile_loop compiler (cmd ∷ commands) i labels ctx =
    Option.bind (subroutine_of compiler (get compiler.instruction_table (Key.dblock cmd.name)))
      (λ sub.
        let skipped =
          Option.map (λ (cs, c). (cmd ∷ cs, c))
            (compile_loop compiler commands (suc i) (labels ++ cmd.labels) ctx) in
        let compiled =
          Option.bind (compile_command compiler sub i (labels ++ cmd.labels) cmd ctx) (λ c.
            Option.map (λ (cs, c'). (record cmd { asm_code = c.asm_code } ∷ cs, c'))
              (compile_loop compiler commands (suc i) [] c)) in
        if sub.skip then skipped else compiled)
