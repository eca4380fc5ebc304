-- ===== src/Emit/Compile/Tests.antt =====
-- A script of a skipped command and another one, with an interpreter that writes one byte.
use mathlib.Core.Option
use mathlib.Core.Option.{none-ne-some, some-injective}
use tactyk.Base.{
  ℕ, zero, suc, ◌≡◌, refl, arith, Bool, true, false, List, [], ◌∷◌, Option, none, some, ltb,
  if◌then◌else◌,
}
use tactyk.Dblock.Block.{DBlock, null, pointer}
use tactyk.Dblock.Hash.{update_hash, equals, same_loop, hash_bytes, hash_loop, hash_step, scramble}
use tactyk.Dblock.Interpolate.Filled.{new-IsTextOf}
use tactyk.Dblock.Number.{decimal, from_uint}
use tactyk.Dblock.Persist.{from_c_string, memcpy, mark_value, set_persistence_code, shallow_copy}
use tactyk.Dblock.Table.{
  Table, c_string, get, put, put_found, store, new_table, new_slots, table_find, probe, scan,
  value_at, key_at, set_slot, set_value, stored_key, from_string_or_dblock, rebuild_table, reinsert,
  reset_table,
}
use tactyk.Dblock.Text.{new, content, append, append_bytes, expand, grow, write_at, clear}
use tactyk.Emit.Compile.{
  Compiler, Subroutine, number_line, number_loop, put_child, start_instruction, number_instruction,
  generated, branch_to, insert_branch, exec_instruction, put_labels, subroutine_of, compile_command,
  compile_loop,
}
use tactyk.Emit.Compile.Placed.{Placed, compile_loop-Placed}
use tactyk.Emit.Machine.{Machine, put_var}
use tactyk.Emit.Script.{ScriptCommand}
use tactyk.Emit.Script.Nesting.{command_labels}
use tactyk.Util.Pow2.{next_pow2}

abbrev or_new : Option Table → Table
or_new none = new_table 1
or_new (some t) = t

abbrev instructions : Table
instructions = or_new (
    Option.bind (put 2 (new_table 4) (c_string (b'g' ∷ b'o' ∷ [])) (pointer 1))
      (λ t. put 2 t (c_string (b'n' ∷ b'o' ∷ [])) (pointer 0)))

abbrev subroutine : ℕ → Subroutine
subroutine zero = record { vopcfg = null; skip = true }
subroutine (suc n) = record { vopcfg = null; skip = false }

abbrev write_byte : Machine → Option (Machine × Bool)
write_byte ctx =
    Option.map (λ b. (record ctx { asm_code = b }, true)) (append_bytes ctx.asm_code (b'x' ∷ []))

abbrev short_exec : DBlock → Machine → Option (Machine × Bool)
short_exec vopcfg ctx = if ltb ctx.asm_code.length 1000 then write_byte ctx else none

abbrev compiler : Compiler
compiler = record {
  instruction_table = instructions;
  subroutine_at = subroutine;
  exec = short_exec;
  use_executable_layout_randomization = true;
  next_instruction = none;
}

abbrev command_of : List ℕ → List DBlock → ScriptCommand
command_of name labels = record {
  name = from_c_string name;
  tokens = null;
  pl_code = null;
  labels = labels;
  asm_code = new 4096;
  child = none;
}

abbrev script : List ScriptCommand
script =
    command_of (b'n' ∷ b'o' ∷ []) (from_c_string (b'a' ∷ []) ∷ [])
    ∷ command_of (b'g' ∷ b'o' ∷ []) (from_c_string (b'b' ∷ []) ∷ [])
    ∷ []

abbrev machine : Machine
machine = record {
  local_vars = new_table 16;
  subarg_count = 0;
  code_template = new 16;
  asm_code = new 16;
  child = none;
  pl_operand_raw = null;
  pl_operand_resolved = null;
  select_token = null;
  is_terminal = false;
  draws = [];
  iptr = 0;
  target_iptr = 0;
}

abbrev result : Option (List ScriptCommand × Machine)
result = compile_loop compiler script 0 [] machine

abbrev or_start : Option (List ScriptCommand × Machine) → List ScriptCommand × Machine
or_start none = (script, machine)
or_start (some r) = r

abbrev codes : List ScriptCommand → List (List ℕ)
codes [] = []
codes (cmd ∷ commands) = content cmd.asm_code ∷ codes commands

-- "a:\nb:\ncmd#0:\ncmd#1:\nx"
compile_loop-script :
    Option.map (λ (r : List ScriptCommand × Machine). codes r.0) result
    ≡ some (
        []
        ∷ (b'a' ∷ b':' ∷ 10 ∷ b'b' ∷ b':' ∷ 10 ∷ b'c' ∷ b'm' ∷ b'd' ∷ b'#' ∷ b'0' ∷ b':' ∷ 10 ∷ b'c'
            ∷ b'm' ∷ b'd' ∷ b'#' ∷ b'1' ∷ b':' ∷ 10 ∷ b'x' ∷ [])
        ∷ [])
unfolding get put put_found store table_find probe scan value_at key_at new_table new_slots
    next_pow2 new update_hash equals same_loop hash_bytes hash_loop hash_step scramble
    from_string_or_dblock set_slot set_value stored_key rebuild_table reinsert reset_table append
    append_bytes expand grow write_at clear from_c_string memcpy mark_value set_persistence_code
    shallow_copy decimal from_uint number_line number_loop put_child start_instruction
    number_instruction generated branch_to insert_branch exec_instruction put_labels subroutine_of
    compile_command compile_loop put_var Option.bind
compile_loop-script = refl

compile_loop-Placed_example : Placed compiler [] 0 0 script (or_start result).0
unfolding command_labels get put put_found store table_find probe scan value_at key_at new_table
    new_slots next_pow2 new update_hash equals same_loop hash_bytes hash_loop hash_step scramble
    from_string_or_dblock set_slot set_value stored_key rebuild_table reinsert reset_table append
    append_bytes expand grow write_at clear from_c_string memcpy mark_value set_persistence_code
    shallow_copy decimal from_uint number_line number_loop put_child start_instruction
    number_instruction generated branch_to insert_branch exec_instruction put_labels subroutine_of
    compile_command compile_loop put_var Option.bind
compile_loop-Placed_example =
    compile_loop-Placed compiler script (or_start result).0 0 [] machine (or_start result).1
      (new-IsTextOf 4096, (new-IsTextOf 4096, tt)) (omega arith) refl
