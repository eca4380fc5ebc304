-- ===== src/Emit/Interpreter/Tests.antt =====
-- A subroutine that selects on its operand and writes the code of the first case that fits.
use mathlib.Core.Option
use tactyk.Base.{ℕ, zero, suc, ◌≡◌, refl, Bool, true, false, List, [], ◌∷◌, Option, none, some}
use tactyk.Dblock.Block.{DBlock, null, node, nil, pointer}
use tactyk.Dblock.Export.{equals_c_string, same_start}
use tactyk.Dblock.Hash.{update_hash, equals, same_loop, hash_bytes, hash_loop, hash_step, scramble}
use tactyk.Dblock.Interpolate.{interpolate, scan_raw, scan_var, name_loop, write_var, write_value}
use tactyk.Dblock.Persist.{from_c_string, memcpy, mark_value, set_persistence_code, shallow_copy}
use tactyk.Dblock.Table.{
  Table, c_string, get, put, put_found, store, new_table, new_slots, table_find, probe, scan,
  value_at, key_at, set_slot, set_value, stored_key, from_string_or_dblock, header_of,
  rebuild_table, reinsert,
}
use tactyk.Dblock.Text.{
  new, content, append, append_char, append_bytes, expand, grow, write_at, clear, getchar,
}
use tactyk.Emit.Interpreter.{call_operator, operate, code, code_target, code_lines, append_code}
use tactyk.Emit.Machine.{Visa, Machine, Operator, fetch_var, store_var, put_var}
use tactyk.Emit.Operators.{
  exec_subroutine, exec_lines, run_found, call_at, select_operand, exec_selector, select_lines,
  match_found, case_of, guarded, any_token, exec_anyway,
}
use tactyk.Util.Pow2.{next_pow2}

abbrev or_new : Option Table → Table
or_new none = new_table 1
or_new (some t) = t

abbrev select_name : List ℕ
select_name = b's' ∷ b'o' ∷ []

abbrev case_name : List ℕ
case_name = b'c' ∷ b'a' ∷ []

abbrev code_name : List ℕ
code_name = b'c' ∷ b'o' ∷ []

abbrev operators : Table
operators = or_new (
    Option.bind (put 2 (new_table 4) (c_string select_name) (pointer 0)) (λ t.
      Option.bind (put 2 t (c_string case_name) (pointer 1))
        (λ u. put 2 u (c_string code_name) (pointer 2))))

abbrev operator_at : ℕ → Option Operator
operator_at zero = some Operator.select_operand
operator_at (suc zero) = some Operator.case_of
operator_at (suc (suc n)) = some Operator.code

abbrev visa : Visa
visa = record {
  namechars = λ c. false;
  global_vars = new_table 1;
  operator_table = operators;
  operator_at = operator_at;
  typespec_table = new_table 1;
  subroutine_table = new_table 1;
  vopcfg_at = λ p. null;
  symbol_table = λ d. none;
  use_extra_permutations = true;
  rounds = 8;
  try_parsedouble = λ b. none;
}

abbrev text : List ℕ → DBlock → DBlock
text t next = node (header_of (from_c_string t)) nil next null null null

abbrev line : List ℕ → DBlock → DBlock → DBlock → DBlock
line name argument child next =
    node (header_of (from_c_string name)) nil next child (text name argument) null

-- a case of one letter, which writes another one
abbrev case_line : ℕ → ℕ → DBlock → DBlock
case_line letter written next =
    line case_name (text (letter ∷ []) null) (line code_name null (text (written ∷ []) null) null)
      next

abbrev vopcfg : DBlock
vopcfg =
    line [] null
      (line select_name null (case_line b'a' b'x' (case_line b'b' b'y' (case_line b'b' b'z' null)))
        null)
      null

abbrev machine : Machine
machine = record {
  local_vars = new_table 4;
  subarg_count = 0;
  code_template = new 16;
  asm_code = new 16;
  child = none;
  pl_operand_raw = text (b'b' ∷ []) null;
  pl_operand_resolved = null;
  select_token = null;
  is_terminal = false;
  draws = [];
  iptr = 0;
  target_iptr = 0;
}

abbrev written : Machine × Bool → List ℕ
written (ctx, result) = content ctx.asm_code

exec_subroutine-case :
    Option.map written (exec_subroutine visa (call_operator 8 visa) vopcfg machine)
    ≡ some (b'y' ∷ 10 ∷ [])
unfolding exec_subroutine exec_lines run_found call_at select_operand exec_selector select_lines
    match_found case_of guarded any_token exec_anyway call_operator operate code code_target
    code_lines append_code fetch_var store_var put_var interpolate scan_raw scan_var name_loop
    write_var write_value equals_c_string same_start get put put_found store table_find probe scan
    value_at key_at new_table new_slots next_pow2 new update_hash equals same_loop hash_bytes
    hash_loop hash_step scramble from_string_or_dblock set_slot set_value stored_key rebuild_table
    reinsert append append_char append_bytes expand grow write_at clear getchar from_c_string memcpy
    mark_value set_persistence_code shallow_copy Option.bind
exec_subroutine-case = refl
