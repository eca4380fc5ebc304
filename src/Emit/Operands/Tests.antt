-- ===== src/Emit/Operands/Tests.antt =====
-- A string operand of two characters.
use tactyk.Base.{◌≡◌, refl, arith, true, false, [], ◌∷◌, none, some}
use tactyk.Dblock.Block.{Block, null, node, nil}
use tactyk.Dblock.Table.{new_table}
use tactyk.Dblock.Table.Map.{new_table-Inv}
use tactyk.Dblock.Text.{new}
use tactyk.Emit.Machine.{Machine}
use tactyk.Emit.Operands.{keyword, string_operand}
use tactyk.Emit.Operands.Quotation.{closed}
use tactyk.Emit.Operands.Packed.{IsPacked, HasVars, string_operand-IsPacked}
use tactyk.Util.Pow2.{next_pow2}

abbrev raw : Block
raw = record (new 0) { length = 4; bytes = b'"' ∷ b'h' ∷ b'i' ∷ b'"' ∷ [] }

abbrev machine : Machine
machine = record {
  local_vars = new_table 4;
  subarg_count = 0;
  code_template = new 16;
  asm_code = new 16;
  child = none;
  pl_operand_raw = node raw nil null null null null;
  pl_operand_resolved = null;
  select_token = null;
  is_terminal = false;
  draws = [];
  iptr = 0;
  target_iptr = 0;
}

machine-HasVars : HasVars machine 1000 3
unfolding new_table next_pow2
machine-HasVars = record {
  inv = (new_table-Inv 4 (omega arith) (omega arith)).0;
  room = omega arith;
  capacity = omega arith;
  small = omega arith;
}

keyword-word : keyword 256 ≡ b'w' ∷ b'o' ∷ b'r' ∷ b'd' ∷ []
unfolding keyword
keyword-word = refl

string_operand-IsPacked_example :
    (ctx' : Machine) × (string_operand machine ≡ some (ctx', true))
    × IsPacked (b'h' ∷ b'i' ∷ []) machine ctx'
unfolding new
string_operand-IsPacked_example =
    string_operand-IsPacked machine raw nil null null null null (b'h' ∷ b'i' ∷ []) 1000 refl
      (closed (b'h' ∷ b'i' ∷ []) [] refl refl) (omega arith, (omega arith, tt)) machine-HasVars
