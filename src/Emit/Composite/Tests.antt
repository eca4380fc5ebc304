-- ===== src/Emit/Composite/Tests.antt =====
-- Three fragments in random order.
use mathlib.Core.List.{Perm}
use tactyk.Base.{ℕ, ◌≡◌, ◌++◌, refl, arith, true, false, List, [], ◌∷◌, none, some}
use tactyk.Dblock.Block.{Block, null}
use tactyk.Dblock.Hash.{update_hash, hash_bytes, hash_loop, equals, same_loop}
use tactyk.Dblock.Interpolate.Expansion.{IsTextOf}
use tactyk.Dblock.Interpolate.Filled.{new-IsTextOf}
use tactyk.Dblock.Table.{new_table}
use tactyk.Dblock.Text.{new}
use tactyk.Emit.Composite.{Settings, write_fragments, equals_any}
use tactyk.Emit.Composite.Ordered.{contents, write_fragments-Perm}
use tactyk.Emit.Machine.{Machine}
use tactyk.Util.Random.{small_draws}

abbrev fragment : ℕ → Block
fragment c = record (new 1) { length = 1; bytes = c ∷ [] }

abbrev fragments : List Block
fragments = fragment b'a' ∷ fragment b'b' ∷ fragment b'c' ∷ []

abbrev permuting : Settings
permuting = record { permute = true; remove_duplicates = false; max_ops = 16 }

abbrev machine : Machine
machine = record {
  local_vars = new_table 4;
  subarg_count = 0;
  code_template = new 16;
  asm_code = new 16;
  child = none;
  pl_operand_raw = null;
  pl_operand_resolved = null;
  select_token = null;
  is_terminal = false;
  draws = 4 ∷ 7 ∷ 0 ∷ [];
  iptr = 0;
  target_iptr = 0;
}

equals_any-there : equals_any (fragment b'a') fragments ≡ true
unfolding equals_any equals same_loop new update_hash hash_bytes hash_loop
equals_any-there = refl

write_fragments-Perm_example :
    (order : List Block) × Perm order fragments
    × (ctx' : Machine) × (write_fragments permuting fragments (new 16) machine ≡ some ctx')
    × IsTextOf ctx'.asm_code ([] ++ contents order)
unfolding small_draws
write_fragments-Perm_example =
    write_fragments-Perm permuting 1 fragments (new 16) [] machine
      (omega arith, (omega arith, (omega arith, tt))) (new-IsTextOf 16) (omega arith) (omega arith)
      (omega arith)
