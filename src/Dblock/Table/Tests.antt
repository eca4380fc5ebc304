-- ===== src/Dblock/Table/Tests.antt =====
-- Runs of the table code on small inputs, and the theorems at concrete tables.
use mathlib.Core.Option
use tactyk.Base.{◌≡◌, ◌≤◌, ◌<◌, ◌*◌, refl, arith, some, List, [], ◌∷◌}
use tactyk.Dblock.Block.{empty, pointer}
use tactyk.Dblock.Hash.{equals}
use tactyk.Dblock.Persist.{mark_value}
use tactyk.Dblock.Hash.{same_loop, hash_bytes, hash_loop, hash_step, scramble, update_hash}
use tactyk.Dblock.Persist.{set_persistence_code, memcpy, from_c_string, shallow_copy}
use tactyk.Dblock.Table.{
  Table, Key, c_string, put, get, delete, new_table, new_slots, rebuild_table, reinsert, put_found,
  store, stored_key, from_string_or_dblock, table_find, probe, scan, value_at, key_at, set_slot,
  set_value, capacity_of,
}
use tactyk.Dblock.Table.Inv.{Inv}
use tactyk.Dblock.Table.Map.{IsPut, put-IsPut, new_table-Inv}
use tactyk.Dblock.Table.Refine.{Op, put_op, get_op, delete_op, run, run_spec, run_refines}
use tactyk.Util.Pow2.{next_pow2}

abbrev apple : Key
apple = c_string (b'a' ∷ b'p' ∷ b'p' ∷ b'l' ∷ b'e' ∷ [])

abbrev pear : Key
pear = c_string (b'p' ∷ b'e' ∷ b'a' ∷ b'r' ∷ [])

abbrev long_name : Key
long_name =
    c_string (b'o' ∷ b'n' ∷ b'e' ∷ b'-' ∷ b't' ∷ b'w' ∷ b'o' ∷ b'-' ∷ b't' ∷ b'h' ∷ b'r' ∷ [])

-- The second and the third entry make the table of one slot double, twice.
abbrev calls : List Op
calls =
    put_op apple (pointer 10)
    ∷ put_op pear (pointer 20)
    ∷ put_op long_name (pointer 30)
    ∷ get_op apple
    ∷ delete_op pear
    ∷ get_op pear
    ∷ put_op apple (pointer 40)
    ∷ get_op apple
    ∷ get_op long_name
    ∷ []

run-calls : run (new_table 1) calls ≡ some (pointer 10 ∷ empty ∷ pointer 40 ∷ pointer 30 ∷ [])
unfolding run Option.bind new_table next_pow2 put get delete new_slots rebuild_table reinsert
    put_found store stored_key from_string_or_dblock table_find probe scan equals same_loop
    hash_bytes hash_loop hash_step scramble from_c_string update_hash set_persistence_code
    mark_value memcpy value_at key_at set_slot set_value shallow_copy
run-calls = refl

one_slot-Inv : Inv (new_table 1)
one_slot-Inv = (new_table-Inv 1 (omega arith) (omega arith)).0

put-IsPut_example :
    (t' : Table) × (put 2 (new_table 1) apple (pointer 10) ≡ some t')
    × IsPut (new_table 1) apple (mark_value (new_table 1).header.persistence_code (pointer 10)) t'
unfolding next_pow2 new_table
put-IsPut_example = put-IsPut 0 one_slot-Inv apple tt (pointer 10) (omega arith)

run_refines_example :
    run (new_table 1) calls
    ≡ some (run_spec (get (new_table 1)) (new_table 1).header.persistence_code [] calls)
unfolding next_pow2 new_table
run_refines_example =
    run_refines (new_table 1) calls one_slot-Inv (omega arith) (omega arith) (omega arith)

new_table-Inv_example :
    Inv (new_table 5)
    × (5 ≤ capacity_of (new_table 5))
    × (capacity_of (new_table 5) < 2 * 5)
    × ((q : Key) → get (new_table 5) q ≡ empty)
new_table-Inv_example = new_table-Inv 5 (omega arith) (omega arith)
