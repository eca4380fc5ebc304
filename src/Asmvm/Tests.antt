-- ===== src/Asmvm/Tests.antt =====
-- A small program and context: runs of the functions, and the theorems at them.
use mathlib.Core.Option
use tactyk.Base.{ℕ, zero, suc, ◌+◌, ◌<◌, ◌≡◌, ◌≢◌, refl, arith, List, [], ◌∷◌, none, some}
use tactyk.Dblock.Block.{pointer}
use tactyk.Dblock.Hash.{equals, same_loop, hash_bytes, hash_loop, hash_step, scramble, update_hash}
use tactyk.Dblock.Persist.{set_persistence_code, memcpy, from_c_string, shallow_copy, mark_value}
use tactyk.Dblock.Table.{
  Table, c_string, put, get, new_table, new_slots, put_found, store, stored_key,
  from_string_or_dblock, table_find, probe, scan, value_at, key_at, set_slot, set_value,
}
use tactyk.Util.Pow2.{next_pow2}
use tactyk.Asmvm.{Program, Context, empty_memblock, bind, unbind, function_of}
use tactyk.Asmvm.Bindings.{Coherent, IsBound, bind-IsBound}
use tactyk.Asmvm.Unbind.{IsUnbound, unbind-exact}

-- "main"
abbrev main_name : List ℕ
main_name = b'm' ∷ b'a' ∷ b'i' ∷ b'n' ∷ []

-- A table with "main" at address 5.
abbrev functions_table : Table
functions_table = elim (put 1 (new_table 1) (c_string main_name) (pointer 5)) [
  | none ↦ new_table 1
  | some t ↦ t
]

abbrev small_program : Program
small_program = record {
  functions = functions_table;
  identifier_value = λ p. p + 2;
  layout_data = 1000;
  layout_count = 1;
  length = 20;
  command_map = 2000;
}

abbrev small_context : Context
small_context = record {
  instruction_count = 0;
  memblocks = 0;
  memblock_count = 0;
  active_memblocks = λ i. empty_memblock;
  program_map = 0;
  hl_program_ref = none;
  instruction_index = 0;
  status = 0;
  addr = λ i. 0;
}

main_found : function_of small_program main_name ≡ some 7
unfolding function_of Option.bind new_table next_pow2 put get new_slots put_found store stored_key
    from_string_or_dblock table_find probe scan equals same_loop hash_bytes hash_loop hash_step
    scramble from_c_string update_hash set_persistence_code mark_value memcpy value_at key_at
    set_slot set_value shallow_copy
main_found = refl

small-Coherent : Coherent small_context
small-Coherent i h = refl

bind-IsBound_example :
    (ctx' : Context) × (bind small_context 2 4096 16 100 ≡ some ctx')
    × IsBound small_context 2 4096 16 100 ctx'
bind-IsBound_example =
    bind-IsBound {ctx = small_context} small-Coherent 2 4096 16 100 (omega arith) (omega arith)
      (omega arith) (omega arith)

-- slot 1 holds 4096 by hand
abbrev bound_context : Context
bound_context = elim (bind small_context 1 4096 16 100) [ none ↦ small_context | some c ↦ c ]

bound_context-Coherent : Coherent bound_context
unfolding bind
bound_context-Coherent zero h = refl
bound_context-Coherent (suc zero) h = refl
bound_context-Coherent (suc (suc i)) h = ground arith

unbind-exact_example :
    Coherent (unbind bound_context 4096)
    × ((i : ℕ) → i < 4 → IsUnbound 4096 bound_context (unbind bound_context 4096) i)
unbind-exact_example = unbind-exact bound_context bound_context-Coherent 4096 not_null
  where
    not_null : ◌≢◌ {A = ℕ} 4096 0
    not_null e = omega (arith, e)

-- A count of 0 wraps: the bound of the array is then nearly 2 ^ 32.
empty_array :
    Option.map
      (λ (c : Context). (c.active_memblocks 0).array_bound)
      (bind small_context 0 4096 16 0)
    ≡ some 4294967281
unfolding bind
empty_array = refl
