-- ===== src/Asmvm.antt =====
-- Contexts of the virtual machine, libtactyk/tactyk_asmvm.c: bind and unbind on the memory blocks in
-- use, and prepare_invoke, call, invoke and resume. The value of an identifier is below 2 ^ 63.
-- Pointers are numbers, NULL is 0. The memory that a program declares its blocks in is at an address.
pub mod Bindings
pub mod Unbind
mod Tests
use tactyk.Base.{
  ℕ, zero, suc, ◌+◌, ◌-◌, ◌*◌, ◌%◌, ◌^◌, Bool, true, false, ◌&&◌, ◌||◌, not, List, Option, none,
  some, ltb, leb, ◌==◌, if◌then◌else◌,
}
use tactyk.Base.Words.{word64, add64, sub64, mul64}
use tactyk.Dblock.Table.{Table, c_string, get}
use tactyk.Dblock.Block.{Value}

-- struct tactyk_asmvm__memblock_lowlevel
pub record Memblock : Type 0 where
  pub base_address : ℕ
  pub element_bound : ℕ
  pub array_bound : ℕ
  pub memblock_index : ℕ
  pub offset : ℕ

-- What the functions use of struct tactyk_asmvm__Program. The functions are identifiers by name,
-- managed objects whose `value` is read at their address.
pub record Program : Type 0 where
  pub functions : Table
  pub identifier_value : ℕ → ℕ
  pub layout_data : ℕ
  pub layout_count : ℕ
  pub length : ℕ
  pub command_map : ℕ

-- What the functions use of struct tactyk_asmvm__Context; `addr` has rADDR1 to rADDR4 at 0 to 3.
pub record Context : Type 0 where
  pub instruction_count : ℕ
  pub memblocks : ℕ
  pub memblock_count : ℕ
  pub active_memblocks : ℕ → Memblock
  pub program_map : ℕ
  pub hl_program_ref : Option Program
  pub instruction_index : ℕ
  pub status : ℕ
  pub addr : ℕ → ℕ

abbrev pub word32 : ℕ
word32 = 2 ^ 32

abbrev pub write_slot {ℓ} : {A : Type ℓ} → (ℕ → A) → ℕ → A → ℕ → A
write_slot f i a j = if i == j then a else f j

-- the index of a block that was bound by hand
abbrev pub dynamic : ℕ
dynamic = 0xffffffff

abbrev pub empty_memblock : Memblock
empty_memblock = record {
  base_address = 0;
  element_bound = 0;
  array_bound = 0;
  memblock_index = 0;
  offset = 0;
}

-- `none` is the error of an invalid index; the bounds are 32-bit fields.
unfoldable pub bind : Context → ℕ → ℕ → ℕ → ℕ → Option Context
bind ctx index object object_size object_count =
    if leb 4 index
    then none
    else some (record ctx {
      active_memblocks = write_slot ctx.active_memblocks index (record {
        base_address = object;
        element_bound = object_size % word32;
        array_bound = add64 (mul64 object_size (sub64 object_count 1)) 1 % word32;
        memblock_index = dynamic;
        offset = 0;
      });
      addr = write_slot ctx.addr index object;
    })

-- the test of the loop of unbind
abbrev pub is_bound_to : Memblock → ℕ → Bool
is_bound_to mb object = mb.base_address == object && mb.memblock_index == dynamic

abbrev pub unbind_slot : Context → ℕ → ℕ → Context
unbind_slot ctx object index =
    if is_bound_to (ctx.active_memblocks index) object
    then record ctx {
      active_memblocks = write_slot ctx.active_memblocks index empty_memblock;
      addr = write_slot ctx.addr index 0;
    }
    else ctx

-- `n` slots from `index` on
unfoldable pub unbind_loop : ℕ → ℕ → ℕ → Context → Context
unbind_loop object zero index ctx = ctx
unbind_loop object (suc n) index ctx =
    unbind_loop object n (index + 1) (unbind_slot ctx object index)

unfoldable pub unbind : Context → ℕ → Context
unbind ctx object = if object == 0 then ctx else unbind_loop object 4 0 ctx

-- From the end of a run: the result code, or the status of the context for a code below 100.
abbrev pub outcome : ℕ → Context → ℕ
outcome result ctx = if ltb result 100 then ctx.status else result

abbrev pub is_valid_state : ℕ → Bool
is_valid_state result = result == 2 || result == 3 || result == 4

-- What a name is in the table of functions.
unfoldable pub function_of : Program → List ℕ → Option ℕ
function_of prog funcname = elim (get prog.functions (c_string funcname)) [
  | Value.pointer p ↦ some (prog.identifier_value p)
  | _ ↦ none
]

-- From the test of the identifier on.
unfoldable pub prepare_found : Context → Program → Option ℕ → Bool × Context
prepare_found ctx prog none = (false, ctx)
prepare_found ctx prog (some iptr) = (
  ltb iptr prog.length,
  record ctx {
    hl_program_ref = some prog;
    memblocks = prog.layout_data;
    memblock_count = prog.layout_count;
    instruction_count = prog.length;
    program_map = prog.command_map;
    instruction_index = iptr;
  },
)

unfoldable pub prepare_invoke : Context → Program → List ℕ → Bool × Context
prepare_invoke ctx prog funcname = prepare_found ctx prog (function_of prog funcname)

-- `run` is the assembled code of a program: a result code, and the context it leaves.
module _ (run : Program → Context → ℕ × Context) where
  unfoldable pub call : Context → Program → List ℕ → Bool × Context
  call ctx prog funcname =
      let ready = prepare_invoke ctx prog funcname in
      let done = run prog ready.1 in
      if ready.0 then (is_valid_state (outcome done.0 done.1), done.1) else (false, ready.1)

  -- `none` is the error of a code of 100 or more
  unfoldable pub invoke : Context → Program → List ℕ → Option Context
  invoke ctx prog funcname =
      let ready = prepare_invoke ctx prog funcname in
      let done = run prog ready.1 in
      if not ready.0
      then some ready.1
      else if leb 100 (outcome done.0 done.1)
      then none
      else some done.1

  -- `none` is one of the three errors: instruction pointer, state, no program
  unfoldable pub resume : Context → Option (Bool × Context)
  resume ctx = elim ctx.hl_program_ref [
    | none ↦ none
    | some prog ↦
        let done = run prog ctx in
        if leb ctx.instruction_count ctx.instruction_index
        then none
        else if not (ctx.status == 3)
        then none
        else some (is_valid_state (outcome done.0 done.1), done.1)
  ]
