-- ===== src/Pl/Memory.antt =====
-- tactyk_pl__define_mem, tactyk_pl__mem and tactyk_pl__extmem, libtactyk/tactyk_pl.c: the memory
-- blocks that a program declares.
-- A result `none` is the error handler's exit, a failed `assert`, a read of a NULL pointer, or the
-- use of a pointer to a struct as a pointer to a block.
pub mod Defined
mod Tests
use mathlib.Core.Option
use tactyk.Base.{
  ℕ, zero, suc, ◌+◌, ◌*◌, ◌%◌, Bool, List, [], ◌∷◌, ◌++◌, Option, none, some, leb, ◌==◌, not,
  if◌then◌else◌, length, set,
}
use tactyk.Base.Words.{add64, sub64, mul64}
use tactyk.Asmvm.{Memblock, word32}
use tactyk.Dblock.Block.{Block, DBlock, Value, empty, pseudonull, block, pointer}
use tactyk.Dblock.Links.{count_tokens, next_of, token_of}
use tactyk.Dblock.Number.{try_parseuint, from_int}
use tactyk.Dblock.Table.{Table, Key, get, put, header_of, count_of}
use tactyk.Pl.Struct.{Property, Struct}

-- struct tactyk_asmvm__memblock_highlevel; `memblock` is the index of the low-level block, `memory` is
-- its field `data`.
pub record Highlevel : Type 0 where
  pub definition : Struct
  pub memblock : ℕ
  pub memblock_id : ℕ
  pub num_entries : ℕ
  pub type : ℕ
  pub memory : ℕ

-- What the functions use of struct tactyk_pl__Context and of the emitter's context. The struct table
-- and the high-level table hold the addresses of managed objects; `struct_at` reads a struct at its
-- address, `highlevel_data` is the address of the high-level blocks.
pub record Loader : Type 0 where
  pub struct_table : Table
  pub struct_at : ℕ → Struct
  pub memspec_highlevel_table : Table
  pub highlevel : List Highlevel
  pub highlevel_data : ℕ
  pub memspec_lowlevel_buffer : List Memblock
  pub memblock_table : Table

-- as tactyk_pl__init sets it
abbrev pub default_mem_layout : Struct
default_mem_layout = record {
  name =
      b'd' ∷ b'e' ∷ b'f' ∷ b'a' ∷ b'u' ∷ b'l' ∷ b't' ∷ b'-' ∷ b'l' ∷ b'a' ∷ b'y' ∷ b'o' ∷ b'u'
      ∷ b't' ∷ 0 ∷ [];
  byte_stride = 8;
  properties =
      record { name = b'i' ∷ b't' ∷ b'e' ∷ b'm' ∷ 0 ∷ []; byte_offset = 0; byte_width = 8 } ∷ [];
}

-- TACTYK_ASMVM__MEMBLOCK_CAPACITY, and the size of struct tactyk_asmvm__memblock_highlevel
abbrev pub memblock_capacity : ℕ
memblock_capacity = 256

abbrev pub highlevel_size : ℕ
highlevel_size = 48

-- TACTYK_ASMVM__MEMBLOCK_TYPE__ALLOC and TACTYK_ASMVM__MEMBLOCK_TYPE__EXTERNAL
abbrev pub type_alloc : ℕ
type_alloc = 2

abbrev pub type_external : ℕ
type_external = 3

-- The locals that the `switch` on the count of tokens sets.
pub record Request : Type 0 where
  pub mem_name : DBlock
  pub layout : Option Struct
  pub scale : ℕ

-- A struct that the table holds; NULL is an inner `none`.
unfoldable pub struct_found : Loader → Value → Option (Option Struct)
struct_found l empty = some none
struct_found l (pointer p) = some (some (l.struct_at p))
struct_found l pseudonull = none
struct_found l (block d) = none

-- the cases of 3 and of 4 tokens, from the name on
unfoldable pub request_scaled : DBlock → Option Request
request_scaled mem_name = Option.bind (next_of mem_name) (λ tok.
    Option.map (λ scale. record { mem_name = mem_name; layout = none; scale = scale })
      (try_parseuint (header_of tok)))

unfoldable pub request_typed : Loader → DBlock → Option Request
request_typed l mem_name = Option.bind (next_of mem_name) (λ st_name.
    Option.bind (struct_found l (get l.struct_table (Key.dblock st_name))) (λ layout.
      Option.bind (next_of st_name) (λ tok.
        Option.map (λ scale. record { mem_name = mem_name; layout = layout; scale = scale })
          (try_parseuint (header_of tok)))))

-- With more than four tokens no case applies and the name stays NULL.
unfoldable pub request : Loader → DBlock → Option Request
request l dblock = Option.bind (count_tokens dblock) (λ count.
    Option.bind (token_of dblock) (λ token. Option.bind (next_of token) (λ mem_name.
      let plain = some (record { mem_name = mem_name; layout = none; scale = 0 }) in
      let scaled = request_scaled mem_name in
      let typed = request_typed l mem_name in
      if count == 3
      then scaled
      else if count == 4
      then typed
      else if count == 2
      then plain
      else none)))

-- Without a layout so far: a struct with the name of the block is taken for a block.
unfoldable pub fallback : Value → Option Struct
fallback empty = some default_mem_layout
fallback pseudonull = none
fallback (block d) = none
fallback (pointer p) = none

unfoldable pub layout_of : Loader → Request → Option Struct
layout_of l r = elim r.layout [
  | none ↦ fallback (get l.struct_table (Key.dblock r.mem_name))
  | some layout ↦ some layout
]

-- the writes to the two blocks
abbrev pub lowlevel_block : ℕ → ℕ → ℕ → Memblock
lowlevel_block id scale byte_stride = record {
  base_address = 0;
  element_bound = byte_stride % word32;
  array_bound = add64 (mul64 (sub64 scale 1) byte_stride) 1 % word32;
  memblock_index = id % word32;
  offset = 0;
}

abbrev pub highlevel_block : ℕ → ℕ → Struct → Highlevel
highlevel_block id scale layout = record {
  definition = layout;
  memblock = id;
  memblock_id = id;
  num_entries = scale;
  type = 0;
  memory = 0;
}

-- The two objects are taken from their buffers, then the name is put in both tables.
unfoldable pub define_named : Loader → Request → Struct → Option Loader
define_named l r layout =
    let id = count_of l.memspec_highlevel_table in
    let put_all =
      Option.bind
        (put 2 l.memspec_highlevel_table (Key.dblock r.mem_name)
          (pointer (l.highlevel_data + length l.highlevel * highlevel_size)))
        (λ highlevel_table.
          Option.map
            (λ memblock_table. record l {
              memspec_highlevel_table = highlevel_table;
              highlevel = l.highlevel ++ highlevel_block id r.scale layout ∷ [];
              memspec_lowlevel_buffer =
                  l.memspec_lowlevel_buffer ++ lowlevel_block id r.scale layout.byte_stride ∷ [];
              memblock_table = memblock_table;
            })
            (put 2 l.memblock_table (Key.dblock r.mem_name) (block (from_int id)))) in
    if not (length l.memspec_lowlevel_buffer == id)
    then none
    else if leb memblock_capacity (length l.memspec_lowlevel_buffer)
    then none
    else put_all

-- The loader, the index of the new blocks, and the two blocks.
unfoldable pub define_mem : Loader → DBlock → Option (Loader × ℕ × Memblock × Highlevel)
define_mem l dblock =
    let id = count_of l.memspec_highlevel_table in
    Option.bind (request l dblock) (λ r. Option.bind (layout_of l r) (λ layout.
      Option.map
        (λ l'. (
          l',
          length l.memspec_lowlevel_buffer,
          lowlevel_block id r.scale layout.byte_stride,
          highlevel_block id r.scale layout,
        ))
        (define_named l r layout)))

-- `memory` is the address that the allocator gives for `num_entries` times the stride.
unfoldable pub mem : Loader → DBlock → ℕ → Option Loader
mem l dblock memory =
    Option.map
      (λ (l', at, m_ll, m_hl). record l' {
        memspec_lowlevel_buffer =
            set l'.memspec_lowlevel_buffer at (record m_ll { offset = 0; base_address = memory });
        highlevel = set l'.highlevel at (record m_hl { type = type_alloc; memory = memory });
      })
      (define_mem l dblock)

unfoldable pub extmem : Loader → DBlock → Option Loader
extmem l dblock =
    Option.map
      (λ (l', at, m_ll, m_hl). record l' {
        memspec_lowlevel_buffer =
            set l'.memspec_lowlevel_buffer at (record m_ll { offset = type_external });
        highlevel = set l'.highlevel at (record m_hl { type = type_external });
      })
      (define_mem l dblock)
