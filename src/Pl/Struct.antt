-- ===== src/Pl/Struct.antt =====
-- tactyk_pl__struct, libtactyk/tactyk_pl.c: the layout of a struct from its lines, and the constants
-- for its offsets and its size.
-- A result `none` is the error handler's exit, a read of a NULL pointer, or a write past the end of
-- a name buffer.
pub mod Constants
pub mod Layout
pub mod Laid
pub mod Whole
mod Tests
use mathlib.Core.Option
use tactyk.Base.{
  ℕ, suc, ◌+◌, ◌*◌, Bool, List, [], ◌∷◌, ◌++◌, Option, none, some, leb, ltb, ◌==◌, if◌then◌else◌,
  length,
}
use tactyk.Base.Words.{add64}
use tactyk.Dblock.Block.{Block, DBlock, null, node, block, pointer}
use tactyk.Dblock.Export.{export_cstring, c_text}
use tactyk.Dblock.Hash.{byte_at}
use tactyk.Dblock.Links.{count_tokens, next_of, token_of}
use tactyk.Dblock.Number.{try_parseuint, from_int}
use tactyk.Dblock.Table.{Table, Key, c_string, put, header_of}

-- struct tactyk_asmvm__property; `dtype` is never set.
pub record Property : Type 0 where
  pub name : List ℕ
  pub byte_offset : ℕ
  pub byte_width : ℕ

-- struct tactyk_asmvm__struct
pub record Struct : Type 0 where
  pub name : List ℕ
  pub byte_stride : ℕ
  pub properties : List Property

-- the variables of the loop
pub record Cursor : Type 0 where
  pub offset : ℕ
  pub prev_offset : ℕ
  pub stride : ℕ

-- what the first `switch` reads from a line
pub record Field : Type 0 where
  pub directive : ℕ
  pub p_width : ℕ
  pub p_name : DBlock

abbrev pub identifier_length : ℕ
identifier_length = 255

-- the width and the name, from the token of the width on
unfoldable pub read_field : ℕ → DBlock → Option Field
read_field directive token = Option.bind (next_of token) (λ name.
    Option.map (λ width. record { directive = directive; p_width = width; p_name = name })
      (try_parseuint (header_of token)))

-- with two tokens there is no directive
unfoldable pub parse_field : DBlock → Option Field
parse_field dblock =
    let two = Option.bind (token_of dblock) (read_field b' ') in
    let three =
      Option.bind (token_of dblock)
        (λ first. Option.bind (next_of first) (read_field (byte_at (header_of first).bytes 0))) in
    Option.bind (count_tokens dblock)
      (λ num_tokens. if num_tokens == 2 then two else if num_tokens == 3 then three else none)

abbrev pub larger : ℕ → ℕ → ℕ
larger stride end = if ltb stride end then end else stride

-- the second `switch`: the offset of the field, and where the next one goes
unfoldable pub place_field : ℕ → ℕ → Cursor → ℕ × Cursor
place_field directive p_width c =
    if directive == b'.'
    then (
      c.prev_offset,
      record {
        offset = add64 c.prev_offset p_width;
        prev_offset = c.prev_offset;
        stride = larger c.stride (add64 c.prev_offset p_width);
      },
    )
    else if directive == b'>'
    then (
      0,
      record {
        offset = p_width;
        prev_offset = 0;
        stride = larger c.stride (add64 c.offset p_width);
      },
    )
    else (
      c.offset,
      record {
        offset = add64 c.offset p_width;
        prev_offset = c.offset;
        stride = larger c.stride (add64 c.offset p_width);
      },
    )

-- `sprintf(prop_qname, "%s.%s", ...)` and `sprintf(struct_sz_name, "%s_size", ...)` into 1024 bytes
unfoldable pub formatted : List ℕ → Option (List ℕ)
formatted text = if leb 1024 (length text) then none else some text

abbrev pub qualified : List ℕ → List ℕ → List ℕ
qualified st_name prop_name = st_name ++ b'.' ∷ prop_name

abbrev pub size_name : List ℕ → List ℕ
size_name st_name = st_name ++ b'_' ∷ b's' ∷ b'i' ∷ b'z' ∷ b'e' ∷ []

-- A constant of `ctx->emitctx->const_table`: two levels of the calls of put are enough.
unfoldable pub put_constant : Table → List ℕ → ℕ → Option Table
put_constant const_table name value = put 2 const_table (c_string name) (block (from_int value))

-- the body of the loop behind the first `switch`
unfoldable pub define_field : List ℕ → Field → Cursor → Table → Option (Property × Cursor × Table)
define_field st_name field cursor const_table =
    let (offset, next) = place_field field.directive field.p_width cursor in
    Option.bind (export_cstring identifier_length (header_of field.p_name)) (λ name.
      Option.bind (c_text name) (λ prop_name.
        Option.bind (formatted (qualified st_name prop_name)) (λ qname.
          Option.map
            (λ table. (
              record { name = name; byte_offset = offset; byte_width = field.p_width },
              next,
              table,
            ))
            (put_constant const_table qname offset))))

-- the loop over the lines
unfoldable pub fields_loop :
    List ℕ → DBlock → Cursor → Table → Option (List Property × Cursor × Table)
fields_loop st_name null cursor table = some ([], cursor, table)
fields_loop st_name (node b s next child token store) cursor table =
    Option.bind (parse_field (node b s next child token store)) (λ field.
      Option.bind (define_field st_name field cursor table) (λ (prop, c, t).
        Option.map (λ (props, c', t'). (prop ∷ props, c', t')) (fields_loop st_name next c t)))

abbrev pub start_cursor : Cursor
start_cursor = record { offset = 0; prev_offset = 0; stride = 0 }

-- From the name on: the lines are the children of the block.
unfoldable pub struct_body : DBlock → DBlock → Table → Option (Struct × Table)
struct_body st_name lines const_table =
    Option.bind (export_cstring identifier_length (header_of st_name)) (λ name.
      Option.bind (c_text name) (λ text.
        Option.bind (fields_loop text lines start_cursor const_table) (λ (props, c, t).
          Option.bind (formatted (size_name text)) (λ sz_name.
            Option.map
              (λ table. (record { name = name; byte_stride = c.stride; properties = props }, table))
              (put_constant t sz_name c.stride)))))

-- `dblock->token->next == NULL`
abbrev pub present : DBlock → Option DBlock
present null = none
present (node b s next child token store) = some (node b s next child token store)

-- ctx->struct_table: the names with the addresses of the structs, and the container of the structs
-- at an address.
pub record StructTable : Type 0 where
  pub names : Table
  pub structs : List Struct
  pub structs_data : ℕ
  pub element_capacity : ℕ

-- the size of struct tactyk_asmvm__struct
abbrev pub struct_size : ℕ
struct_size = 280

-- tactyk_dblock__new_managedobject: the address of the next struct is put under the name. A full
-- container is moved when it grows, and the table is left with pointers to freed memory: `none`.
unfoldable pub name_struct : StructTable → DBlock → Option Table
name_struct struct_table st_name =
    let named =
      put 2 struct_table.names (Key.dblock st_name)
        (pointer (struct_table.structs_data + length struct_table.structs * struct_size)) in
    if leb struct_table.element_capacity (length struct_table.structs) then none else named

unfoldable pub struct : StructTable → DBlock → Table → Option (StructTable × Table)
struct struct_table null const_table = none
struct struct_table (node b s next child token store) const_table =
    Option.bind (Option.bind (next_of token) present) (λ st_name.
      Option.bind (name_struct struct_table st_name) (λ names.
        Option.map
          (λ (st, table). (
            record struct_table { names = names; structs = struct_table.structs ++ st ∷ [] },
            table,
          ))
          (struct_body st_name child const_table)))
