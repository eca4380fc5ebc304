-- ===== src/Pl/Struct/Whole.antt =====
-- What tactyk_pl__struct returns: the struct in the table of structs, and the constants for the
-- offsets of its fields and for its size.
use mathlib.Core.Option
use tactyk.Base.{
  ℕ, ◌+◌, ◌*◌, ◌^◌, ◌≤◌, ◌<◌, ◌≡◌, refl, ap, ◌∙◌, arith, false, List, [], ◌∷◌, ◌++◌, some, leb,
  length, length-append,
}
use tactyk.Dblock.Block.{Block, DBlock, node, Slots, pointer}
use tactyk.Dblock.Export.{c_text}
use tactyk.Dblock.Export.Terminated.{export_cstring-content}
use tactyk.Dblock.Links.{next_of}
use tactyk.Dblock.Persist.{mark_value}
use tactyk.Dblock.Table.{Table, Key, get, header_of}
use tactyk.Dblock.Table.Keys.{IsKey}
use tactyk.Dblock.Table.Map.{IsPut, put-IsPut}
use tactyk.Pl.Struct.{
  Struct, StructTable, struct_size, name_struct, identifier_length, size_name, start_cursor,
  struct_body, struct, present,
}
use tactyk.Pl.Struct.Constants.{after_constants, after_constants-ext, HasRoom, put_constant-reads}
use tactyk.Pl.Struct.Layout.{NamedField, constants, total_width}
use tactyk.Pl.Struct.Laid.{
  IsIdentifier, AreFields, ArePlaced, fields_loop-IsLaid, length-identifier, formatted-short,
}

-- The struct of a name and of fields, and the table of constants behind it.
pub record IsStruct (st_name : List ℕ) (fs : List NamedField) (t : Table) (st : Struct) (t' : Table)
    : Type 0 where
  pub named : c_text st.name ≡ some st_name
  pub placed : ArePlaced 0 0 st.byte_stride fs st.properties
  pub frugal : st.byte_stride ≤ total_width fs
  pub reads :
      (q : Key)
      → get t' q
        ≡ after_constants
            (after_constants (get t) t.header.persistence_code (constants st_name 0 0 fs))
            t.header.persistence_code
            ((size_name st_name, st.byte_stride) ∷ [])
            q

struct_body-IsStruct :
    (name lines : DBlock) (st_name : List ℕ) (fs : List NamedField) (t : Table) (bound : ℕ)
    → IsIdentifier name st_name
    → AreFields lines fs
    → total_width fs < 2 ^ 64
    → HasRoom t bound (length fs + 1)
    → (st : Struct) × (t' : Table) × (struct_body name lines t ≡ some (st, t'))
      × IsStruct st_name fs t st t'
unfolding struct_body Option.bind
struct_body-IsStruct name lines st_name fs t bound ident fields fits room =
    let (plain, short, inside, same) = ident in
    let (buffer, e, k) =
      export_cstring-content identifier_length (header_of name) plain short inside in
    let named : c_text buffer ≡ some st_name = k ∙ ap some same in
    let small = length-identifier name st_name ident in
    let (props, c, t1, g, l) =
      fields_loop-IsLaid lines fs st_name start_cursor t 0 0 bound 1 small fields
        (refl, omega arith) (omega (arith, fits)) room in
    let (t2, h, r, code, reads) =
      put_constant-reads t1 bound 0 (size_name st_name) c.stride l.room in
    (
      record { name = buffer; byte_stride = c.stride; properties = props },
      t2,
      rw
          (
            e,
            named,
            g,
            formatted-short (size_name st_name) (
                omega
                  (arith, small, length-append st_name (b'_' ∷ b's' ∷ b'i' ∷ b'z' ∷ b'e' ∷ []))),
            h,
          )
          refl,
      record {
        named = named;
        placed = l.placed;
        frugal = l.frugal (total_width fs) (omega arith) (omega arith);
        reads = λ q.
            reads q
            ∙ ap
                (λ (code : ℕ). after_constants (get t1) code ((size_name st_name, c.stride) ∷ []) q)
                l.code
            ∙ after_constants-ext t.header.persistence_code ((size_name st_name, c.stride) ∷ [])
                (get t1) _ l.reads q;
      },
    )

-- The name in the table of structs and the struct behind the others.
pub record IsListed (l : StructTable) (name : DBlock) (st : Struct) (l' : StructTable)
    : Type 0 where
  pub named :
      IsPut l.names
        (Key.dblock name)
        (pointer (l.structs_data + length l.structs * struct_size))
        l'.names
  pub appended : l'.structs ≡ l.structs ++ st ∷ []
  pub settled : l'.structs_data ≡ l.structs_data

name_struct-IsPut :
    (l : StructTable) (name : DBlock) (bound : ℕ)
    → IsKey (Key.dblock name)
    → HasRoom l.names bound 1
    → length l.structs < l.element_capacity
    → (t : Table) × (name_struct l name ≡ some t)
      × IsPut l.names
          (Key.dblock name)
          (pointer (l.structs_data + length l.structs * struct_size))
          t
unfolding name_struct mark_value
name_struct-IsPut l name bound key room space =
    let (t, e, p) =
      put-IsPut 0 room.inv (Key.dblock name) key
        (pointer (l.structs_data + length l.structs * struct_size))
        (omega (arith, room.capacity, room.small)) in
    (t, rw (below _ _ space) e, p)
  where
    below : (n m : ℕ) → n < m → leb m n ≡ false
    below n m lt = ground arith

-- When the name and the names of the fields are short texts without a NUL, the lines are read as
-- those fields, their widths sum up to less than 2 ^ 64, the container has space for a struct, the
-- table of structs is well-formed and takes an entry more, and the table of constants one for each
-- field and one more, below 2 ^ 58: the struct is defined behind the others and its address put
-- under its name, each field has its width and starts where its directive says, no field ends past
-- the stride, the stride is at most the sum of the widths, and the constants added are the offset
-- of each field under its qualified name and the stride under the name of the size.
pub struct-IsStruct :
    (l : StructTable) (b : Block) (s : Slots) (next lines token store name : DBlock)
    (st_name : List ℕ) (fs : List NamedField) (t : Table) (bound : ℕ)
    → Option.bind (next_of token) present ≡ some name
    → IsKey (Key.dblock name)
    → IsIdentifier name st_name
    → AreFields lines fs
    → total_width fs < 2 ^ 64
    → HasRoom l.names bound 1
    → length l.structs < l.element_capacity
    → HasRoom t bound (length fs + 1)
    → (l' : StructTable) × (t' : Table) × (st : Struct) × (struct l
          (node b s next lines token store)
          t
        ≡ some (l', t'))
      × IsListed l name st l'
      × IsStruct st_name fs t st t'
unfolding struct Option.bind
struct-IsStruct l b s next lines token store name st_name fs t bound given key ident fields fits
      names space room =
    let (u, f, p) = name_struct-IsPut l name bound key names space in
    let (st, t', e, i) =
      struct_body-IsStruct name lines st_name fs t bound ident fields fits room in
    (
      record l { names = u; structs = l.structs ++ st ∷ [] },
      t',
      st,
      rw (given, f, e) refl,
      record { named = p; appended = refl; settled = refl },
      i,
    )
