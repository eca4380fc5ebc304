-- ===== src/Pl/Struct/Laid.antt =====
-- What the loop of tactyk_pl__struct makes of the lines: the fields where the directives say, within
-- the stride, and the constants for their offsets.
use mathlib.Core.Option
use tactyk.Base.{
  ℕ, suc, ◌+◌, ◌^◌, ◌≤◌, ◌<◌, ◌≡◌, refl, sym, ap, ◌∙◌, arith, List, [], ◌∷◌, some, length,
  length-append, length-take,
}
use tactyk.Dblock.Block.{DBlock, null, node}
use tactyk.Dblock.Export.{c_text}
use tactyk.Dblock.Export.Terminated.{IsCText, export_cstring-content}
use tactyk.Dblock.Table.{Table, Key, get, header_of}
use tactyk.Dblock.Text.{content}
use tactyk.Pl.Struct.{
  Property, Cursor, identifier_length, parse_field, place_field, formatted, qualified, define_field,
  fields_loop,
}
use tactyk.Pl.Struct.Constants.{after_constants, after_constants-ext, HasRoom, put_constant-reads}
use tactyk.Pl.Struct.Layout.{
  NamedField, field_start, constants, total_width, IsBehind, IsPlaced, place_field-IsPlaced,
}

-- A name that fits the buffer of a name with its terminator.
abbrev pub IsIdentifier : DBlock → List ℕ → Type 0
IsIdentifier d text =
    IsCText (header_of d)
    × ((header_of d).length < identifier_length)
    × ((header_of d).length ≤ length (header_of d).bytes)
    × (content (header_of d) ≡ text)

-- The lines are read as those fields.
abbrev pub AreFields : DBlock → List NamedField → Type 0
AreFields null [] = Unit
AreFields null (f ∷ fs) = ⊥
AreFields (node b s next child token store) [] = ⊥
AreFields (node b s next child token store) (f ∷ fs) =
    (parse_field (node b s next child token store) ≡ some f.field)
    × IsIdentifier f.field.p_name f.prop_name
    × AreFields next fs

-- Each property has the name and the width of its field, starts where the directive says, and ends
-- within the stride.
abbrev pub ArePlaced : ℕ → ℕ → ℕ → List NamedField → List Property → Type 0
ArePlaced start width stride [] [] = Unit
ArePlaced start width stride [] (p ∷ ps) = ⊥
ArePlaced start width stride (f ∷ fs) [] = ⊥
ArePlaced start width stride (f ∷ fs) (p ∷ ps) =
    (c_text p.name ≡ some f.prop_name)
    × (p.byte_offset ≡ field_start f.field.directive start width)
    × (p.byte_width ≡ f.field.p_width)
    × (p.byte_offset + p.byte_width ≤ stride)
    × ArePlaced (field_start f.field.directive start width) f.field.p_width stride fs ps

pub length-identifier :
    (d : DBlock) (text : List ℕ) → IsIdentifier d text → length text < identifier_length
length-identifier d text (plain, short, inside, same) =
    omega (arith, short, length-take (header_of d).length (header_of d).bytes, ap length (sym same))

pub formatted-short : (text : List ℕ) → length text < 1024 → formatted text ≡ some text
unfolding formatted
formatted-short text h = ground arith

-- a field that is placed and its constant
record IsDefined (c : Cursor) (f : NamedField) (st_name : List ℕ) (at bound n : ℕ) (t : Table)
    (p : Property) (c' : Cursor) (t' : Table) : Type 0 where
  name : c_text p.name ≡ some f.prop_name
  offset : p.byte_offset ≡ at
  width : p.byte_width ≡ f.field.p_width
  placed : IsPlaced c f.field.p_width at (at, c')
  room : HasRoom t' bound n
  code : t'.header.persistence_code ≡ t.header.persistence_code
  reads :
      (q : Key)
      → get t' q
        ≡ after_constants
            (get t)
            t.header.persistence_code
            ((qualified st_name f.prop_name, at) ∷ [])
            q

define_field-IsDefined :
    (st_name : List ℕ) (f : NamedField) (c : Cursor) (t : Table) (start width bound n : ℕ)
    → length st_name < identifier_length
    → IsIdentifier f.field.p_name f.prop_name
    → IsBehind c start width
    → c.offset + f.field.p_width < 2 ^ 64
    → HasRoom t bound (suc n)
    → (p : Property) × (c' : Cursor) × (t' : Table) × (define_field st_name f.field c t
        ≡ some (p, c', t'))
      × IsDefined c f st_name (field_start f.field.directive start width) bound n t p c' t'
unfolding define_field Option.bind
define_field-IsDefined st_name f c t start width bound n short ident behind fits h =
    let (plain, s, inside, same) = ident in
    let (buffer, e, k) =
      export_cstring-content identifier_length (header_of f.field.p_name) plain s inside in
    let at = field_start f.field.directive start width in
    let i = place_field-IsPlaced c start width f.field.p_width behind fits f.field.directive in
    let (t', g, room, code, reads) =
      put_constant-reads t bound n (qualified st_name f.prop_name) at h in
    let named : c_text buffer ≡ some f.prop_name = k ∙ ap some same in
    let qname = formatted-short (qualified st_name f.prop_name) (
      omega (
        arith,
        length-append st_name (b'.' ∷ f.prop_name),
        length-identifier f.field.p_name f.prop_name ident,
      )) in
    (
      record { name = buffer; byte_offset = at; byte_width = f.field.p_width },
      (place_field f.field.directive f.field.p_width c).1,
      t',
      rw (e, named, qname, i.placed, g) refl,
      record {
        name = named;
        offset = refl;
        width = refl;
        placed = record {
          placed = refl;
          behind = i.behind;
          covers = i.covers;
          grows = i.grows;
          frugal = i.frugal;
          moves = i.moves;
        };
        room = room;
        code = code;
        reads = reads;
      },
    )

-- the loop over fields that stand behind one at `start` of a width
pub record IsLaid (st_name : List ℕ) (start width : ℕ) (fs : List NamedField) (c : Cursor)
    (t : Table) (bound n : ℕ) (props : List Property) (c' : Cursor) (t' : Table) : Type 0 where
  pub placed : ArePlaced start width c'.stride fs props
  pub grows : c.stride ≤ c'.stride
  pub frugal :
      (limit : ℕ) → c.stride ≤ limit → c.offset + total_width fs ≤ limit → c'.stride ≤ limit
  pub room : HasRoom t' bound n
  pub code : t'.header.persistence_code ≡ t.header.persistence_code
  pub reads :
      (q : Key)
      → get t' q
        ≡ after_constants (get t) t.header.persistence_code (constants st_name start width fs) q

pub fields_loop-IsLaid :
    (lines : DBlock) (fs : List NamedField) (st_name : List ℕ) (c : Cursor) (t : Table)
    (start width bound n : ℕ)
    → length st_name < identifier_length
    → AreFields lines fs
    → IsBehind c start width
    → c.offset + total_width fs < 2 ^ 64
    → HasRoom t bound (length fs + n)
    → (props : List Property) × (c' : Cursor) × (t' : Table) × (fields_loop st_name lines c t
        ≡ some (props, c', t'))
      × IsLaid st_name start width fs c t bound n props c' t'
unfolding fields_loop Option.bind
fields_loop-IsLaid null [] st_name c t start width bound n short h behind fits room = (
  [],
  c,
  t,
  refl,
  record {
    placed = tt;
    grows = omega arith;
    frugal = λ limit s e. s;
    room = record {
      inv = room.inv;
      room = omega (arith, room.room);
      capacity = room.capacity;
      small = room.small;
    };
    code = refl;
    reads = λ q. refl;
  },
)
fields_loop-IsLaid null (f ∷ fs) st_name c t start width bound n short h behind fits room = absurd h
fields_loop-IsLaid (node b s next child token store) [] st_name c t start width bound n short h
      behind fits room =
    absurd h
fields_loop-IsLaid (node b s next child token store) (f ∷ fs) st_name c t start width bound n short
      (parsed, ident, rest) behind fits room =
    let at = field_start f.field.directive start width in
    let (p, c1, t1, e, d) =
      define_field-IsDefined st_name f c t start width bound (length fs + n) short ident behind
        (omega (arith, fits))
        (record {
          inv = room.inv;
          room = omega (arith, room.room);
          capacity = room.capacity;
          small = room.small;
        }) in
    let (props, c2, t2, g, l) =
      fields_loop-IsLaid next fs st_name c1 t1 at f.field.p_width bound n short rest d.placed.behind
        (omega (arith, d.placed.moves, fits)) d.room in
    (
      p ∷ props,
      c2,
      t2,
      rw (parsed, e, g) refl,
      record {
        placed = (
          d.name,
          d.offset,
          d.width,
          omega (arith, d.offset, d.width, d.placed.covers, l.grows),
          l.placed,
        );
        grows = omega (arith, d.placed.grows, l.grows);
        frugal = λ limit s e.
            l.frugal limit (d.placed.frugal limit s (omega (arith, e)))
              (omega (arith, d.placed.moves, e));
        room = l.room;
        code = l.code ∙ d.code;
        reads = λ q.
            l.reads q
            ∙ ap (λ (k : ℕ). after_constants (get t1) k (constants st_name at f.field.p_width fs) q)
                d.code
            ∙ after_constants-ext t.header.persistence_code
                (constants st_name at f.field.p_width fs) (get t1) _ d.reads q;
      },
    )
