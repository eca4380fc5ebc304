-- ===== src/Pl/Struct/Layout.antt =====
-- Where the fields of a struct lie, and one step of the layout.
use tactyk.Base.{
  ℕ, ◌+◌, ◌^◌, ◌≤◌, ◌<◌, ◌≡◌, inl, inr, refl, arith, List, [], ◌∷◌, ◌==◌, if◌then◌else◌, Bool-cases,
}
use tactyk.Base.Words.{add64}
use tactyk.Pl.Struct.{Field, Cursor, place_field, larger, qualified}

-- A line with the text of its name.
pub record NamedField : Type 0 where
  pub field : Field
  pub prop_name : List ℕ

-- Where a field starts, by its directive and the place and width of the field before it: over that
-- field, at the start of the struct, or behind that field.
abbrev pub field_start : ℕ → ℕ → ℕ → ℕ
field_start directive start width =
    if directive == b'.' then start else if directive == b'>' then 0 else start + width

-- the offsets of fields behind one at `start` of a width
abbrev pub offsets : ℕ → ℕ → List NamedField → List ℕ
offsets start width [] = []
offsets start width (f ∷ fs) =
    field_start f.field.directive start width
    ∷ offsets (field_start f.field.directive start width) f.field.p_width fs

-- the constants for them
abbrev pub constants : List ℕ → ℕ → ℕ → List NamedField → List (List ℕ × ℕ)
constants st_name start width [] = []
constants st_name start width (f ∷ fs) =
    (qualified st_name f.prop_name, field_start f.field.directive start width)
    ∷ constants st_name (field_start f.field.directive start width) f.field.p_width fs

-- the sum of the widths
abbrev pub total_width : List NamedField → ℕ
total_width [] = 0
total_width (f ∷ fs) = f.field.p_width + total_width fs

-- The cursor stands behind a field at `start` of a width.
abbrev pub IsBehind : Cursor → ℕ → ℕ → Type 0
IsBehind c start width = (c.prev_offset ≡ start) × (c.offset ≡ start + width)

-- After a field is placed at `at` the cursor stands behind it, and the stride covers it and what it
-- covered.
pub record IsPlaced (c : Cursor) (p_width at : ℕ) (r : ℕ × Cursor) : Type 0 where
  pub placed : r.0 ≡ at
  pub behind : IsBehind r.1 at p_width
  pub covers : at + p_width ≤ r.1.stride
  pub grows : c.stride ≤ r.1.stride
  pub frugal : (limit : ℕ) → c.stride ≤ limit → c.offset + p_width ≤ limit → r.1.stride ≤ limit
  pub moves : r.1.offset ≤ c.offset + p_width

larger-left : (stride end : ℕ) → stride ≤ larger stride end
larger-left stride end = ground arith

larger-right : (stride end : ℕ) → end ≤ larger stride end
larger-right stride end = ground arith

larger-le : (stride end limit : ℕ) → stride ≤ limit → end ≤ limit → larger stride end ≤ limit
larger-le stride end limit h k = ground arith

no_wrap : (a b : ℕ) → a + b < 2 ^ 64 → add64 a b ≡ a + b
no_wrap a b h = omega arith

module _ (c : Cursor) (start width p_width : ℕ) (b : IsBehind c start width)
    (h : c.offset + p_width < 2 ^ 64) where
  over : add64 c.prev_offset p_width ≡ start + p_width
  over = omega (arith, no_wrap c.prev_offset p_width (omega (arith, b.0, b.1)), b.0)

  next : add64 c.offset p_width ≡ start + width + p_width
  next = omega (arith, no_wrap c.offset p_width h, b.1)

  pub place_field-IsPlaced :
      (directive : ℕ)
      → IsPlaced c p_width (field_start directive start width) (place_field directive p_width c)
  unfolding place_field
  place_field-IsPlaced directive = elim (Bool-cases (directive == b'.')) [
    | inl dot ↦ rw (dot) (record {
      placed = b.0;
      behind = (b.0, over);
      covers = omega (arith, over, larger-right c.stride (add64 c.prev_offset p_width));
      grows = larger-left c.stride (add64 c.prev_offset p_width);
      frugal = λ limit s e.
          larger-le c.stride (add64 c.prev_offset p_width) limit s (omega (arith, over, b.1));
      moves = omega (arith, over, b.1);
    })
    | inr no_dot ↦ elim (Bool-cases (directive == b'>')) [
      | inl start_over ↦
          rw (no_dot, start_over)
            (record {
              placed = refl;
              behind = (refl, omega arith);
              covers = omega (arith, next, larger-right c.stride (add64 c.offset p_width));
              grows = larger-left c.stride (add64 c.offset p_width);
              frugal = λ limit s e.
                  larger-le c.stride (add64 c.offset p_width) limit s (omega (arith, next, b.1));
              moves = omega arith;
            })
      | inr behind_it ↦
          rw (no_dot, behind_it)
            (record {
              placed = b.1;
              behind = (b.1, next);
              covers = omega (arith, next, larger-right c.stride (add64 c.offset p_width));
              grows = larger-left c.stride (add64 c.offset p_width);
              frugal = λ limit s e.
                  larger-le c.stride (add64 c.offset p_width) limit s (omega (arith, next, b.1));
              moves = omega (arith, next, b.1);
            })
    ]
  ]
