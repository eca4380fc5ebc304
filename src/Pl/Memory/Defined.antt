-- ===== src/Pl/Memory/Defined.antt =====
-- What a declared memory block is found as, and that its bounds keep accesses in its memory.
use native.Mathlib.Nat.{mul_comm}
use mathlib.Core.Option
use tactyk.Base.{
  ℕ, zero, suc, ◌+◌, ◌*◌, ◌%◌, ◌^◌, ◌≤◌, ◌<◌, ◌≡◌, refl, sym, ap, subst, arith, true, false, List,
  [], ◌∷◌, ◌++◌, some, leb, ◌==◌, ==_iff, length, set, get_elem?,
}
use tactyk.Base.Words.{add64, sub64}
use tactyk.Asmvm.{Memblock, word32}
use tactyk.Asmvm.Bindings.{bound_block, access_inside}
use tactyk.Dblock.Block.{DBlock, Value, pointer}
use tactyk.Dblock.Number.{from_int}
use tactyk.Dblock.Persist.{mark_value}
use tactyk.Dblock.Table.{Table, Key, count_of}
use tactyk.Dblock.Table.Keys.{IsKey}
use tactyk.Dblock.Table.Map.{IsPut, put-IsPut}
use tactyk.Pl.Struct.{Struct}
use tactyk.Pl.Struct.Constants.{HasRoom}
use tactyk.Pl.Memory.{
  Loader, Highlevel, Request, request, layout_of, lowlevel_block, highlevel_block, define_named,
  define_mem, mem, memblock_capacity, highlevel_size, type_alloc,
}

-- Both tables take a name more, and the blocks are as many as the names.
pub record HasSpace (l : Loader) (bound : ℕ) : Type 0 where
  pub names : HasRoom l.memspec_highlevel_table bound 1
  pub ids : HasRoom l.memblock_table bound 1
  pub counted : length l.memspec_lowlevel_buffer ≡ count_of l.memspec_highlevel_table
  pub paired : length l.highlevel ≡ length l.memspec_lowlevel_buffer
  pub below : length l.memspec_lowlevel_buffer < memblock_capacity

get_elem?-snoc :
    {A : Type 0} (xs : List A) (a b : A)
    → get_elem? (set (xs ++ a ∷ []) (length xs) b) (length xs) ≡ some b
get_elem?-snoc [] a b = refl
get_elem?-snoc (x ∷ xs) a b = get_elem?-snoc xs a b

get_elem?-before :
    {A : Type 0} (xs : List A) (a b : A) (i : ℕ)
    → i < length xs
    → get_elem? (set (xs ++ a ∷ []) (length xs) b) i ≡ get_elem? xs i
get_elem?-before [] a b i h = absurd (omega arith)
get_elem?-before (x ∷ xs) a b zero h = refl
get_elem?-before (x ∷ xs) a b (suc i) h = get_elem?-before xs a b i (omega arith)

array_bound-bound_block :
    (id scale stride : ℕ)
    → (lowlevel_block id scale stride).array_bound ≡ (bound_block 0 stride scale).array_bound
array_bound-bound_block id scale stride =
    ap (λ (n : ℕ). add64 (n % 2 ^ 64) 1 % word32) (mul_comm (sub64 scale 1) stride)

-- What `mem` makes of a request, with the memory at an address.
pub record IsMem (l : Loader) (r : Request) (layout : Struct) (memory : ℕ) (l' : Loader)
    : Type 0 where
  pub block : Memblock
  pub found : get_elem? l'.memspec_lowlevel_buffer (length l.memspec_lowlevel_buffer) ≡ some block
  pub address : block.base_address ≡ memory
  -- an element that starts below `array_bound`, and a field of it that ends within
  -- `element_bound`, end within the memory
  pub in_bounds :
      (start field width : ℕ)
      → start < block.array_bound
      → field + width ≤ block.element_bound
      → start + field + width ≤ layout.byte_stride * r.scale
  pub others :
      (i : ℕ)
      → i < length l.memspec_lowlevel_buffer
      → get_elem? l'.memspec_lowlevel_buffer i ≡ get_elem? l.memspec_lowlevel_buffer i
  pub described :
      (h : Highlevel) × (get_elem? l'.highlevel (length l.highlevel) ≡ some h)
      × (h.memory ≡ memory)
      × (h.num_entries ≡ r.scale)
      × (h.definition ≡ layout)
      × (h.memblock ≡ length l.memspec_lowlevel_buffer)
  pub named :
      IsPut l.memspec_highlevel_table
        (Key.dblock r.mem_name)
        (pointer (l.highlevel_data + length l.highlevel * highlevel_size))
        l'.memspec_highlevel_table
  pub numbered :
      IsPut l.memblock_table
        (Key.dblock r.mem_name)
        (mark_value l.memblock_table.header.persistence_code
          (Value.block (from_int (length l.memspec_lowlevel_buffer))))
        l'.memblock_table

-- The loader after both names are put.
defined : Loader → Request → Struct → Table → Table → Loader
defined l r layout highlevel_table memblock_table = record l {
  memspec_highlevel_table = highlevel_table;
  highlevel =
      l.highlevel ++ highlevel_block (count_of l.memspec_highlevel_table) r.scale layout ∷ [];
  memspec_lowlevel_buffer =
      l.memspec_lowlevel_buffer
      ++ lowlevel_block (count_of l.memspec_highlevel_table) r.scale layout.byte_stride ∷ [];
  memblock_table = memblock_table;
}

-- No guard stops it and both tables take the name.
define_named-defined :
    (l : Loader) (r : Request) (layout : Struct) (bound : ℕ)
    → HasSpace l bound
    → IsKey (Key.dblock r.mem_name)
    → (t u : Table) × (define_named l r layout ≡ some (defined l r layout t u))
      × IsPut l.memspec_highlevel_table
          (Key.dblock r.mem_name)
          (pointer (l.highlevel_data + length l.highlevel * highlevel_size))
          t
      × IsPut l.memblock_table
          (Key.dblock r.mem_name)
          (mark_value l.memblock_table.header.persistence_code
            (Value.block (from_int (count_of l.memspec_highlevel_table))))
          u
unfolding define_named Option.bind mark_value defined
define_named-defined l r layout bound h key =
    let (t, e, p) =
      put-IsPut 0 h.names.inv (Key.dblock r.mem_name) key
        (pointer (l.highlevel_data + length l.highlevel * highlevel_size))
        (omega (arith, h.names.capacity, h.names.small)) in
    let (u, f, q) =
      put-IsPut 0 h.ids.inv (Key.dblock r.mem_name) key
        (Value.block (from_int (count_of l.memspec_highlevel_table)))
        (omega (arith, h.ids.capacity, h.ids.small)) in
    (t, u, rw (counted _ _ h.counted, roomy _ h.below, e, f) refl, p, q)
  where
    counted : (m n : ℕ) → m ≡ n → (m == n) ≡ true
    counted m n e = (==_iff m n).1 e

    roomy : (n : ℕ) → n < memblock_capacity → leb memblock_capacity n ≡ false
    roomy n lt = ground arith

-- When a line is read as a request with a layout and a name, the tables have space, the stride and
-- the count are at least 1 and their product is less than 2 ^ 32: `mem` returns, the new low-level
-- block is behind the others, which stay, starts at the memory, and an access that passes both of
-- its bounds lies within the memory; the high-level block describes it, and both tables give the
-- new blocks under the name and any other name what they gave before.
pub mem-IsMem :
    (l : Loader) (line : DBlock) (r : Request) (layout : Struct) (memory bound : ℕ)
    → HasSpace l bound
    → request l line ≡ some r
    → layout_of l r ≡ some layout
    → IsKey (Key.dblock r.mem_name)
    → 1 ≤ layout.byte_stride
    → 1 ≤ r.scale
    → layout.byte_stride * r.scale < 2 ^ 32
    → (l' : Loader) × (mem l line memory ≡ some l') × IsMem l r layout memory l'
unfolding mem define_mem Option.bind defined
mem-IsMem l line r layout memory bound h read found key stride scale fits =
    let id = count_of l.memspec_highlevel_table in
    let (t, u, e, p, q) = define_named-defined l r layout bound h key in
    let m_ll = lowlevel_block id r.scale layout.byte_stride in
    let m_hl = highlevel_block id r.scale layout in
    let ll : Memblock = record m_ll { offset = 0; base_address = memory } in
    let hl : Highlevel = record m_hl { type = type_alloc; memory = memory } in
    let at = length l.memspec_lowlevel_buffer in
    (
      record (defined l r layout t u) {
        memspec_lowlevel_buffer = set (l.memspec_lowlevel_buffer ++ m_ll ∷ []) at ll;
        highlevel = set (l.highlevel ++ m_hl ∷ []) at hl;
      },
      rw (read, found, e) refl,
      record {
        block = ll;
        found = get_elem?-snoc l.memspec_lowlevel_buffer m_ll ll;
        address = refl;
        in_bounds = λ start field width a b.
            access_inside layout.byte_stride r.scale start field width stride scale fits
              (subst (λ (n : ℕ). start < n) (array_bound-bound_block id r.scale layout.byte_stride)
                a)
              b;
        others = get_elem?-before l.memspec_lowlevel_buffer m_ll ll;
        described = (
          hl,
          subst
              (λ (n : ℕ).
                get_elem? (set (l.highlevel ++ m_hl ∷ []) n hl) (length l.highlevel) ≡ some hl)
              h.paired (get_elem?-snoc l.highlevel m_hl hl),
          refl,
          refl,
          refl,
          sym h.counted,
        );
        named = p;
        numbered =
            subst
              (λ (n : ℕ).
                IsPut l.memblock_table (Key.dblock r.mem_name)
                  (mark_value l.memblock_table.header.persistence_code (Value.block (from_int n)))
                  u)
              (sym h.counted) q;
      },
    )
