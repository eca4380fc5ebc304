-- ===== src/Alloc/RoundTrip.antt =====
-- Freeing what was allocated unmaps its size and leaves the table of mappings as it was.
use mathlib.Core.Bool.{false≢true}
use tactyk.Base.{
  ℕ, ◌-◌, ◌/◌, ◌^◌, ◌≤◌, ◌<◌, ◌≡◌, ◌≢◌, inl, inr, refl, sym, ap, ◌∙◌, subst, arith, Bool, true,
  false, some, ◌==◌, ==_iff, Bool-cases, Option-cases,
}
use tactyk.Base.Bits.{bit_and-le_right}
use tactyk.Base.Words.{mul64}
use tactyk.Dblock.Table.{probe}
use tactyk.Dblock.Table.Scan.{probe_sound, probe_none, probe_narrow}
use tactyk.Alloc.{
  Entry, free_entry, Entries, max_pages, pivot_of, write_entry, overflow_detected, record_mapping,
  allocate, remove_mapping, free,
}

pivot_of-le : (ptr : ℕ) → pivot_of ptr ≤ max_pages
pivot_of-le ptr = omega (arith, bit_and-le_right (ptr / 2 ^ 16) (max_pages - 1))

abbrev is_free : Entries → ℕ → Bool
is_free entries i = (entries i).ptr == 0

differs : (a b : ℕ) → a ≢ b → (a == b) ≡ false
differs a b h = elim (Bool-cases (a == b)) [
  | inl same ↦ absurd (h ((==_iff a b).0 same))
  | inr other ↦ other
]

free_found :
    (entries : Entries) (ptr : ℕ)
    → (j : ℕ) × (j < max_pages) × ((entries j).ptr ≡ 0)
    → (i : ℕ) × (probe (is_free entries) max_pages (pivot_of ptr) ≡ some i)
free_found entries ptr (j, inside, vacant) =
    elim (Option-cases (probe (is_free entries) max_pages (pivot_of ptr))) [
      | inl missed ↦ absurd (
          false≢true (
            sym (
              probe_none max_pages (pivot_of ptr) (pivot_of-le ptr) (is_free entries) missed j
                inside)
            ∙ (==_iff _ 0).1 vacant))
      | inr (i, e) ↦ (i, e)
    ]

-- The entry that `allocate` wrote is the one that `free` finds.
same_index :
    (entries : Entries) (ptr sz i : ℕ)
    → ((j : ℕ) → (entries j).ptr ≢ ptr)
    → probe (is_free entries) max_pages (pivot_of ptr) ≡ some i
    → probe
        (λ j. (write_entry entries i (record { ptr = ptr; sz = sz }) j).ptr == ptr)
        max_pages
        (pivot_of ptr)
      ≡ some i
same_index entries ptr sz i fresh e =
    probe_narrow max_pages (pivot_of ptr) (pivot_of-le ptr) (is_free entries) _ narrower i e at_i
  where
    vacant : is_free entries i ≡ true
    vacant = (probe_sound max_pages (pivot_of ptr) (pivot_of-le ptr) (is_free entries) i e).0

    at_i : ((write_entry entries i (record { ptr = ptr; sz = sz }) i).ptr == ptr) ≡ true
    at_i = rw ((==_iff i i).1 refl) ((==_iff ptr ptr).1 refl)

    narrower :
        (j : ℕ)
        → is_free entries j ≡ false
        → ((write_entry entries i (record { ptr = ptr; sz = sz }) j).ptr == ptr) ≡ false
    narrower j taken = elim (Bool-cases (i == j)) [
      | inl same ↦ absurd (
          false≢true
            (sym taken ∙ subst (λ (k : ℕ). is_free entries k ≡ true) ((==_iff i j).0 same) vacant))
      | inr other ↦ rw other (differs (entries j).ptr ptr (fresh j))
    ]

vacant_entry :
    (entries : Entries) (ptr i : ℕ)
    → probe (is_free entries) max_pages (pivot_of ptr) ≡ some i
    → (entries i).ptr ≡ 0
vacant_entry entries ptr i e =
    (==_iff _ 0).0 (probe_sound max_pages (pivot_of ptr) (pivot_of-le ptr) (is_free entries) i e).0

written : (entries : Entries) (i : ℕ) (e : Entry) → write_entry entries i e i ≡ e
written entries i e = rw ((==_iff i i).1 refl) refl

restored :
    (entries : Entries) (i : ℕ) (e : Entry) (j : ℕ)
    → entries i ≡ free_entry
    → write_entry (write_entry entries i e) i free_entry j ≡ entries j
restored entries i e j h = elim (Bool-cases (i == j)) [
  | inl same ↦ rw same (sym h ∙ ap entries ((==_iff i j).0 same))
  | inr other ↦ rw other refl
]

-- With a free entry, a pointer that is not in the table, sizes that pass the overflow test, and
-- entries that are free only when clear: `allocate` returns the pointer, and `free` of it unmaps
-- the product of the sizes (modulo 2 ^ 64) and leaves every entry as it was at first.
pub free-allocate :
    (entries : Entries) (ptr num sz : ℕ)
    → (j : ℕ) × (j < max_pages) × ((entries j).ptr ≡ 0)
    → ((i : ℕ) → (entries i).ptr ≢ ptr)
    → ((i : ℕ) → (entries i).ptr ≡ 0 → entries i ≡ free_entry)
    → overflow_detected num sz ≡ false
    → (after : Entries) × (allocate entries ptr num sz ≡ some (ptr, after))
      × ((free after ptr).1 ≡ some (mul64 num sz))
      × ((i : ℕ) → (free after ptr).0 i ≡ entries i)
unfolding allocate free record_mapping remove_mapping
free-allocate entries ptr num sz room fresh clear fits =
    let (index, seen) = free_found entries ptr room in
    let now = write_entry entries index (record { ptr = ptr; sz = mul64 num sz }) in
    let again = same_index entries ptr (mul64 num sz) index fresh seen in
    let gone = ap (remove_mapping now) again in
    (
      now,
      rw fits (ap (λ r. some (record_mapping entries ptr (mul64 num sz) r)) seen),
      ap (λ r. r.1) gone
          ∙ ap (λ (e : Entry). some e.sz)
              (written entries index (record { ptr = ptr; sz = mul64 num sz })),
      λ i.
          ap (λ r. r.0 i) gone
          ∙ restored entries index (record { ptr = ptr; sz = mul64 num sz }) i
              (clear index (vacant_entry entries ptr index seen)),
    )
