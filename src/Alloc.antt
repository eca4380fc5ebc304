-- ===== src/Alloc.antt =====
-- The table of mappings of tactyk_alloc__allocate and tactyk_alloc__free, libtactyk/tactyk_alloc.c,
-- built with USE_TACTYK_ALLOCATOR. What mmap returns is an argument.
pub mod RoundTrip
mod Tests
use Prim.Native.Nat.{bit_and}
use tactyk.Base.{ℕ, ◌+◌, ◌-◌, ◌*◌, ◌/◌, ◌^◌, Bool, not, Option, none, some, ◌==◌, if◌then◌else◌}
use tactyk.Base.Words.{mul64}
use tactyk.Dblock.Table.{probe}

-- struct tactyk_m_entry
pub record Entry : Type 0 where
  pub ptr : ℕ
  pub sz : ℕ

abbrev pub free_entry : Entry
free_entry = record { ptr = 0; sz = 0 }

abbrev pub Entries : Type 0
Entries = ℕ → Entry

-- TACTYK_ALLOC__MAX_PAGES
abbrev pub max_pages : ℕ
max_pages = 65536

abbrev pub pivot_of : ℕ → ℕ
pivot_of ptr = bit_and (ptr / 2 ^ 16) (max_pages - 1)

abbrev pub write_entry : Entries → ℕ → Entry → Entries
write_entry entries i e j = if i == j then e else entries j

-- `(((num>>1) + (sz>>1)) >> 63) != 0`
abbrev pub overflow_detected : ℕ → ℕ → Bool
overflow_detected num sz = not ((num / 2 + sz / 2) / 2 ^ 63 == 0)

-- What follows the search for a free entry: a full table gives NULL.
unfoldable pub record_mapping : Entries → ℕ → ℕ → Option ℕ → ℕ × Entries
record_mapping entries ptr m_size none = (0, entries)
record_mapping entries ptr m_size (some i) =
    (ptr, write_entry entries i (record { ptr = ptr; sz = m_size }))

-- `none` is the error. The search is the one of the hash tables: from the pivot to the end, then
-- from the start.
unfoldable pub allocate : Entries → ℕ → ℕ → ℕ → Option (ℕ × Entries)
allocate entries ptr num sz =
    if overflow_detected num sz
    then none
    else some (
        record_mapping entries ptr (mul64 num sz)
          (probe (λ i. (entries i).ptr == 0) max_pages (pivot_of ptr)))

-- What follows the search for the pointer: the new table, and the size that is handed to munmap.
unfoldable pub remove_mapping : Entries → Option ℕ → Entries × Option ℕ
remove_mapping entries none = (entries, none)
remove_mapping entries (some i) = (write_entry entries i free_entry, some (entries i).sz)

unfoldable pub free : Entries → ℕ → Entries × Option ℕ
free entries ptr =
    remove_mapping entries (probe (λ i. (entries i).ptr == ptr) max_pages (pivot_of ptr))
