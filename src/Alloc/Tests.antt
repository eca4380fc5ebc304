-- ===== src/Alloc/Tests.antt =====
-- The table of mappings when it is empty.
use tactyk.Base.{ℕ, ◌^◌, ◌≡◌, ◌≢◌, refl, arith, false, some}
use tactyk.Base.Words.{mul64}
use tactyk.Alloc.{free_entry, Entries, overflow_detected, allocate, free}
use tactyk.Alloc.RoundTrip.{free-allocate}

abbrev no_mappings : Entries
no_mappings i = free_entry

no_mappings_lack : (i : ℕ) → (no_mappings i).ptr ≢ 70000
no_mappings_lack i e = omega (arith, e)

-- The test is on the sum of the halves: 2 ^ 33 items of 2 ^ 33 bytes pass it, with a size of 0.
product_missed : (overflow_detected (2 ^ 33) (2 ^ 33) ≡ false) × (mul64 (2 ^ 33) (2 ^ 33) ≡ 0)
product_missed = (refl, refl)

free-allocate_example :
    (after : Entries) × (allocate no_mappings 70000 10 8 ≡ some (70000, after))
    × ((free after 70000).1 ≡ some (mul64 10 8))
    × ((i : ℕ) → (free after 70000).0 i ≡ no_mappings i)
free-allocate_example =
    free-allocate no_mappings 70000 10 8 (0, omega arith, refl) no_mappings_lack (λ i e. refl) refl
