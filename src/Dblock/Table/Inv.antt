-- ===== src/Dblock/Table/Inv.antt =====
-- The well-formedness of a table, and what it says of a search.
use Prim.Native.Nat.{bit_and}
use tactyk.Base.{ℕ, ◌*◌, ◌^◌, ◌≤◌, ◌<◌, ◌≡◌, refl, ap, ◌∙◌, arith, true, false, none, some, fun_ext}
use tactyk.Base.Words.{sub64}
use tactyk.Base.Bits.{bit_and-le_right}
use tactyk.Dblock.Block.{Block}
use tactyk.Dblock.Hash.{equals}
use tactyk.Dblock.Hash.Equivalence.{equals-hashcode}
use tactyk.Dblock.Persist.{mark_value}
use tactyk.Dblock.Table.{
  Table, dblock, key_at, value_at, is_null, header_of, hit, probe, preferred, table_find,
  capacity_of, count_of,
}
use tactyk.Dblock.Table.Scan.{probe_sound, probe_none, probe_narrow}
use tactyk.Dblock.Table.Keys.{IsKey, equals_congr_left}
use tactyk.Dblock.Table.Memory.{slots_length, occupied}

-- The memory has the size that the fields say, the entries are counted, and the search for the key
-- of an occupied slot ends at that slot: so the keys are distinct, and none is behind a free slot.
pub record Inv (t : Table) : Type 0 where
  pub sized : slots_length t.fields ≡ capacity_of t
  pub memory : t.header.capacity ≡ 16 * capacity_of t
  pub counted : count_of t ≡ occupied t.fields
  pub positive : 0 < capacity_of t
  pub bounded : capacity_of t < 2 ^ 60
  pub found :
      (i : ℕ)
      → is_null (value_at t.fields i) ≡ false
      → table_find t (header_of (key_at t.fields i)) ≡ some i
  pub keyed : (i : ℕ) → is_null (value_at t.fields i) ≡ false → IsKey (dblock (key_at t.fields i))
  pub marked :
      (i : ℕ) → mark_value t.header.persistence_code (value_at t.fields i) ≡ value_at t.fields i

preferred-le :
    (capacity : ℕ) (q : Block) → 0 < capacity → capacity < 2 ^ 60 → preferred capacity q ≤ capacity
preferred-le capacity q p b = omega (arith, bit_and-le_right q.hashcode (sub64 capacity 1))

pub find_congr : (t : Table) (a b : Block) → equals a b ≡ true → table_find t a ≡ table_find t b
unfolding table_find
find_congr t a b e =
    ap (λ h. probe (hit t.fields a) (capacity_of t) (bit_and h (sub64 (capacity_of t) 1)))
      (equals-hashcode a b e)
    ∙ ap (λ f. probe f (capacity_of t) (preferred (capacity_of t) b))
        (fun_ext λ i. rw (equals_congr_left a b (header_of (key_at t.fields i)) e) refl)

module _ {t : Table} (inv : Inv t) where
  pub find_sound :
      (q : Block) (r : ℕ)
      → table_find t q ≡ some r
      → (hit t.fields q r ≡ true) × (r < capacity_of t)
  unfolding table_find
  find_sound q r e =
      probe_sound (capacity_of t) _ (preferred-le _ q inv.positive inv.bounded) (hit t.fields q) r e

  pub find_none :
      (q : Block) → table_find t q ≡ none → (j : ℕ) → j < capacity_of t → hit t.fields q j ≡ false
  unfolding table_find
  find_none q e =
      probe_none (capacity_of t) _ (preferred-le _ q inv.positive inv.bounded) (hit t.fields q) e

  -- The search in a table of the same capacity.
  pub find_narrow :
      (u : Table)
      → capacity_of u ≡ capacity_of t
      → (q : Block) → ((j : ℕ) → hit t.fields q j ≡ false → hit u.fields q j ≡ false)
      → (r : ℕ) → table_find t q ≡ some r
      → hit u.fields q r ≡ true
      → table_find u q ≡ some r
  unfolding table_find
  find_narrow u c q h r e s = rw c (
      probe_narrow (capacity_of t) _ (preferred-le _ q inv.positive inv.bounded) (hit t.fields q)
        (hit u.fields q) h r e s)

  -- An occupied slot whose key is equal to `q` is the one that the search for `q` finds.
  pub find-occupied :
      (q : Block) (i : ℕ)
      → is_null (value_at t.fields i) ≡ false
      → equals q (header_of (key_at t.fields i)) ≡ true
      → table_find t q ≡ some i
  find-occupied q i n e = find_congr t q _ e ∙ inv.found i n

pub find_ext :
    (t u : Table)
    → capacity_of u ≡ capacity_of t
    → (q : Block) → ((j : ℕ) → hit u.fields q j ≡ hit t.fields q j)
    → table_find u q ≡ table_find t q
unfolding table_find
find_ext t u c q h =
    rw c (ap (λ f. probe f (capacity_of t) (preferred (capacity_of t) q)) (fun_ext h))
