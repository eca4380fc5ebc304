-- ===== src/Dblock/Table/Map.antt =====
-- A table is a map from the equality classes of keys to values: tactyk_dblock__put, get and delete.
use mathlib.Core.Option
use tactyk.Base.{
  ℕ, suc, ◌+◌, ◌*◌, ◌^◌, ◌≤◌, ◌<◌, ◌≡◌, refl, sym, ap, ◌∙◌, arith, true, false, Option, none, some,
  if◌then◌else◌, ◌==◌, ==_iff, inl, inr, Bool-cases, subst,
}
use mathlib.Core.Bool.{false≢true}
use tactyk.Base.Words.{mul64}
use tactyk.Dblock.Block.{Value, empty}
use tactyk.Dblock.Hash.{equals}
use tactyk.Dblock.Persist.{mark_value}
use tactyk.Dblock.Table.{
  Table, Key, value_at, is_null, table_find, capacity_of, count_of, key_block, get, put, put_found,
  reinsert, rebuild_table, new_slots, new_table, visible,
}
use tactyk.Util.Pow2.{next_pow2}
use tactyk.Util.Pow2.Least.{next_pow2-least}
use tactyk.Dblock.Table.Keys.{IsKey}
use tactyk.Dblock.Table.Memory.{
  slots_length-new_slots, occupied-new_slots, value_at-new_slots, occupied-le,
}
use tactyk.Dblock.Table.Inv.{Inv}
use tactyk.Dblock.Table.Insert.{value_found, get_lem}
use tactyk.Dblock.Table.Store.{Puts, mark_value_idem, put_found-Puts}
use tactyk.Dblock.Table.Rebuild.{replay, get-replay, reinsert-Rebuilt}

-- A table with a free slot is not rebuilt.
put-Puts :
    (fuel : ℕ) {t : Table} (inv : Inv t) (key : Key) (isk : IsKey key) (v : Value)
    → count_of t < capacity_of t
    → (t' : Table) × (put (suc fuel) t key v ≡ some t')
      × Puts t key (mark_value t.header.persistence_code v) t'
unfolding put
put-Puts fuel {t} inv key isk v room =
    let (t', e, p) =
      put_found-Puts inv key isk (mark_value t.header.persistence_code v)
        (mark_value_idem t.header.persistence_code v) room in
    (t', ground arith, p)

put-Puts_marked :
    (fuel code : ℕ) (t : Table) (key : Key) (v : Value)
    → Inv t
    → IsKey key
    → mark_value code v ≡ v
    → t.header.persistence_code ≡ code
    → count_of t < capacity_of t
    → (t' : Table) × (put (suc fuel) t key v ≡ some t') × Puts t key v t'
put-Puts_marked fuel code t key v inv isk m c room =
    let (t', e, p) = put-Puts fuel inv key isk v room in
    (t', e, subst (λ w. Puts t key w t') (rw c m) p)

-- The table that the rebuild starts from.
grown : Table → ℕ → Table
grown t n = record t {
  header = record (t.header) { element_capacity = n; capacity = mul64 n 16; element_count = 0 };
  fields = new_slots n;
}

all_free : (n i : ℕ) → is_null (value_at (new_slots n) i) ≡ false → ⊥
all_free n i e = false≢true (sym e ∙ ap is_null (value_at-new_slots n i))

grown-Inv : (t : Table) (n : ℕ) → 0 < n → n < 2 ^ 60 → Inv (grown t n)
unfolding grown
grown-Inv t n p b = record {
  sized = slots_length-new_slots n;
  memory = omega arith;
  counted = sym (occupied-new_slots n);
  positive = p;
  bounded = b;
  found = λ i e. absurd (all_free n i e);
  keyed = λ i e. absurd (all_free n i e);
  marked = λ i. rw (value_at-new_slots n i) (unfold mark_value in refl);
}

get-grown : (t : Table) (n : ℕ) (q : Key) → get (grown t n) q ≡ empty
unfolding grown
get-grown t n q = get_lem _ q ∙ nothing (table_find _ (key_block q))
  where
    nothing : (o : Option ℕ) → value_found (grown t n) o ≡ empty
    nothing none = refl
    nothing (some i) = ap visible (value_at-new_slots n i)

-- `t'` holds what `t` holds, in twice the capacity.
record Doubled (t t' : Table) : Type 0 where
  inv : Inv t'
  reads : (q : Key) → get t' q ≡ get t q
  counts : count_of t' ≤ count_of t
  capacity : capacity_of t' ≡ 2 * capacity_of t
  code : t'.header.persistence_code ≡ t.header.persistence_code

rebuild_table-eq :
    (f : Table → Key → Value → Option Table) (t : Table) (n : ℕ)
    → n ≡ 2 * capacity_of t
    → 0 < capacity_of t
    → t.header.capacity ≡ 16 * capacity_of t
    → n < 2 ^ 60
    → rebuild_table f t n ≡ reinsert f t.fields (capacity_of t) (grown t n)
unfolding rebuild_table grown
rebuild_table-eq f t n e p m b = ground arith

rebuild_table-Doubled :
    (fuel : ℕ) {t : Table} (inv : Inv t) (n : ℕ)
    → n ≡ 2 * capacity_of t
    → capacity_of t < 2 ^ 59
    → count_of t ≡ capacity_of t
    → (t' : Table) × (rebuild_table (put (suc fuel)) t n ≡ some t') × Doubled t t'
unfolding grown
rebuild_table-Doubled fuel {t} inv n e b full =
    let (t', eq, r) =
      reinsert-Rebuilt t.header.persistence_code (put (suc fuel))
        (put-Puts_marked fuel t.header.persistence_code) t.fields (grown t n)
        (grown-Inv t n (omega (arith, inv.positive)) (omega arith)) refl (omega (arith, inv.sized))
        (λ i u. (inv.keyed i u, inv.marked i)) in
    (
      t',
      rebuild_table-eq (put (suc fuel)) t n e inv.positive inv.memory (omega arith)
          ∙ subst (λ m. reinsert (put (suc fuel)) t.fields m (grown t n) ≡ some t') inv.sized eq,
      record {
        inv = r.inv;
        reads = λ q.
            r.reads q
            ∙ ap (λ a. replay t.fields a (key_block q)) (get-grown t n q)
            ∙ sym (get-replay inv q);
        counts = omega (arith, r.counts, inv.sized);
        capacity = r.capacity ∙ e;
        code = r.code;
      },
    )

count-lt : {t : Table} → Inv t → count_of t == capacity_of t ≡ false → count_of t < capacity_of t
count-lt {t} inv room = ground (arith, occupied-le t.fields, inv.counted, inv.sized)

put_full :
    (f : ℕ) (t u : Table) (key : Key) (v : Value)
    → count_of t == capacity_of t ≡ true
    → rebuild_table (put f) t (mul64 (count_of t) 2) ≡ some u
    → put (suc f) t key v ≡ put_found u key (mark_value t.header.persistence_code v)
unfolding put Option.bind
put_full f t u key v full e = rw e (rw full (ground arith))

-- `t'` holds what `t` holds but for `v` under the keys that are equal to `key`. A full table has
-- doubled its capacity.
pub record IsPut (t : Table) (key : Key) (v : Value) (t' : Table) : Type 0 where
  pub inv : Inv t'
  pub reads :
      (q : Key) → get t' q ≡ (if equals (key_block key) (key_block q) then visible v else get t q)
  pub capacity :
      capacity_of t' ≡ (if count_of t == capacity_of t then 2 * capacity_of t else capacity_of t)
  pub counts : count_of t' ≤ count_of t + 1
  pub code : t'.header.persistence_code ≡ t.header.persistence_code

-- Puts a value in a well-formed table of fewer than 2 ^ 59 slots, full or not, under a C string or
-- a block: two levels of calls are enough, no assertion fails, the table stays well-formed, `get`
-- gives the value (marked with the persistence code of the table) for every key that is equal to
-- the key, and for every other key what it gave before. A full table doubles, another keeps its
-- capacity. The count of entries grows by one at most.
pub put-IsPut :
    (fuel : ℕ) {t : Table} (inv : Inv t) (key : Key) (isk : IsKey key) (v : Value)
    → capacity_of t < 2 ^ 59
    → (t' : Table) × (put (suc (suc fuel)) t key v ≡ some t')
      × IsPut t key (mark_value t.header.persistence_code v) t'
put-IsPut fuel {t} inv key isk v b = elim (Bool-cases (count_of t == capacity_of t)) [
  | inl full ↦
      let eq : count_of t ≡ capacity_of t = (==_iff _ _).0 full in
      let (u, e, d) = rebuild_table-Doubled fuel inv (mul64 (count_of t) 2) (omega arith) b eq in
      let (t', e', p) =
        put_found-Puts d.inv key isk (mark_value t.header.persistence_code v)
          (rw d.code (mark_value_idem t.header.persistence_code v))
          (omega (arith, d.counts, d.capacity, inv.positive)) in
      (
        t',
        put_full (suc fuel) t u key v full e ∙ e',
        record {
          inv = p.inv;
          reads = λ q. p.reads q ∙ rw (d.reads q) refl;
          capacity = p.capacity ∙ d.capacity ∙ rw full refl;
          counts = omega (arith, p.counts, d.counts);
          code = p.code ∙ d.code;
        },
      )
  | inr room ↦
      let (t', e, p) = put-Puts (suc fuel) inv key isk v (count-lt inv room) in
      (
        t',
        e,
        record {
          inv = p.inv;
          reads = p.reads;
          capacity = p.capacity ∙ rw room refl;
          counts = p.counts;
          code = p.code;
        },
      )
]

sized : (n : ℕ) → 1 ≤ n → n ≤ 2 ^ 59 → (n ≤ next_pow2 n) × (next_pow2 n < 2 * n)
sized n p b = pack (next_pow2-least n p (omega arith))
  where
    pack :
        (k : ℕ) × (next_pow2 n ≡ 2 ^ k) × (n ≤ next_pow2 n) × (next_pow2 n < 2 * n)
        → (n ≤ next_pow2 n) × (next_pow2 n < 2 * n)
    pack (k, e, lo, hi) = (lo, hi)

-- A table made for 1 to 2 ^ 59 entries is well-formed, has at least that capacity and less than
-- twice as much, and reads NULL under every key.
pub new_table-Inv :
    (n : ℕ)
    → 1 ≤ n
    → n ≤ 2 ^ 59
    → Inv (new_table n)
      × (n ≤ capacity_of (new_table n))
      × (capacity_of (new_table n) < 2 * n)
      × ((q : Key) → get (new_table n) q ≡ empty)
unfolding new_table
new_table-Inv n p b =
    let size : (n ≤ next_pow2 n) × (next_pow2 n < 2 * n) = sized n p b in
    (
      record {
        sized = slots_length-new_slots (next_pow2 n);
        memory = omega arith;
        counted = sym (occupied-new_slots (next_pow2 n));
        positive = omega arith;
        bounded = omega arith;
        found = λ i e. absurd (all_free (next_pow2 n) i e);
        keyed = λ i e. absurd (all_free (next_pow2 n) i e);
        marked = λ i. rw (value_at-new_slots (next_pow2 n) i) (unfold mark_value in refl);
      },
      size.0,
      size.1,
      λ q. get_lem (new_table n) q ∙ nothing (table_find (new_table n) (key_block q)),
    )
  where
    nothing : (o : Option ℕ) → value_found (new_table n) o ≡ empty
    nothing none = refl
    nothing (some i) = ap visible (value_at-new_slots (next_pow2 n) i)
