-- ===== src/Dblock/Table/Store.antt =====
-- What tactyk_dblock__put does once the slot is found, on each of its branches.
use tactyk.Base.{
  ℕ, ◌+◌, ◌≤◌, ◌<◌, ◌≡◌, refl, sym, ap, ◌∙◌, arith, true, false, some, if◌then◌else◌, leb, inl, inr,
  Bool-cases, Option-cases, List,
}
use tactyk.Dblock.Block.{DBlock, null, node, Value, empty, pseudonull, block, pointer}
use tactyk.Dblock.Hash.{equals, update_hash}
use tactyk.Dblock.Persist.{set_persistence_code, mark_value, shallow_copy, from_c_string}
use tactyk.Dblock.Table.{
  Table, Key, c_string, dblock, value_at, is_null, header_of, table_find, capacity_of, count_of,
  key_block, stored_key, store, put_found, get, visible,
}
use tactyk.Dblock.Table.Keys.{IsKey, equals-stored_key}
use tactyk.Dblock.Table.Memory.{free_slot}
use tactyk.Dblock.Table.Inv.{Inv, find_none}
use tactyk.Dblock.Table.Insert.{
  inserted, inserted-Inv, inserted-get, value_found, get_lem, visible-null,
}
use tactyk.Dblock.Table.Overwrite.{overwritten, overwritten-Inv, overwritten-get}
use tactyk.Dblock.Table.Inv.{find_congr}

-- `t'` is the table `t` with `v` under `key`, of the same capacity, with at most one entry more.
pub record Puts (t : Table) (key : Key) (v : Value) (t' : Table) : Type 0 where
  pub inv : Inv t'
  pub reads :
      (q : Key) → get t' q ≡ (if equals (key_block key) (key_block q) then visible v else get t q)
  pub counts : count_of t' ≤ count_of t + 1
  pub capacity : capacity_of t' ≡ capacity_of t
  pub code : t'.header.persistence_code ≡ t.header.persistence_code

pub set_persistence_code_idem :
    (code : ℕ) (d : DBlock)
    → set_persistence_code code (set_persistence_code code d) ≡ set_persistence_code code d
unfolding set_persistence_code
set_persistence_code_idem code null = refl
set_persistence_code_idem code (node b s n c t st) =
    elim (Bool-cases (leb code b.persistence_code)) [
      | inl old ↦ rw old (rw old refl)
      | inr new ↦ rw new (rw (leb_refl code) refl)
    ]
  where
    leb_refl : (n : ℕ) → leb n n ≡ true
    leb_refl n = ground arith

pub mark_value_idem :
    (code : ℕ) (v : Value) → mark_value code (mark_value code v) ≡ mark_value code v
unfolding mark_value
mark_value_idem code (block d) = ap block (set_persistence_code_idem code d)
mark_value_idem code empty = refl
mark_value_idem code pseudonull = refl
mark_value_idem code (pointer p) = refl

set_persistence_code-IsKey :
    (code : ℕ) (d : DBlock) → IsKey (dblock d) → IsKey (dblock (set_persistence_code code d))
unfolding set_persistence_code
set_persistence_code-IsKey code null h = absurd h
set_persistence_code-IsKey code (node b s n c t st) h =
    elim (Bool-cases (leb code b.persistence_code)) [ inl old ↦ rw old h | inr new ↦ rw new h ]

shallow_copy-IsKey : (d : DBlock) → IsKey (dblock d) → IsKey (dblock (shallow_copy d))
unfolding shallow_copy
shallow_copy-IsKey null h = absurd h
shallow_copy-IsKey (node b s n c t st) h = h

from_c_string-IsKey : (text : List ℕ) → IsKey (dblock (from_c_string text))
unfolding from_c_string update_hash
from_c_string-IsKey text = omega arith

stored_key-IsKey : (code : ℕ) (key : Key) → IsKey key → IsKey (dblock (stored_key code key))
unfolding stored_key
stored_key-IsKey code (c_string text) h =
    set_persistence_code-IsKey code (from_c_string text) (from_c_string-IsKey text)
stored_key-IsKey code (dblock d) h = elim (Bool-cases (header_of d).self_managed) [
  | inl managed ↦
      rw managed (set_persistence_code-IsKey code (shallow_copy d) (shallow_copy-IsKey d h))
  | inr external ↦ rw external (set_persistence_code-IsKey code d h)
]

module _ {t : Table} (inv : Inv t) (key : Key) (isk : IsKey key) (v : Value)
    (marked : mark_value t.header.persistence_code v ≡ v) where
  store-Puts-inserted :
      (idx : ℕ)
      → table_find t (key_block key) ≡ some idx
      → is_null (value_at t.fields idx) ≡ true
      → is_null v ≡ false
      → Puts t key v (inserted t (stored_key t.header.persistence_code key) v idx)
  store-Puts-inserted idx at free full =
      let k = stored_key t.header.persistence_code key in
      let same = equals-stored_key t.header.persistence_code key isk in
      let isk' = stored_key-IsKey t.header.persistence_code key isk in
      record {
        inv = inserted-Inv inv (key_block key) k v idx same at free full isk' marked;
        reads = inserted-get inv (key_block key) k v idx same at free full isk' marked;
        counts = omega arith;
        capacity = refl;
        code = refl;
      }

  store-Puts-overwritten :
      (w : Value) (idx : ℕ)
      → table_find t (key_block key) ≡ some idx
      → is_null (value_at t.fields idx) ≡ false
      → is_null w ≡ false
      → mark_value t.header.persistence_code w ≡ w
      → visible w ≡ visible v
      → Puts t key v (overwritten t w idx)
  store-Puts-overwritten w idx at used full m s = record {
    inv = overwritten-Inv inv (key_block key) w idx at used full m;
    reads = λ q. rw (← s) (overwritten-get inv (key_block key) w idx at used full q);
    counts = omega arith;
    capacity = refl;
    code = refl;
  }

  -- Nothing was there, and nothing is put.
  unchanged-Puts :
      (idx : ℕ)
      → table_find t (key_block key) ≡ some idx
      → is_null (value_at t.fields idx) ≡ true
      → is_null v ≡ true
      → Puts t key v t
  unchanged-Puts idx at free null_value = record {
    inv = inv;
    reads = λ q. elim (Bool-cases (equals (key_block key) (key_block q))) [
      | inl e ↦ rw e (
          get_lem t q
          ∙ ap (value_found t) (sym (find_congr t _ _ e) ∙ at)
          ∙ visible-null _ free
          ∙ sym (visible-null v null_value))
      | inr e ↦ rw e refl
    ];
    counts = omega arith;
    capacity = refl;
    code = refl;
  }

  pub store-Puts :
      (idx : ℕ) → table_find t (key_block key) ≡ some idx → Puts t key v (store t key v idx)
  unfolding store mark_value
  store-Puts idx at = elim (Bool-cases (is_null v)) [
    | inl nothing ↦ elim (Bool-cases (is_null (value_at t.fields idx))) [
      | inl free ↦ rw (nothing, free) (unchanged-Puts idx at free nothing)
      | inr used ↦
          rw (nothing, used)
            (store-Puts-overwritten pseudonull idx at used refl refl (sym (visible-null v nothing)))
    ]
    | inr full ↦ elim (Bool-cases (is_null (value_at t.fields idx))) [
      | inl free ↦ rw (full, free) (store-Puts-inserted idx at free full)
      | inr used ↦ rw (full, used) (store-Puts-overwritten v idx at used full marked refl)
    ]
  ]

  -- With a free slot the search succeeds, and the assertion on its result holds.
  pub put_found-Puts :
      count_of t < capacity_of t → (t' : Table) × (put_found t key v ≡ some t') × Puts t key v t'
  unfolding put_found
  put_found-Puts room = elim (Option-cases (table_find t (key_block key))) [
    | inl e ↦
        let (i, lt, free) = free_slot t.fields (omega (arith, inv.counted, inv.sized)) in
        let miss = find_none inv (key_block key) e i (omega (arith, inv.sized)) in
        absurd (ground arith)
    | inr (idx, e) ↦ (store t key v idx, rw e refl, store-Puts idx e)
  ]
