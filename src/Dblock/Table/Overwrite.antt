-- ===== src/Dblock/Table/Overwrite.antt =====
-- The value of a slot in use is replaced: an update, or the mark of a deletion.
use tactyk.Base.{
  ℕ, ◌<◌, ◌≡◌, ◌≢◌, refl, sym, ap, ◌∙◌, arith, true, false, Option, none, some, if◌then◌else◌,
  subst, inl, inr, Bool-cases,
}
use native.Mathlib.Decide.{ℕ_discrete}
use tactyk.Dblock.Block.{Block, Value}
use tactyk.Dblock.Hash.{equals}
use tactyk.Dblock.Hash.Equivalence.{equals_sym, equals_trans}
use tactyk.Dblock.Persist.{mark_value}
use tactyk.Dblock.Table.{
  Table, Key, key_at, value_at, set_value, is_null, header_of, table_find, key_block, get, visible,
}
use tactyk.Dblock.Table.Memory.{
  slots_length, slots_length-set_value, value_at-set_value, key_at-set_value, occupied-set_value,
}
use tactyk.Dblock.Table.Inv.{Inv, find_congr, find_sound, find_ext}
use tactyk.Dblock.Table.Insert.{value_found, get_lem}

abbrev pub overwritten : Table → Value → ℕ → Table
overwritten t v idx = record t { fields = set_value t.fields idx v }

module _ {t : Table} (inv : Inv t) (kb : Block) (v : Value) (idx : ℕ)
    (at : table_find t kb ≡ some idx) (used : is_null (value_at t.fields idx) ≡ false)
    (full : is_null v ≡ false) where
  idx-lt : idx < slots_length t.fields
  idx-lt = omega (arith, (find_sound inv kb idx at).1, inv.sized)

  value_ne : (j : ℕ) → idx ≢ j → value_at (set_value t.fields idx v) j ≡ value_at t.fields j
  value_ne j n = ground (arith, value_at-set_value t.fields idx j v idx-lt)

  value_self : value_at (set_value t.fields idx v) idx ≡ v
  value_self = ground (arith, value_at-set_value t.fields idx idx v idx-lt)

  null_same :
      (j : ℕ) → is_null (value_at (set_value t.fields idx v) j) ≡ is_null (value_at t.fields j)
  null_same j = elim (ℕ_discrete idx j) [
    | yes p ↦
        subst (λ i. is_null (value_at (set_value t.fields idx v) i) ≡ is_null (value_at t.fields i))
          p (ap is_null value_self ∙ full ∙ sym used)
    | no ne ↦ ap is_null (value_ne j ne)
  ]

  same_find : (q : Block) → table_find (overwritten t v idx) q ≡ table_find t q
  same_find q =
      find_ext t (overwritten t v idx) refl q
        (λ j. rw (null_same j) (rw (key_at-set_value t.fields idx j v) refl))

  -- The invariant holds after the write.
  pub overwritten-Inv : mark_value t.header.persistence_code v ≡ v → Inv (overwritten t v idx)
  overwritten-Inv m = record {
    sized = slots_length-set_value t.fields idx v ∙ inv.sized;
    memory = inv.memory;
    counted = inv.counted ∙ sym (occupied-set_value t.fields idx v used full);
    positive = inv.positive;
    bounded = inv.bounded;
    found = λ i n.
        rw (key_at-set_value t.fields idx i v) (same_find _ ∙ inv.found i (sym (null_same i) ∙ n));
    keyed = λ i n. rw (key_at-set_value t.fields idx i v) (inv.keyed i (sym (null_same i) ∙ n));
    marked = λ i. elim (ℕ_discrete idx i) [
      | yes p ↦
          subst
            (λ j.
              mark_value t.header.persistence_code (value_at (set_value t.fields idx v) j)
              ≡ value_at (set_value t.fields idx v) j)
            p (rw value_self m)
      | no ne ↦ rw (value_ne i ne) (inv.marked i)
    ];
  }

  -- A slot in use that the searches for two keys end at: the keys are equal.
  one_slot : (q : Block) → table_find t q ≡ some idx → equals kb q ≡ true
  one_slot q e =
      let own = find_sound inv kb idx at in
      let other = find_sound inv q idx e in
      let a : equals kb (header_of (key_at t.fields idx)) ≡ true = ground (arith, own.0) in
      let b : equals q (header_of (key_at t.fields idx)) ≡ true = ground (arith, other.0) in
      equals_trans kb _ q a (equals_sym q _ b)

  other-value :
      (q : Block) (o : Option ℕ)
      → equals kb q ≡ false
      → table_find t q ≡ o
      → value_found (overwritten t v idx) o ≡ value_found t o
  other-value q none e old = refl
  other-value q (some r) e old = elim (ℕ_discrete idx r) [
    | yes p ↦
        let here : equals kb q ≡ true = one_slot q (old ∙ ap some (sym p)) in absurd (ground arith)
    | no ne ↦ ap visible (value_ne r ne)
  ]

  -- The new value is read under every key that is equal to the entry's, and every other key reads
  -- what it read before.
  pub overwritten-get :
      (q : Key)
      → get (overwritten t v idx) q ≡ (if equals kb (key_block q) then visible v else get t q)
  overwritten-get q =
      get_lem (overwritten t v idx) q ∙ elim (Bool-cases (equals kb (key_block q))) [
        | inl e ↦
            rw (e, same_find (key_block q), sym (find_congr t kb (key_block q) e) ∙ at)
              (ap visible value_self)
        | inr e ↦
            rw (e, same_find (key_block q)) (other-value (key_block q) _ e refl ∙ sym (get_lem t q))
      ]
