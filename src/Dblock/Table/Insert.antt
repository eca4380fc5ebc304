-- ===== src/Dblock/Table/Insert.antt =====
-- A new entry, written to the free slot that the search ended at.
use tactyk.Base.{
  ℕ, ◌+◌, ◌<◌, ◌≡◌, ◌≢◌, refl, sym, ap, ◌∙◌, arith, true, false, Option, none, some, if◌then◌else◌,
  subst, inl, inr, Bool-cases,
}
use native.Mathlib.Decide.{ℕ_discrete}
use mathlib.Core.Bool.{false≢true}
use tactyk.Dblock.Block.{Block, DBlock, Value, empty, pseudonull, block, pointer}
use tactyk.Dblock.Hash.{equals}
use tactyk.Dblock.Hash.Equivalence.{equals_refl, equals_sym, equals_trans}
use tactyk.Dblock.Persist.{mark_value}
use tactyk.Dblock.Table.{
  Table, Key, dblock, key_at, value_at, set_slot, is_null, header_of, hit, table_find, count_of,
  key_block, get, visible,
}
use tactyk.Dblock.Table.Keys.{IsKey, equals_congr_right}
use tactyk.Dblock.Table.Memory.{
  slots_length, slots_length-set_slot, value_at-set_slot, key_at-set_slot, occupied-set_slot,
}
use tactyk.Dblock.Table.Inv.{Inv, find_congr, find_sound, find_none, find_narrow, find-occupied}

abbrev pub inserted : Table → DBlock → Value → ℕ → Table
inserted t k v idx = record t {
  header = record (t.header) { element_count = count_of t + 1 };
  fields = set_slot t.fields idx k v;
}

pub some_injective : (a b : ℕ) → some a ≡ some b → a ≡ b
some_injective a b e = ground arith

pub visible-null : (v : Value) → is_null v ≡ true → visible v ≡ empty
visible-null empty e = refl
visible-null pseudonull e = refl
visible-null (block d) e = cc
visible-null (pointer p) e = cc

-- The value that `get` reads at the end of its search.
abbrev pub value_found : Table → Option ℕ → Value
value_found t none = empty
value_found t (some i) = visible (value_at t.fields i)

pub get_lem : (t : Table) (q : Key) → get t q ≡ value_found t (table_find t (key_block q))
unfolding get
get_lem t q = ground arith

module _ {t : Table} (inv : Inv t) (kb : Block) (k : DBlock) (v : Value) (idx : ℕ)
    (same : equals kb (header_of k) ≡ true) (at : table_find t kb ≡ some idx)
    (free : is_null (value_at t.fields idx) ≡ true) (full : is_null v ≡ false) where
  idx-lt : idx < slots_length t.fields
  idx-lt = omega (arith, (find_sound inv kb idx at).1, inv.sized)

  value_ne : (j : ℕ) → idx ≢ j → value_at (set_slot t.fields idx k v) j ≡ value_at t.fields j
  value_ne j n = ground (arith, value_at-set_slot t.fields idx j k v idx-lt)

  key_ne : (j : ℕ) → idx ≢ j → key_at (set_slot t.fields idx k v) j ≡ key_at t.fields j
  key_ne j n = ground (arith, key_at-set_slot t.fields idx j k v idx-lt)

  value_self : value_at (set_slot t.fields idx k v) idx ≡ v
  value_self = ground (arith, value_at-set_slot t.fields idx idx k v idx-lt)

  key_self : key_at (set_slot t.fields idx k v) idx ≡ k
  key_self = ground (arith, key_at-set_slot t.fields idx idx k v idx-lt)

  hit_ne : (q : Block) (j : ℕ) → idx ≢ j → hit (set_slot t.fields idx k v) q j ≡ hit t.fields q j
  hit_ne q j n = rw (value_ne j n) (rw (key_ne j n) refl)

  hit_self : (q : Block) → hit (set_slot t.fields idx k v) q idx ≡ equals q (header_of k)
  hit_self q = rw value_self (rw key_self (rw full refl))

  hit_fewer :
      (q : Block) (j : ℕ) → hit t.fields q j ≡ false → hit (set_slot t.fields idx k v) q j ≡ false
  hit_fewer q j e = elim (ℕ_discrete idx j) [
    | yes p ↦ absurd (contradiction (subst (λ i. hit t.fields q i ≡ false) (sym p) e))
    | no n ↦ hit_ne q j n ∙ e
  ]
    where
      contradiction : hit t.fields q idx ≡ false → ⊥
      contradiction h = ground arith

  -- The search finds what it found, unless it found the free slot for another key.
  still_found :
      (q : Block) (r : ℕ)
      → table_find t q ≡ some r
      → hit (set_slot t.fields idx k v) q r ≡ true
      → table_find (inserted t k v idx) q ≡ some r
  still_found q r e s = find_narrow inv (inserted t k v idx) refl q (hit_fewer q) r e s

  found_self : (q : Block) → equals kb q ≡ true → table_find (inserted t k v idx) q ≡ some idx
  found_self q e =
      still_found q idx (sym (find_congr t kb q e) ∙ at)
        (hit_self q ∙ equals_trans q kb _ (equals_sym kb q e) same)

  inserted-found :
      (i : ℕ)
      → is_null (value_at (set_slot t.fields idx k v) i) ≡ false
      → table_find (inserted t k v idx) (header_of (key_at (set_slot t.fields idx k v) i)) ≡ some i
  inserted-found i n = elim (ℕ_discrete idx i) [
    | yes p ↦
        subst
          (λ j.
            table_find (inserted t k v idx) (header_of (key_at (set_slot t.fields idx k v) j))
            ≡ some j)
          p (rw key_self (found_self (header_of k) same))
    | no ne ↦ rw (key_ne i ne) (
        still_found (header_of (key_at t.fields i)) i (inv.found i (rw (value_ne i ne) at n))
          (hit_ne _ i ne ∙ ground (arith, equals_refl (header_of (key_at t.fields i)))))
  ]

  -- The invariant holds after the insertion.
  pub inserted-Inv :
      IsKey (dblock k) → mark_value t.header.persistence_code v ≡ v → Inv (inserted t k v idx)
  inserted-Inv isk m = record {
    sized = slots_length-set_slot t.fields idx k v ∙ inv.sized;
    memory = inv.memory;
    counted = omega (arith, occupied-set_slot t.fields idx k v idx-lt free full, inv.counted);
    positive = inv.positive;
    bounded = inv.bounded;
    found = inserted-found;
    keyed = λ i n. elim (ℕ_discrete idx i) [
      | yes p ↦
          subst (λ j. IsKey (dblock (key_at (set_slot t.fields idx k v) j))) p (rw key_self isk)
      | no ne ↦ rw (key_ne i ne) (inv.keyed i (rw (value_ne i ne) at n))
    ];
    marked = λ i. elim (ℕ_discrete idx i) [
      | yes p ↦
          subst
            (λ j.
              mark_value t.header.persistence_code (value_at (set_slot t.fields idx k v) j)
              ≡ value_at (set_slot t.fields idx k v) j)
            p (rw value_self m)
      | no ne ↦ rw (value_ne i ne) (inv.marked i)
    ];
  }

  module _ (isk : IsKey (dblock k)) (m : mark_value t.header.persistence_code v ≡ v) where
    differs : (q : Block) → equals kb q ≡ false → equals q (header_of k) ≡ false
    differs q e =
        equals_congr_right q (header_of k) kb (equals_sym kb (header_of k) same)
        ∙ ground (arith, equals_sym q kb)

    -- The old search ended at the slot that is now taken: nothing is found now either.
    taken :
        (q : Block)
        → equals kb q ≡ false
        → table_find t q ≡ some idx
        → (o : Option ℕ) → table_find (inserted t k v idx) q ≡ o
        → value_found (inserted t k v idx) o ≡ empty
    taken q e old none n = refl
    taken q e old (some r) n =
        elim (Bool-cases (is_null (value_at (set_slot t.fields idx k v) r))) [
          | inl null ↦ visible-null _ null
          | inr used ↦ absurd (clash used (ℕ_discrete idx r))
        ]
      where
        stop : hit (set_slot t.fields idx k v) q r ≡ true
        stop = (find_sound (inserted-Inv isk m) q r n).0

        clash : is_null (value_at (set_slot t.fields idx k v) r) ≡ false → Dec (idx ≡ r) → ⊥
        clash used (yes p) =
            let here : hit (set_slot t.fields idx k v) q idx ≡ true =
              subst (λ j. hit (set_slot t.fields idx k v) q j ≡ true) (sym p) stop in
            false≢true (sym (differs q e) ∙ sym (hit_self q) ∙ here)
        clash used (no ne) =
            let before : hit t.fields q r ≡ true = sym (hit_ne q r ne) ∙ stop in
            let used' : is_null (value_at t.fields r) ≡ false = rw (value_ne r ne) at used in
            let own : equals q (header_of (key_at t.fields r)) ≡ true = ground arith in
            ne (some_injective idx r (sym old ∙ find-occupied inv q r used' own))

    other-value :
        (q : Block)
        → equals kb q ≡ false
        → (o : Option ℕ) → table_find t q ≡ o
        → value_found (inserted t k v idx) (table_find (inserted t k v idx) q) ≡ value_found t o
    other-value q e none old =
        let miss : hit t.fields q idx ≡ false =
          find_none inv q old idx (find_sound inv kb idx at).1 in
        absurd (ground arith)
    other-value q e (some r) old = elim (ℕ_discrete idx r) [
      | yes p ↦
          taken q e (old ∙ ap some (sym p)) (table_find (inserted t k v idx) q) refl
          ∙ sym (visible-null _ (subst (λ j. is_null (value_at t.fields j) ≡ true) p free))
      | no ne ↦
          rw (still_found q r old (hit_ne q r ne ∙ (find_sound inv q r old).0))
            (ap visible (value_ne r ne))
    ]

    -- The new entry is read under every key that is equal to its own, and every other key reads
    -- what it read before.
    pub inserted-get :
        (q : Key)
        → get (inserted t k v idx) q ≡ (if equals kb (key_block q) then visible v else get t q)
    inserted-get q = get_lem (inserted t k v idx) q ∙ elim (Bool-cases (equals kb (key_block q))) [
      | inl e ↦ rw (e, found_self (key_block q) e) (ap visible value_self)
      | inr e ↦ rw e (other-value (key_block q) e _ refl ∙ sym (get_lem t q))
    ]
