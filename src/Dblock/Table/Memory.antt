-- ===== src/Dblock/Table/Memory.antt =====
-- Reads and writes of the pairs of a table, and the number of occupied slots.
use tactyk.Base.{
  ℕ, zero, suc, ◌+◌, ◌≤◌, ◌<◌, ◌≡◌, refl, arith, true, false, ap, ◌==◌, if◌then◌else◌,
}
use tactyk.Dblock.Block.{DBlock, Slots, nil, slot, Value, empty, pseudonull, block, pointer}
use tactyk.Dblock.Table.{key_at, value_at, set_slot, set_value, new_slots, is_null}

abbrev pub slots_length : Slots → ℕ
slots_length nil = 0
slots_length (slot k v s) = suc (slots_length s)

-- The slots whose value is not NULL: the live entries and the deleted ones.
abbrev pub occupied : Slots → ℕ
occupied nil = 0
occupied (slot k v s) = (if is_null v then 0 else 1) + occupied s

pub occupied-le : (s : Slots) → occupied s ≤ slots_length s
occupied-le nil = omega arith
occupied-le (slot k v s) = ground (arith, occupied-le s)

pub slots_length-set_slot :
    (s : Slots) (i : ℕ) (k : DBlock) (v : Value) → slots_length (set_slot s i k v) ≡ slots_length s
unfolding set_slot
slots_length-set_slot nil i k v = refl
slots_length-set_slot (slot k' v' s) zero k v = refl
slots_length-set_slot (slot k' v' s) (suc i) k v = ap suc (slots_length-set_slot s i k v)

pub slots_length-set_value :
    (s : Slots) (i : ℕ) (v : Value) → slots_length (set_value s i v) ≡ slots_length s
unfolding set_value
slots_length-set_value nil i v = refl
slots_length-set_value (slot k' v' s) zero v = refl
slots_length-set_value (slot k' v' s) (suc i) v = ap suc (slots_length-set_value s i v)

pub value_at-set_slot :
    (s : Slots) (i j : ℕ) (k : DBlock) (v : Value)
    → i < slots_length s
    → value_at (set_slot s i k v) j ≡ (if i == j then v else value_at s j)
unfolding set_slot value_at
value_at-set_slot nil i j k v h = absurd (omega arith)
value_at-set_slot (slot k' v' s) zero zero k v h = refl
value_at-set_slot (slot k' v' s) zero (suc j) k v h = ground arith
value_at-set_slot (slot k' v' s) (suc i) zero k v h = ground arith
value_at-set_slot (slot k' v' s) (suc i) (suc j) k v h = ground (arith, value_at-set_slot s i j k v)

pub key_at-set_slot :
    (s : Slots) (i j : ℕ) (k : DBlock) (v : Value)
    → i < slots_length s
    → key_at (set_slot s i k v) j ≡ (if i == j then k else key_at s j)
unfolding set_slot key_at
key_at-set_slot nil i j k v h = absurd (omega arith)
key_at-set_slot (slot k' v' s) zero zero k v h = refl
key_at-set_slot (slot k' v' s) zero (suc j) k v h = ground arith
key_at-set_slot (slot k' v' s) (suc i) zero k v h = ground arith
key_at-set_slot (slot k' v' s) (suc i) (suc j) k v h = ground (arith, key_at-set_slot s i j k v)

pub value_at-set_value :
    (s : Slots) (i j : ℕ) (v : Value)
    → i < slots_length s
    → value_at (set_value s i v) j ≡ (if i == j then v else value_at s j)
unfolding set_value value_at
value_at-set_value nil i j v h = absurd (omega arith)
value_at-set_value (slot k' v' s) zero zero v h = refl
value_at-set_value (slot k' v' s) zero (suc j) v h = ground arith
value_at-set_value (slot k' v' s) (suc i) zero v h = ground arith
value_at-set_value (slot k' v' s) (suc i) (suc j) v h = ground (arith, value_at-set_value s i j v)

pub key_at-set_value : (s : Slots) (i j : ℕ) (v : Value) → key_at (set_value s i v) j ≡ key_at s j
unfolding set_value key_at
key_at-set_value nil i j v = refl
key_at-set_value (slot k' v' s) zero zero v = refl
key_at-set_value (slot k' v' s) zero (suc j) v = refl
key_at-set_value (slot k' v' s) (suc i) zero v = refl
key_at-set_value (slot k' v' s) (suc i) (suc j) v = key_at-set_value s i j v

pub occupied-set_slot :
    (s : Slots) (i : ℕ) (k : DBlock) (v : Value)
    → i < slots_length s
    → is_null (value_at s i) ≡ true
    → is_null v ≡ false
    → occupied (set_slot s i k v) ≡ occupied s + 1
unfolding set_slot value_at
occupied-set_slot nil i k v h e n = absurd (omega arith)
occupied-set_slot (slot k' v' s) zero k v h e n = ground arith
occupied-set_slot (slot k' v' s) (suc i) k v h e n = ground (arith, occupied-set_slot s i k v)

pub occupied-set_value :
    (s : Slots) (i : ℕ) (v : Value)
    → is_null (value_at s i) ≡ false
    → is_null v ≡ false
    → occupied (set_value s i v) ≡ occupied s
unfolding set_value value_at
occupied-set_value nil i v e n = refl
occupied-set_value (slot k' v' s) zero v e n = ground arith
occupied-set_value (slot k' v' s) (suc i) v e n = ground (arith, occupied-set_value s i v)

-- A slot is free where not all are occupied.
pub free_slot :
    (s : Slots)
    → occupied s < slots_length s
    → (i : ℕ) × (i < slots_length s) × (is_null (value_at s i) ≡ true)
unfolding value_at
free_slot nil h = absurd (omega arith)
free_slot (slot k empty s) h = (0, omega arith, refl)
free_slot (slot k pseudonull s) h =
    let (i, lt, e) = free_slot s (omega arith) in (suc i, omega arith, e)
free_slot (slot k (block d) s) h =
    let (i, lt, e) = free_slot s (omega arith) in (suc i, omega arith, e)
free_slot (slot k (pointer p) s) h =
    let (i, lt, e) = free_slot s (omega arith) in (suc i, omega arith, e)

pub slots_length-new_slots : (n : ℕ) → slots_length (new_slots n) ≡ n
unfolding new_slots
slots_length-new_slots zero = refl
slots_length-new_slots (suc n) = ap suc (slots_length-new_slots n)

pub occupied-new_slots : (n : ℕ) → occupied (new_slots n) ≡ 0
unfolding new_slots
occupied-new_slots zero = refl
occupied-new_slots (suc n) = omega (arith, occupied-new_slots n)

pub value_at-new_slots : (n i : ℕ) → value_at (new_slots n) i ≡ empty
unfolding new_slots value_at
value_at-new_slots zero i = refl
value_at-new_slots (suc n) zero = refl
value_at-new_slots (suc n) (suc i) = value_at-new_slots n i
