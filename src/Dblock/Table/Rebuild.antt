-- ===== src/Dblock/Table/Rebuild.antt =====
-- tactyk_dblock__rebuild_table: the live entries go to a table of twice the capacity, and every key
-- reads there what it read before.
use mathlib.Core.Option
use tactyk.Base.{
  ℕ, zero, suc, ◌+◌, ◌≤◌, ◌<◌, ◌≡◌, ◌≢◌, refl, sym, ap, ◌∙◌, arith, Bool, true, false, ◌&&◌, Option,
  none, some, if◌then◌else◌, inl, inr, Bool-cases, subst,
}
use mathlib.Core.Bool.{false≢true}
use tactyk.Dblock.Block.{Block, DBlock, Slots, nil, slot, Value, empty, pseudonull, block, pointer}
use tactyk.Dblock.Hash.{equals}
use tactyk.Dblock.Hash.Equivalence.{equals_sym}
use tactyk.Dblock.Persist.{mark_value}
use tactyk.Dblock.Table.{
  Table, Key, dblock, key_at, value_at, is_null, header_of, table_find, capacity_of, count_of,
  key_block, from_string_or_dblock, reinsert, get, visible,
}
use tactyk.Dblock.Table.Keys.{IsKey}
use tactyk.Dblock.Table.Memory.{slots_length}
use tactyk.Dblock.Table.Inv.{Inv, find_sound, find-occupied}
use tactyk.Dblock.Table.Insert.{value_found, get_lem, some_injective}
use tactyk.Dblock.Table.Store.{Puts}

-- neither NULL nor TACTYK_PSEUDONULL
abbrev pub live : Value → Bool
live empty = false
live pseudonull = false
live (block d) = true
live (pointer p) = true

-- What a key reads after the entries of `s` were put one after another.
abbrev pub replay : Slots → Value → Block → Value
replay nil acc q = acc
replay (slot k v s) acc q = replay s (if live v && equals (header_of k) q then v else acc) q

replay_none :
    (s : Slots) (acc : Value) (q : Block)
    → ((i : ℕ) → live (value_at s i) ≡ true → equals (header_of (key_at s i)) q ≡ false)
    → replay s acc q ≡ acc
unfolding value_at key_at
replay_none nil acc q h = refl
replay_none (slot k v s) acc q h = elim (Bool-cases (live v)) [
  | inl alive ↦ rw (alive, h 0 alive) (replay_none s acc q (λ i. h (suc i)))
  | inr dead ↦ rw dead (replay_none s acc q (λ i. h (suc i)))
]

replay_one :
    (s : Slots) (acc : Value) (q : Block) (r : ℕ)
    → live (value_at s r) ≡ true
    → equals (header_of (key_at s r)) q ≡ true
    → ((i : ℕ) → i ≢ r → live (value_at s i) ≡ true → equals (header_of (key_at s i)) q ≡ false)
    → replay s acc q ≡ value_at s r
unfolding value_at key_at
replay_one nil acc q r alive e h = cc
replay_one (slot k v s) acc q zero alive e h =
    rw (alive, e) (replay_none s v q (λ i. h (suc i) (omega arith)))
replay_one (slot k v s) acc q (suc r) alive e h =
    replay_one s _ q r alive e (λ i n. h (suc i) (omega arith))

visible-live : (v : Value) → live v ≡ true → (visible v ≡ v) × (is_null v ≡ false)
visible-live empty e = cc
visible-live pseudonull e = cc
visible-live (block d) e = (refl, refl)
visible-live (pointer p) e = (refl, refl)

visible-dead : (v : Value) → live v ≡ false → visible v ≡ empty
visible-dead empty e = refl
visible-dead pseudonull e = refl
visible-dead (block d) e = cc
visible-dead (pointer p) e = cc

module _ {t : Table} (inv : Inv t) (q : Block) where
  -- A live entry under an equal key is the one that the search ends at.
  own :
      (i : ℕ)
      → live (value_at t.fields i) ≡ true
      → equals (header_of (key_at t.fields i)) q ≡ true
      → table_find t q ≡ some i
  own i alive e =
      find-occupied inv q i (visible-live _ alive).1
        (equals_sym (header_of (key_at t.fields i)) q e)

  not_true : (b : Bool) → ¬ (b ≡ true) → b ≡ false
  not_true b h = ground arith

  replay-found : (o : Option ℕ) → table_find t q ≡ o → replay t.fields empty q ≡ value_found t o
  replay-found none e =
      replay_none t.fields empty q
        (λ i alive. not_true _ (λ h. absurd (clash (sym e ∙ own i alive h))))
    where
      clash : {i : ℕ} → none ≡ some i → ⊥
      clash h = cc
  replay-found (some r) e = elim (Bool-cases (live (value_at t.fields r))) [
    | inl alive ↦
        let (shown, full) = visible-live _ alive in
        let stop = (find_sound inv q r e).0 in
        let mine : equals q (header_of (key_at t.fields r)) ≡ true = ground arith in
        replay_one t.fields empty q r alive (equals_sym q _ mine)
          (λ i n others. not_true _ (λ h. n (some_injective i r (sym (own i others h) ∙ e))))
        ∙ sym shown
    | inr dead ↦
        replay_none t.fields empty q (λ i alive. not_true _ (λ h.
          let p : r ≡ i = some_injective r i (sym e ∙ own i alive h) in
          false≢true (sym dead ∙ subst (λ j. live (value_at t.fields j) ≡ true) (sym p) alive)))
        ∙ sym (visible-dead _ dead)
  ]

-- Every key reads what the entries of the table say.
pub get-replay : {t : Table} (inv : Inv t) (q : Key) → get t q ≡ replay t.fields empty (key_block q)
get-replay {t} inv q = get_lem t q ∙ sym (replay-found inv (key_block q) _ refl)

-- The entries of `s` may be put in a table with the persistence code `code`.
abbrev pub Fits : ℕ → Slots → Type 0
Fits code s =
    (i : ℕ)
    → is_null (value_at s i) ≡ false
    → IsKey (dblock (key_at s i)) × (mark_value code (value_at s i) ≡ value_at s i)

-- `t'` is `t` with the entries of `s` put one after another.
pub record Rebuilt (s : Slots) (t t' : Table) : Type 0 where
  pub inv : Inv t'
  pub reads : (q : Key) → get t' q ≡ replay s (get t q) (key_block q)
  pub counts : count_of t' ≤ count_of t + slots_length s
  pub capacity : capacity_of t' ≡ capacity_of t
  pub code : t'.header.persistence_code ≡ t.header.persistence_code

Rebuilt-skip :
    (k : DBlock) (v : Value) (s : Slots) (t t' : Table)
    → live v ≡ false
    → Rebuilt s t t'
    → Rebuilt (slot k v s) t t'
Rebuilt-skip k v s t t' dead r = record {
  inv = r.inv;
  reads = λ q. r.reads q ∙ rw dead refl;
  counts = omega (arith, r.counts);
  capacity = r.capacity;
  code = r.code;
}

Rebuilt-put :
    (k : DBlock) (v : Value) (s : Slots) (t u t' : Table)
    → live v ≡ true
    → Puts t (dblock k) v u
    → Rebuilt s u t'
    → Rebuilt (slot k v s) t t'
unfolding from_string_or_dblock
Rebuilt-put k v s t u t' alive p r = record {
  inv = r.inv;
  reads = λ q.
      r.reads q
      ∙ ap (λ a. replay s a (key_block q)) (p.reads q ∙ rw (alive, (visible-live v alive).0) refl);
  counts = omega (arith, r.counts, p.counts);
  capacity = r.capacity ∙ p.capacity;
  code = r.code ∙ p.code;
}

module _ (code : ℕ) (put : Table → Key → Value → Option Table)
    (put_lem : (t : Table) (key : Key) (v : Value)
      → Inv t
      → IsKey key
      → mark_value code v ≡ v
      → t.header.persistence_code ≡ code
      → count_of t < capacity_of t
      → (t' : Table) × (put t key v ≡ some t') × Puts t key v t') where
  -- The entries find room as long as there are as many free slots.
  pub reinsert-Rebuilt :
      (s : Slots) (t : Table)
      → Inv t
      → t.header.persistence_code ≡ code
      → count_of t + slots_length s ≤ capacity_of t
      → Fits code s
      → (t' : Table) × (reinsert put s (slots_length s) t ≡ some t') × Rebuilt s t t'
  unfolding reinsert value_at key_at Option.bind
  reinsert-Rebuilt nil t inv c room fits = (
    t,
    refl,
    record { inv = inv; reads = λ q. refl; counts = omega arith; capacity = refl; code = refl },
  )
  reinsert-Rebuilt (slot k empty s) t inv c room fits =
      let (t', e, r) = reinsert-Rebuilt s t inv c (omega arith) (λ i. fits (suc i)) in
      (t', e, Rebuilt-skip k empty s t t' refl r)
  reinsert-Rebuilt (slot k pseudonull s) t inv c room fits =
      let (t', e, r) = reinsert-Rebuilt s t inv c (omega arith) (λ i. fits (suc i)) in
      (t', e, Rebuilt-skip k pseudonull s t t' refl r)
  reinsert-Rebuilt (slot k (block d) s) t inv c room fits =
      let (isk, m) = fits 0 refl in
      let (u, e, p) = put_lem t (dblock k) (block d) inv isk m c (omega arith) in
      let (t', e', r) =
        reinsert-Rebuilt s u p.inv (p.code ∙ c) (omega (arith, p.counts, p.capacity))
          (λ i. fits (suc i)) in
      (t', rw e e', Rebuilt-put k (block d) s t u t' refl p r)
  reinsert-Rebuilt (slot k (pointer a) s) t inv c room fits =
      let (isk, m) = fits 0 refl in
      let (u, e, p) = put_lem t (dblock k) (pointer a) inv isk m c (omega arith) in
      let (t', e', r) =
        reinsert-Rebuilt s u p.inv (p.code ∙ c) (omega (arith, p.counts, p.capacity))
          (λ i. fits (suc i)) in
      (t', rw e e', Rebuilt-put k (pointer a) s t u t' refl p r)
