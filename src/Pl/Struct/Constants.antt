-- ===== src/Pl/Struct/Constants.antt =====
-- The constants that a struct puts in a table.
use tactyk.Base.{
  ℕ, suc, ◌+◌, ◌*◌, ◌^◌, ◌≤◌, ◌<◌, ◌≡◌, ap, arith, if◌then◌else◌, List, [], ◌∷◌, some,
}
use tactyk.Dblock.Block.{Value, block}
use tactyk.Dblock.Hash.{equals}
use tactyk.Dblock.Number.{from_int}
use tactyk.Dblock.Persist.{mark_value}
use tactyk.Dblock.Table.{Table, Key, c_string, capacity_of, count_of, key_block, get, visible}
use tactyk.Dblock.Table.Inv.{Inv}
use tactyk.Dblock.Table.Map.{put-IsPut}
use tactyk.Pl.Struct.{put_constant}

-- What keys read after constants were put, the first one first, where `reads` was read before.
abbrev pub after_constants : (Key → Value) → ℕ → List (List ℕ × ℕ) → Key → Value
after_constants reads code [] = reads
after_constants reads code ((name, value) ∷ more) =
    after_constants
      (λ q.
        if equals (key_block (c_string name)) (key_block q)
        then visible (mark_value code (block (from_int value)))
        else reads q)
      code more

-- A well-formed table that takes `n` more entries without passing 2 ^ 58 of them.
pub record HasRoom (t : Table) (bound n : ℕ) : Type 0 where
  pub inv : Inv t
  pub room : count_of t + n ≤ bound
  pub capacity : capacity_of t ≤ 2 * bound
  pub small : bound < 2 ^ 58

pub put_constant-reads :
    (t : Table) (bound n : ℕ) (name : List ℕ) (value : ℕ)
    → HasRoom t bound (suc n)
    → (t' : Table) × (put_constant t name value ≡ some t')
      × HasRoom t' bound n
      × (t'.header.persistence_code ≡ t.header.persistence_code)
      × ((q : Key)
          → get t' q ≡ after_constants (get t) t.header.persistence_code ((name, value) ∷ []) q)
unfolding put_constant
put_constant-reads t bound n name value h =
    let (t', e, p) =
      put-IsPut 0 h.inv (c_string name) tt (block (from_int value))
        (omega (arith, h.capacity, h.small)) in
    (
      t',
      e,
      record {
        inv = p.inv;
        room = omega (arith, p.counts, h.room);
        capacity = ground (arith, p.capacity, h.room, h.capacity);
        small = h.small;
      },
      p.code,
      p.reads,
    )

-- The constants only depend on what each key read before.
pub after_constants-ext :
    (code : ℕ) (more : List (List ℕ × ℕ)) (f g : Key → Value)
    → ((q : Key) → f q ≡ g q)
    → (q : Key) → after_constants f code more q ≡ after_constants g code more q
after_constants-ext code [] f g h q = h q
after_constants-ext code ((name, value) ∷ more) f g h q =
    after_constants-ext code more (with_constant f) (with_constant g)
      (λ p.
        ap
          (λ v.
            if equals (key_block (c_string name)) (key_block p)
            then visible (mark_value code (block (from_int value)))
            else v)
          (h p))
      q
  where
    with_constant : (Key → Value) → Key → Value
    with_constant reads p =
        if equals (key_block (c_string name)) (key_block p)
        then visible (mark_value code (block (from_int value)))
        else reads p
