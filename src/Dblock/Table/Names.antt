-- ===== src/Dblock/Table/Names.antt =====
-- A table is read alike under a C string and under a block with that text.
use tactyk.Base.{
  ℕ, zero, suc, ◌<◌, ◌≡◌, refl, sym, ap, ◌∙◌, subst, fun_ext, arith, true, ◌||◌, List, [], ◌∷◌,
  length, replicate, take, length-replicate,
}
use tactyk.Dblock.Block.{Block, null, node, nil}
use tactyk.Dblock.Hash.{byte_at, equals, hash_bytes, update_hash}
use tactyk.Dblock.Hash.Content.{Agree}
use tactyk.Dblock.Hash.Equivalence.{equals-update_hash, equals-hashcode}
use tactyk.Dblock.Persist.{memcpy, from_c_string}
use tactyk.Dblock.Text.{content}
use tactyk.Dblock.Table.{
  Table, Key, c_string, dblock, key_block, from_string_or_dblock, get, hit, preferred, probe,
  table_find, is_null, value_at, key_at, header_of, capacity_of,
}
use tactyk.Dblock.Table.Keys.{equals_congr_left, byte_at-memcpy}
use tactyk.Dblock.Table.Insert.{value_found, get_lem}

table_find-equals : (t : Table) (a b : Block) → equals a b ≡ true → table_find t a ≡ table_find t b
unfolding table_find
table_find-equals t a b e =
    ap (λ stop. probe stop (capacity_of t) (preferred (capacity_of t) a)) same_hits
    ∙ ap
        (λ (h : ℕ).
          probe (hit t.fields b) (capacity_of t)
            (preferred (capacity_of t) (record a { hashcode = h })))
        (equals-hashcode a b e)
  where
    same_hits : hit t.fields a ≡ hit t.fields b
    same_hits = fun_ext (λ i.
        ap (λ q. is_null (value_at t.fields i) || q)
          (equals_congr_left a b (header_of (key_at t.fields i)) e))

pub get-equals :
    (t : Table) (p q : Key) → equals (key_block p) (key_block q) ≡ true → get t p ≡ get t q
get-equals t p q e =
    get_lem t p
    ∙ ap (value_found t) (table_find-equals t (key_block p) (key_block q) e)
    ∙ sym (get_lem t q)

byte_at-take : (n : ℕ) (xs : List ℕ) (j : ℕ) → j < n → byte_at (take n xs) j ≡ byte_at xs j
byte_at-take zero xs j lt = absurd (omega arith)
byte_at-take (suc n) [] j lt = refl
byte_at-take (suc n) (x ∷ xs) zero lt = refl
byte_at-take (suc n) (x ∷ xs) (suc j) lt = byte_at-take n xs j (omega arith)

-- The block holds the bytes, with their hash code.
pub equals-from_c_string :
    (v : Block) (name : List ℕ)
    → content v ≡ name
    → v.length ≡ length name
    → v.hashcode ≡ hash_bytes v.length v.bytes
    → equals v (key_block (c_string name)) ≡ true
unfolding from_string_or_dblock from_c_string update_hash
equals-from_c_string v name same count hashed =
    subst (λ (h : ℕ). equals (record v { hashcode = h }) (key_block (c_string name)) ≡ true)
      (sym hashed)
      (equals-update_hash v (record (key_block (c_string name)) { hashcode = 0 }) count agree)
  where
    agree : Agree v.length v.bytes (memcpy (length name) (replicate (length name) 0) name)
    agree j lt =
        sym (byte_at-take v.length v.bytes j lt)
        ∙ ap (λ l. byte_at l j) same
        ∙ sym (
            byte_at-memcpy (length name) (replicate (length name) 0) name j (omega (arith, count))
              (omega (arith, length-replicate (length name) (zero))))

pub get-c_string :
    (t : Table) (v : Block) (name : List ℕ)
    → content v ≡ name
    → v.length ≡ length name
    → v.hashcode ≡ hash_bytes v.length v.bytes
    → get t (dblock (node v nil null null null null)) ≡ get t (c_string name)
unfolding from_string_or_dblock
get-c_string t v name same count hashed =
    get-equals t (dblock (node v nil null null null null)) (c_string name)
      (equals-from_c_string v name same count hashed)
