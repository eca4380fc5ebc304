-- ===== src/Dblock/Table/Keys.antt =====
-- The key that a table stores is equal to the key that was handed over.
use tactyk.Base.{
  ℕ, zero, suc, ◌≤◌, ◌<◌, ◌≡◌, refl, sym, arith, Bool, true, List, [], ◌∷◌, length, replicate, leb,
  Bool-cases, inl, inr, length-replicate,
}
use tactyk.Dblock.Block.{Block, DBlock, null, node}
use tactyk.Dblock.Hash.{byte_at, equals}
use tactyk.Dblock.Hash.Exact.{equals-loops, loops_complete, compared-le}
use tactyk.Dblock.Hash.Equivalence.{equals_refl, equals_sym, equals_trans}
use tactyk.Dblock.Persist.{set_persistence_code, memcpy, shallow_copy, from_c_string}
use tactyk.Dblock.Table.{
  Key, c_string, dblock, header_of, from_string_or_dblock, key_block, stored_key,
}

-- A block may be a key: it is a block, and its content lies within its memory.
abbrev pub IsKey : Key → Type 0
IsKey (c_string text) = Unit
IsKey (dblock null) = ⊥
IsKey (dblock (node b s n c t st)) = b.length ≤ b.capacity

Bool_ext : (a b : Bool) → (a ≡ true → b ≡ true) → (b ≡ true → a ≡ true) → a ≡ b
Bool_ext a b f g = ground arith

pub equals_congr_right : (a b c : Block) → equals b c ≡ true → equals a b ≡ equals a c
equals_congr_right a b c e =
    Bool_ext _ _ (λ h. equals_trans a b c h e) (λ h. equals_trans a c b h (equals_sym b c e))

pub equals_congr_left : (a b c : Block) → equals a b ≡ true → equals a c ≡ equals b c
equals_congr_left a b c e =
    Bool_ext _ _ (λ h. equals_trans b a c (equals_sym a b e) h) (λ h. equals_trans a b c e h)

pub byte_at-memcpy :
    (n : ℕ) (dest source : List ℕ) (j : ℕ)
    → j < n
    → n ≤ length dest
    → byte_at (memcpy n dest source) j ≡ byte_at source j
unfolding memcpy
byte_at-memcpy zero dest source j lt le = absurd (omega arith)
byte_at-memcpy (suc n) [] source j lt le = absurd (omega arith)
byte_at-memcpy (suc n) (d ∷ dest) [] zero lt le = refl
byte_at-memcpy (suc n) (d ∷ dest) [] (suc j) lt le =
    byte_at-memcpy n dest [] j (omega arith) (omega arith)
byte_at-memcpy (suc n) (d ∷ dest) (s ∷ source) zero lt le = refl
byte_at-memcpy (suc n) (d ∷ dest) (s ∷ source) (suc j) lt le =
    byte_at-memcpy n dest source j (omega arith) (omega arith)

pub equals-set_persistence_code :
    (code : ℕ) (d : DBlock) → equals (header_of d) (header_of (set_persistence_code code d)) ≡ true
unfolding set_persistence_code
equals-set_persistence_code code null = equals_refl (header_of null)
equals-set_persistence_code code (node b s n c t st) =
    elim (Bool-cases (leb code b.persistence_code)) [
      | inl old ↦ rw old (equals_refl b)
      | inr new ↦ rw new (
          (equals-loops _ _).1 (refl, refl, loops_complete b.length b.bytes b.bytes (λ j lt. refl)))
    ]

equals-shallow_copy :
    (d : DBlock) → IsKey (dblock d) → equals (header_of d) (header_of (shallow_copy d)) ≡ true
unfolding shallow_copy
equals-shallow_copy null h = absurd h
equals-shallow_copy (node b s n c t st) h = (equals-loops _ _).1 (
  refl,
  refl,
  loops_complete b.length b.bytes _ (λ j lt. sym (
      byte_at-memcpy b.length (replicate b.capacity 0) b.bytes j
        (omega (arith, compared-le b.length)) (omega (arith, length-replicate b.capacity (zero))))),
)

pub equals-stored_key :
    (code : ℕ) (key : Key)
    → IsKey key
    → equals (key_block key) (header_of (stored_key code key)) ≡ true
unfolding stored_key from_string_or_dblock
equals-stored_key code (c_string text) h = equals-set_persistence_code code (from_c_string text)
equals-stored_key code (dblock d) h = elim (Bool-cases (header_of d).self_managed) [
  | inl managed ↦ rw managed (
      equals_trans _ _ _ (equals-shallow_copy d h)
        (equals-set_persistence_code code (shallow_copy d)))
  | inr external ↦ rw external (equals-set_persistence_code code d)
]
