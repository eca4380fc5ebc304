-- ===== src/Dblock/Hash.antt =====
-- Hash codes and the equality of blocks: tactyk_dblock__update_hash and tactyk_dblock__equals of
-- libtactyk/tactyk_dblock.c.
pub mod Content
pub mod Exact
pub mod Equivalence
mod Tests
use Prim.Native.Nat.{bit_and, bit_xor}
use tactyk.Base.{
  ℕ, zero, suc, ◌+◌, ◌-◌, ◌*◌, ◌/◌, ◌^◌, Bool, true, false, ◌&&◌, List, get_or, ◌==◌, not,
  if◌then◌else◌,
}
use tactyk.Base.Words.{add64, mul64, shl64}
use tactyk.Dblock.Block.{Block}

-- `data8[i]`, within the bounds of the memory
abbrev pub byte_at : List ℕ → ℕ → ℕ
byte_at bytes i = get_or bytes i 0

-- `count` bytes from index `i` on, least significant first
abbrev pub read_le : ℕ → List ℕ → ℕ → ℕ
read_le zero bytes i = 0
read_le (suc count) bytes i = byte_at bytes i + 256 * read_le count bytes (i + 1)

-- `data64[i]`, on a little-endian machine
abbrev pub qword_at : List ℕ → ℕ → ℕ
qword_at bytes i = read_le 8 bytes (8 * i)

-- `dat ^= (dat << 11); dat ^= (dat << 17); dat ^= (dat << 43);`
unfoldable pub scramble : ℕ → ℕ
scramble dat =
    let a = bit_xor dat (shl64 dat 11) in let b = bit_xor a (shl64 a 17) in bit_xor b (shl64 b 43)

-- the body of the hash loops
unfoldable pub hash_step : ℕ → ℕ → ℕ
hash_step hash dat = bit_xor (bit_xor (add64 hash 1) (mul64 hash 0x0123456789abcdef)) (scramble dat)

-- a hash loop: `n` rounds from index `i` on over the words that `read` gives
unfoldable pub hash_loop : (ℕ → ℕ) → ℕ → ℕ → ℕ → ℕ
hash_loop read zero i hash = hash
hash_loop read (suc n) i hash = hash_loop read n (i + 1) (hash_step hash (read i))

-- The hash of the first `length` bytes: 64-bit words, then the residue byte by byte.
unfoldable pub hash_bytes : ℕ → List ℕ → ℕ
hash_bytes length bytes =
    let i8lim = bit_and length 7 in
    let i64lim = length - i8lim in
    let hash = hash_loop (qword_at bytes) (i64lim / 2 ^ 3) 0 0 in
    hash_loop (λ i. byte_at bytes (i64lim + i)) i8lim 0 hash

unfoldable pub update_hash : Block → Block
update_hash dblock = record dblock { hashcode = hash_bytes dblock.length dblock.bytes }

-- a comparison loop: `n` rounds from index `i` on
unfoldable pub same_loop : (ℕ → ℕ) → (ℕ → ℕ) → ℕ → ℕ → Bool
same_loop read_a read_b zero i = true
same_loop read_a read_b (suc n) i =
    let rest = same_loop read_a read_b n (i + 1) in
    if not (read_a i == read_b i) then false else rest

-- The 8-bit section is addressed from `i64lim` on after that was divided by 8.
unfoldable pub equals : Block → Block → Bool
equals a b =
    if not (a.hashcode == b.hashcode)
    then false
    else if not (a.length == b.length)
    then false
    else let len = a.length in
      let i8lim = bit_and len 7 in
      let i64lim = (len - i8lim) / 2 ^ 3 in
      let words = same_loop (qword_at a.bytes) (qword_at b.bytes) i64lim 0 in
      let residue =
        same_loop (λ i. byte_at a.bytes (i64lim + i)) (λ i. byte_at b.bytes (i64lim + i)) i8lim 0 in
      if not words then false else residue
