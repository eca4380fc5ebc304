-- ===== src/Dblock/Text.antt =====
-- Growing text blocks: tactyk_dblock__new, expand, reallocate, clear, concat, substring, the append
-- family, and the searches contains, contains_char, getchar and lastchar of
-- libtactyk/tactyk_dblock.c.
-- A result `none` is a failed `assert`, or a doubling loop that does not end.
pub mod Grow
pub mod Append
pub mod Pieces
pub mod Search
mod Tests
use mathlib.Core.Option
use tactyk.Base.{
  ℕ, zero, suc, ◌+◌, ◌-◌, ◌*◌, ◌/◌, ◌%◌, ◌^◌, Bool, true, false, not, ◌&&◌, ◌||◌, List, [], ◌∷◌,
  ◌++◌, Option, none, some, leb, ltb, ◌==◌, if◌then◌else◌, take, drop, length, replicate,
}
use tactyk.Base.Words.{word64, add64, sub64, mul64}
use tactyk.Dblock.Block.{BlockType, Block}
use tactyk.Dblock.Hash.{byte_at, update_hash}
use tactyk.Dblock.Persist.{memcpy}

unfoldable pub new : ℕ → Block
new capacity = update_hash (record {
  type = BlockType.string;
  length = 0;
  stride = 1;
  element_capacity = 0;
  element_count = 0;
  capacity = capacity;
  hashcode = 0;
  bytes = replicate capacity 0;
  persistence_code = 0;
  fixed = false;
  self_managed = true;
})

-- `while (capacity < min_length) capacity *= 2;`
unfoldable pub grow : ℕ → ℕ → ℕ → Option ℕ
grow zero capacity min_length = none
grow (suc fuel) capacity min_length =
    let more = grow fuel (mul64 capacity 2) min_length in
    if ltb capacity min_length then more else some capacity

-- 65 rounds are enough for any length up to 2 ^ 63.
unfoldable pub expand : Block → ℕ → Option Block
expand dblock min_length =
    let start = if dblock.capacity == 0 then min_length else dblock.capacity in
    let larger =
      Option.map
        (λ capacity. record dblock {
          capacity = capacity;
          bytes = memcpy dblock.length (replicate capacity 0) dblock.bytes;
          self_managed = true;
        })
        (grow 65 start min_length) in
    if dblock.fixed
    then none
    else if dblock.self_managed && leb min_length dblock.capacity
    then some dblock
    else larger

-- memcpy of `source` to `&dest[at]`
unfoldable pub write_at : List ℕ → ℕ → List ℕ → List ℕ
write_at dest zero source = memcpy (length source) dest source
write_at [] (suc at) source = []
write_at (d ∷ dest) (suc at) source = d ∷ write_at dest at source

-- What the append functions share: make room, copy behind the content, count and hash.
unfoldable pub append_bytes : Block → List ℕ → Option Block
append_bytes dblock source =
    let tlen = dblock.length + length source in
    Option.map
      (λ (d : Block).
        update_hash (record d { bytes = write_at d.bytes d.length source; length = tlen }))
      (expand dblock tlen)

abbrev pub content : Block → List ℕ
content dblock = take dblock.length dblock.bytes

unfoldable pub append : Block → Block → Option Block
append out b = append_bytes out (content b)

unfoldable pub append_char : Block → ℕ → Option Block
append_char dblock ch = append_bytes dblock (ch ∷ [])

-- the `count` bytes of a number as they stand in memory, the least first
abbrev pub bytes_of : ℕ → ℕ → List ℕ
bytes_of zero val = []
bytes_of (suc count) val = (val % 256) ∷ bytes_of count (val / 256)

unfoldable pub append_byte : Block → ℕ → Option Block
append_byte dblock val = append_char dblock val

unfoldable pub append_word : Block → ℕ → Option Block
append_word dblock val = append_bytes dblock (bytes_of 2 val)

unfoldable pub append_dword : Block → ℕ → Option Block
append_dword dblock val = append_bytes dblock (bytes_of 4 val)

unfoldable pub append_qword : Block → ℕ → Option Block
append_qword dblock val = append_bytes dblock (bytes_of 8 val)

-- The amount that is left of `length` bytes from `start` on, if that is less than `amount`. The sum
-- is taken modulo 2 ^ 64.
abbrev pub clip : ℕ → ℕ → ℕ → ℕ
clip length start amount = if ltb length (add64 start amount) then length - start else amount

unfoldable pub append_substring : Block → Block → ℕ → ℕ → Option Block
append_substring a b start amount =
    let done = append_bytes a (take (clip b.length start amount) (drop start b.bytes)) in
    if a.fixed then none else if leb b.length start then some a else done

-- tactyk_dblock__from_bytes with safe data: a view of the text from an index on.
unfoldable pub view : Block → List ℕ → ℕ → ℕ → Block
view out text start_index len = update_hash (record out {
  type = BlockType.external;
  length = len;
  capacity = len;
  stride = 1;
  fixed = false;
  self_managed = false;
  bytes = drop start_index text;
  persistence_code = 0;
})

unfoldable pub substring : Block → Block → ℕ → ℕ → Block
substring out dblock start amount =
    if leb dblock.length start
    then out
    else view out dblock.bytes start (clip dblock.length start amount)

-- The doublings of `capacity` and `element_capacity` of tactyk_dblock__reallocate.
unfoldable pub grow_both : ℕ → ℕ → ℕ → ℕ → Option (ℕ × ℕ)
grow_both zero capacity elements min_length = none
grow_both (suc fuel) capacity elements min_length =
    let more = grow_both fuel (mul64 capacity 2) (mul64 elements 2) min_length in
    if ltb capacity min_length then more else some (capacity, elements)

unfoldable pub reallocate : Block → ℕ → Option Block
reallocate dblock min_length =
    let larger =
      Option.map
        (λ (p : ℕ × ℕ). record dblock {
          capacity = p.0;
          element_capacity = p.1;
          bytes = replicate p.0 0;
          length = 0;
          element_count = 0;
        })
        (grow_both 65 dblock.capacity dblock.element_capacity min_length) in
    if not dblock.self_managed
    then none
    else if ltb dblock.capacity min_length
    then larger
    else some (record dblock { bytes = replicate dblock.capacity 0; length = 0; element_count = 0 })

-- tactyk_dblock__concat into `out`, which is neither argument.
unfoldable pub concat : Option Block → Block → Block → Option Block
concat out a b =
    let len = a.length + b.length in
    let target : Option Block = elim out [ none ↦ some (new len) | some o ↦ reallocate o len ] in
    Option.map
      (λ (o : Block). update_hash (record o {
        bytes = write_at (write_at o.bytes 0 (content a)) a.length (content b);
        length = len;
      }))
      target

unfoldable pub clear : Block → Option Block
clear dblock =
    if not dblock.self_managed
    then none
    else some (record dblock { bytes = replicate dblock.capacity 0; element_count = 0; length = 0 })

-- the inner loop of tactyk_dblock__contains: `n` rounds from `i` on at position `pos`
unfoldable pub matches_at : List ℕ → List ℕ → ℕ → ℕ → ℕ → Bool
matches_at data_a data_b pos zero i = true
matches_at data_a data_b pos (suc n) i =
    let rest = matches_at data_a data_b pos n (i + 1) in
    if not (byte_at data_a (pos + i) == byte_at data_b i) then false else rest

-- the outer loop: `n` positions from `pos` on
unfoldable pub scan_positions : List ℕ → Block → ℕ → ℕ → Bool
scan_positions data_a b zero pos = false
scan_positions data_a b (suc n) pos =
    let rest = scan_positions data_a b n (pos + 1) in
    if matches_at data_a b.bytes pos b.length 0 then true else rest

unfoldable pub contains : Block → Block → Bool
contains a b =
    let found = scan_positions a.bytes b (a.length - b.length + 1) 0 in
    if ltb a.length b.length then false else found

unfoldable pub char_loop : List ℕ → ℕ → ℕ → ℕ → Bool
char_loop buf c zero i = false
char_loop buf c (suc n) i =
    let rest = char_loop buf c n (i + 1) in if byte_at buf i == c then true else rest

unfoldable pub contains_char : Block → ℕ → Bool
contains_char a c = char_loop a.bytes c a.length 0

-- An index is a 64-bit pattern: from 2 ^ 63 on it is negative.
unfoldable pub getchar : Block → ℕ → ℕ
getchar dblock index =
    if leb (2 ^ 63) index
    then 0
    else if leb dblock.capacity index
    then 0
    else byte_at dblock.bytes index

unfoldable pub lastchar : Block → ℕ
lastchar dblock = if dblock.length == 0 then 0 else byte_at dblock.bytes (dblock.length - 1)
