-- ===== src/Dblock/Number.antt =====
-- Numbers as text: tactyk_dblock__try_parseint, try_parseuint, from_int and from_uint of
-- libtactyk/tactyk_dblock.c. A 64-bit integer is its bit pattern, a number below 2 ^ 64.
pub mod Value
pub mod RoundTrip
mod Tests
use mathlib.Core.Option
use tactyk.Base.{
  ℕ, zero, suc, ◌+◌, ◌-◌, ◌*◌, ◌/◌, ◌%◌, ◌^◌, Bool, true, false, not, ◌&&◌, ◌||◌, List, [], ◌∷◌,
  ◌++◌, Option, none, some, leb, ltb, ◌==◌, if◌then◌else◌, take, drop,
}
use tactyk.Base.Words.{word64, add64, sub64, mul64}
use tactyk.Dblock.Block.{Block, DBlock}
use tactyk.Dblock.Hash.{byte_at}
use tactyk.Dblock.Persist.{from_c_string}

-- The cases of the `switch` on a character.
pub data Digit : Type 0 where
  value : ℕ → Digit
  separator : Digit
  invalid : Digit

unfoldable pub digit_of : ℕ → Digit
digit_of c =
    if leb b'0' c && leb c b'9'
    then value (c - b'0')
    else if leb b'a' c && leb c b'f'
    then value (c - b'a' + 10)
    else if leb b'A' c && leb c b'F'
    then value (c - b'A' + 10)
    else if c == b'_'
    then separator
    else invalid

-- the body of the loop, on the result so far; `none` is `return false`
unfoldable pub digit_step : ℕ → Digit → ℕ → Option ℕ
digit_step radix (value v) result =
    if leb radix v then none else some (add64 (mul64 result radix) v)
digit_step radix separator result = some result
digit_step radix invalid result = none

unfoldable pub parse_digits : ℕ → List ℕ → ℕ → Option ℕ
parse_digits radix [] result = some result
parse_digits radix (c ∷ cs) result =
    Option.bind (digit_step radix (digit_of c) result) (λ r. parse_digits radix cs r)

-- The second `switch`: the radix, and where the digits start.
unfoldable pub radix_at : List ℕ → ℕ → Option (ℕ × ℕ)
radix_at str i =
    let c = byte_at str i in
    if c == b'H' || c == b'h'
    then (if not (byte_at str (i + 1) == b'.') then none else some (16, i + 2))
    else if c == b'B' || c == b'b'
    then (if not (byte_at str (i + 1) == b'.') then none else some (2, i + 2))
    else some (10, i)

-- `for (; i < length; i++)` over the characters from `i` on
unfoldable pub parse_from : Block → ℕ → Option ℕ
parse_from dblock i =
    Option.bind (radix_at dblock.bytes i)
      (λ p. parse_digits p.0 (take (dblock.length - p.1) (drop p.1 dblock.bytes)) 0)

-- `result * sign` for `sign = -1`
abbrev pub negate : ℕ → ℕ
negate a = mul64 a (word64 - 1)

unfoldable pub try_parseint : Block → Option ℕ
try_parseint dblock =
    let c = byte_at dblock.bytes 0 in
    if dblock.length == 0
    then none
    else if c == b'-'
    then Option.map negate (parse_from dblock 1)
    else if c == b'+'
    then parse_from dblock 1
    else parse_from dblock 0

unfoldable pub try_parseuint : Block → Option ℕ
try_parseuint dblock =
    if dblock.length == 0
    then none
    else if byte_at dblock.bytes 0 == b'+'
    then parse_from dblock 1
    else parse_from dblock 0

-- What sprintf writes for `%ju`: the decimal digits without leading zeros; twenty are enough.
unfoldable pub decimal : ℕ → ℕ → List ℕ
decimal zero n = []
decimal (suc places) n =
    let more = decimal places (n / 10) ++ ((b'0' + n % 10) ∷ []) in
    if ltb n 10 then (b'0' + n) ∷ [] else more

unfoldable pub from_uint : ℕ → DBlock
from_uint v = from_c_string (decimal 20 v)

-- `%jd`: a sign, and the digits of the absolute value
unfoldable pub from_int : ℕ → DBlock
from_int v =
    if ltb v (2 ^ 63)
    then from_c_string (decimal 20 v)
    else from_c_string (b'-' ∷ decimal 20 (word64 - v))
