-- ===== src/Util/Ints.antt =====
-- Integers in C strings: tactyk_util__is_intstring, is_uintstring, try_parseint and try_parseuint of
-- libtactyk/tactyk_util.c. A string is its bytes before the NUL; an integer is its bit
-- pattern, a number below 2 ^ 64 or 2 ^ 32.
pub mod Strict
pub mod Permissive
mod Tests
use mathlib.Core.Option
use tactyk.Base.{
  ℕ, ◌-◌, Bool, true, false, ◌&&◌, ◌||◌, List, [], ◌∷◌, Option, none, some, ltb, ◌==◌,
  if◌then◌else◌, ◌%◌, ◌^◌, leb, length, take, drop,
}
use tactyk.Base.Words.{word64, add64, mul64}

-- `c < '0' || c > '9'`
abbrev pub no_digit : ℕ → Bool
no_digit c = ltb c b'0' || ltb b'9' c

-- the loop of the two tests
unfoldable pub all_digits : List ℕ → Bool
all_digits [] = true
all_digits (c ∷ str) = let rest = all_digits str in if no_digit c then false else rest

-- behind a sign: `if (len == 1)`
unfoldable pub signed_digits : List ℕ → Bool
signed_digits [] = false
signed_digits (c ∷ str) = all_digits (c ∷ str)

unfoldable pub is_intstring : List ℕ → Bool
is_intstring [] = false
is_intstring (c ∷ str) =
    let signed = signed_digits str in
    let plain = all_digits (c ∷ str) in if c == b'-' then signed else plain

unfoldable pub is_uintstring : List ℕ → Bool
is_uintstring [] = false
is_uintstring (c ∷ str) = all_digits (c ∷ str)

-- the loop of the two parsers; `started` is `i > ii`
unfoldable pub parse_loop : Bool → Bool → List ℕ → ℕ → Option ℕ
parse_loop permissive started [] result = some result
parse_loop permissive started (c ∷ str) result =
    let rest = parse_loop permissive true str (add64 (mul64 result 10) (c - b'0')) in
    if no_digit c then (if permissive && started then some result else none) else rest

-- `result * sign` for `sign = -1`
abbrev pub opposite : ℕ → ℕ
opposite result = mul64 result (word64 - 1)

-- `int32_t len = strlen(str)`
abbrev pub int32_length : List ℕ → ℕ
int32_length str = length str % 2 ^ 32

-- The characters that `i < len` lets the loops read: none where `len` is negative.
unfoldable pub counted : List ℕ → List ℕ
counted str = take (if leb (2 ^ 31) (int32_length str) then 0 else int32_length str) str

unfoldable pub try_parseint : List ℕ → Bool → Option ℕ
try_parseint [] permissive = none
try_parseint (c ∷ str) permissive =
    let read = counted (c ∷ str) in
    let signed = Option.map opposite (parse_loop permissive false (drop 1 read) 0) in
    let plain = parse_loop permissive false read 0 in
    if int32_length (c ∷ str) == 0 then none else if c == b'-' then signed else plain

unfoldable pub try_parseuint : List ℕ → Bool → Option ℕ
try_parseuint [] permissive = none
try_parseuint (c ∷ str) permissive =
    let plain = parse_loop permissive false (counted (c ∷ str)) 0 in
    if int32_length (c ∷ str) == 0 then none else plain
