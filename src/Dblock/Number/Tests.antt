-- ===== src/Dblock/Number/Tests.antt =====
-- Numbers as text on small inputs, and the theorems at concrete values.
use mathlib.Core.Option
use tactyk.Base.Words.{word64}
use tactyk.Dblock.Number.Value.{Numeral, parse_digits-Numeral}
use tactyk.Base.{ℕ, ◌-◌, ◌%◌, ◌↔◌, ◌^◌, ◌≡◌, refl, arith, [], ◌∷◌, none, some}
use tactyk.Dblock.Hash.{update_hash}
use tactyk.Dblock.Persist.{from_c_string, memcpy}
use tactyk.Dblock.Table.{header_of}
use tactyk.Dblock.Number.{
  parse_digits, digit_step, digit_of, parse_from, radix_at, try_parseint, try_parseuint, from_uint,
  from_int,
}
use tactyk.Dblock.Number.RoundTrip.{try_parseuint-from_uint, try_parseint-from_int}

-- "-h.1_F", "b.101", "0x1", and a sign with no digits, which is read as 0
parse_texts :
    (try_parseint (header_of (from_c_string (b'-' ∷ b'h' ∷ b'.' ∷ b'1' ∷ b'_' ∷ b'F' ∷ [])))
      ≡ some (2 ^ 64 - 31))
    × (try_parseuint (header_of (from_c_string (b'b' ∷ b'.' ∷ b'1' ∷ b'0' ∷ b'1' ∷ []))) ≡ some 5)
    × (try_parseint (header_of (from_c_string (b'0' ∷ b'x' ∷ b'1' ∷ []))) ≡ none)
    × (try_parseint (header_of (from_c_string (b'-' ∷ []))) ≡ some 0)
unfolding try_parseint try_parseuint parse_from parse_digits digit_step digit_of radix_at
    from_c_string memcpy update_hash Option.bind
parse_texts = (refl, refl, refl, refl)

try_parseuint-from_uint_example :
    try_parseuint (header_of (from_uint (2 ^ 64 - 1))) ≡ some (2 ^ 64 - 1)
try_parseuint-from_uint_example = try_parseuint-from_uint (2 ^ 64 - 1) (omega arith)

-- the least integer
try_parseint-from_int_example : try_parseint (header_of (from_int (2 ^ 63))) ≡ some (2 ^ 63)
try_parseint-from_int_example = try_parseint-from_int (2 ^ 63) (omega arith)

-- "1_F" in radix 16
parse_digits-Numeral_example :
    (parse_digits 16 (b'1' ∷ b'_' ∷ b'F' ∷ []) (7 % word64) ≡ some 1823)
    ↔ ((m : ℕ) × Numeral 16 (b'1' ∷ b'_' ∷ b'F' ∷ []) 7 m × (1823 ≡ m % word64))
parse_digits-Numeral_example = parse_digits-Numeral 16 (b'1' ∷ b'_' ∷ b'F' ∷ []) 7 1823
