-- ===== src/Util/Ints/Tests.antt =====
-- Small strings, and the theorems at some.
use tactyk.Base.{◌≡◌, refl, arith, false, [], ◌∷◌, none, some, if◌then◌else◌}
use tactyk.Dblock.Number.{parse_digits}
use tactyk.Util.Ints.{
  try_parseint, try_parseuint, is_intstring, is_uintstring, parse_loop, counted, signed_digits,
}
use tactyk.Util.Ints.Strict.{try_parseuint-strict}

try_parseuint-strict_example :
    try_parseuint (b'4' ∷ b'2' ∷ []) false
    ≡ (if is_uintstring (b'4' ∷ b'2' ∷ []) then parse_digits 10 (b'4' ∷ b'2' ∷ []) 0 else none)
try_parseuint-strict_example = try_parseuint-strict (b'4' ∷ b'2' ∷ []) (omega arith)

-- A minus sign alone is read as 0, though it is no integer string.
lone_minus : (try_parseint (b'-' ∷ []) false ≡ some 0) × (is_intstring (b'-' ∷ []) ≡ false)
unfolding try_parseint counted parse_loop is_intstring signed_digits
lone_minus = (refl, refl)
