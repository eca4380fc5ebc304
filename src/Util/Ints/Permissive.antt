-- ===== src/Util/Ints/Permissive.antt =====
-- With leave to stop early, the parsers read the digits in front.
use mathlib.Core.Option
use tactyk.Base.{ℕ, List, [], ◌∷◌, if◌then◌else◌}
use tactyk.Util.Ints.{no_digit}

-- the longest part in front that is all digits
abbrev pub leading_digits : List ℕ → List ℕ
leading_digits [] = []
leading_digits (c ∷ str) = if no_digit c then [] else c ∷ leading_digits str
