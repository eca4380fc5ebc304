-- ===== src/Util/Ints/Strict.antt =====
-- Without leave to stop early, the parsers accept what the tests accept, and they read it as the
-- digit loop of the parsers of blocks does.
use mathlib.Core.Option
use tactyk.Base.{
  ℕ, suc, ◌-◌, ◌<◌, ◌^◌, ◌%◌, length, take, ◌≡◌, inl, inr, refl, ap, ◌∙◌, arith, Bool, true, false,
  ◌&&◌, List, [], ◌∷◌, Option, none, some, leb, ◌==◌, if◌then◌else◌, Bool-cases,
}
use tactyk.Base.Words.{add64, mul64}
use tactyk.Dblock.Number.{digit_of, digit_step, parse_digits}
use tactyk.Util.Ints.{
  no_digit, all_digits, is_uintstring, parse_loop, opposite, counted, int32_length, try_parseuint,
}

-- a decimal digit in both parsers
pub digit_step-digit :
    (c result : ℕ)
    → no_digit c ≡ false
    → digit_step 10 (digit_of c) result ≡ some (add64 (mul64 result 10) (c - b'0'))
unfolding digit_step digit_of
digit_step-digit c result e = rw (is_digit, small) refl
  where
    is_digit : (leb b'0' c && leb c b'9') ≡ true
    is_digit = ground arith

    small : leb 10 (c - b'0') ≡ false
    small = ground arith

take_all : (str : List ℕ) → take (length str) str ≡ str
take_all [] = refl
take_all (c ∷ str) = ap (λ l. c ∷ l) (take_all str)

-- Below 2 ^ 31 the length is the one of the string.
pub counted_all : (str : List ℕ) → length str < 2 ^ 31 → counted str ≡ str
unfolding counted
counted_all str h = ap (λ (n : ℕ). take n str) (whole (length str) h) ∙ take_all str
  where
    whole : (n : ℕ) → n < 2 ^ 31 → (if leb (2 ^ 31) (n % 2 ^ 32) then 0 else n % 2 ^ 32) ≡ n
    whole n h = ground arith

pub some_length :
    (c : ℕ) (str : List ℕ) → length (c ∷ str) < 2 ^ 31 → (int32_length (c ∷ str) == 0) ≡ false
some_length c str h = positive (length str) h
  where
    positive : (n : ℕ) → suc n < 2 ^ 31 → (suc n % 2 ^ 32 == 0) ≡ false
    positive n h = ground arith

-- The strict loop is the test followed by the digit loop of the blocks.
parse_loop-strict :
    (str : List ℕ) (started : Bool) (result : ℕ)
    → parse_loop false started str result
      ≡ (if all_digits str then parse_digits 10 str result else none)
unfolding parse_loop all_digits parse_digits Option.bind
parse_loop-strict [] started result = refl
parse_loop-strict (c ∷ str) started result = elim (Bool-cases (no_digit c)) [
  | inl other ↦ rw (other) refl
  | inr digit ↦
      rw (digit, digit_step-digit c result digit)
        (parse_loop-strict str true (add64 (mul64 result 10) (c - b'0')))
]

-- Without `permissive`, on fewer than 2 ^ 31 bytes, the unsigned parser accepts exactly what is_uintstring accepts, and reads
-- it as the digit loop of tactyk_dblock__try_parseuint reads decimal digits.
pub try_parseuint-strict :
    (str : List ℕ)
    → length str < 2 ^ 31
    → try_parseuint str false ≡ (if is_uintstring str then parse_digits 10 str 0 else none)
unfolding try_parseuint is_uintstring
try_parseuint-strict [] b = refl
try_parseuint-strict (c ∷ str) b =
    rw (some_length c str b, counted_all (c ∷ str) b) (parse_loop-strict (c ∷ str) false 0)

-- the digits and the sign
abbrev pub signed_value : List ℕ → Option ℕ
signed_value [] = none
signed_value (c ∷ str) =
    if c == b'-' then Option.map opposite (parse_digits 10 str 0) else parse_digits 10 (c ∷ str) 0
