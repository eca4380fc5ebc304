-- ===== src/Dblock/Number/RoundTrip.antt =====
-- What from_uint and from_int write, try_parseuint and try_parseint read back.
use mathlib.Core.Option
use tactyk.Base.{
  ℕ, zero, suc, ◌+◌, ◌-◌, ◌/◌, ◌%◌, ◌^◌, ◌≤◌, ◌<◌, ◌≡◌, refl, sym, ap, ◌∙◌, arith, true, false,
  ◌&&◌, List, [], ◌∷◌, ◌++◌, some, ltb, ltb→lt, Bool-cases, inl, inr, length, take, replicate,
}
use native.Mathlib.Nat.{pow-suc}
use tactyk.Base.Words.{word64}
use tactyk.Dblock.Block.{Block}
use tactyk.Dblock.Hash.{byte_at, update_hash}
use tactyk.Dblock.Persist.{memcpy, from_c_string}
use tactyk.Dblock.Table.{header_of}
use tactyk.Dblock.Number.{
  value, digit_of, radix_at, parse_digits, parse_from, try_parseint, try_parseuint, decimal,
  from_uint, from_int, negate,
}
use tactyk.Dblock.Number.Value.{all_valid, numeral, parse_digits-value}

all_valid-append :
    (radix : ℕ) (xs ys : List ℕ)
    → all_valid radix (xs ++ ys) ≡ (all_valid radix xs && all_valid radix ys)
all_valid-append radix [] ys = refl
all_valid-append radix (c ∷ cs) ys = rw (all_valid-append radix cs ys) (ground arith)

numeral-append :
    (radix : ℕ) (xs ys : List ℕ) (n : ℕ)
    → numeral radix (xs ++ ys) n ≡ numeral radix ys (numeral radix xs n)
numeral-append radix [] ys n = refl
numeral-append radix (c ∷ cs) ys n = numeral-append radix cs ys _

digit_of-decimal : (d : ℕ) → d < 10 → digit_of (b'0' + d) ≡ value d
unfolding digit_of
digit_of-decimal d h = ground arith

-- The written digits are valid and denote the number.
decimal-numeral :
    (places n : ℕ)
    → n < 10 ^ places
    → (all_valid 10 (decimal places n) ≡ true) × (numeral 10 (decimal places n) 0 ≡ n)
unfolding decimal
decimal-numeral zero n h = (refl, omega arith)
decimal-numeral (suc places) n h = elim (Bool-cases (ltb n 10)) [
  | inl one ↦ rw one (rw (digit_of-decimal n (ltb→lt n 10 one)) (ground arith, omega arith))
  | inr more ↦
      let (valid, same) = decimal-numeral places (n / 10) (shorter places n h) in
      rw more (
        all_valid-append 10 (decimal places (n / 10)) _
            ∙ rw valid (rw (digit_of-decimal (n % 10) (omega arith)) (ground arith)),
        numeral-append 10 (decimal places (n / 10)) _ 0
            ∙ rw (digit_of-decimal (n % 10) (omega arith)) (rw same (omega arith)),
      )
]
  where
    shorter : (p m : ℕ) → m < 10 ^ suc p → m / 10 < 10 ^ p
    shorter p m lt = omega (arith, pow-suc 10 p)

decimal_first :
    (places n : ℕ)
    → (c : ℕ) × (cs : List ℕ) × (decimal (suc places) n ≡ c ∷ cs) × (b'0' ≤ c) × (c ≤ b'9')
unfolding decimal
decimal_first zero n = elim (Bool-cases (ltb n 10)) [
  | inl one ↦ (b'0' + n, [], rw one refl, omega arith, omega (arith, ltb→lt n 10 one))
  | inr more ↦ (b'0' + n % 10, [], rw more refl, omega arith, omega arith)
]
decimal_first (suc places) n = elim (Bool-cases (ltb n 10)) [
  | inl one ↦ (b'0' + n, [], rw one refl, omega arith, omega (arith, ltb→lt n 10 one))
  | inr more ↦
      let (c, cs, e, lo, hi) = decimal_first places (n / 10) in
      (c, cs ++ ((b'0' + n % 10) ∷ []), rw more (ap (λ l. l ++ ((b'0' + n % 10) ∷ [])) e), lo, hi)
]

memcpy_all : (text : List ℕ) → memcpy (length text) (replicate (length text) 0) text ≡ text
unfolding memcpy
memcpy_all [] = refl
memcpy_all (c ∷ cs) = ap (λ l. c ∷ l) (memcpy_all cs)

take_all : (text : List ℕ) → take (length text) text ≡ text
take_all [] = refl
take_all (c ∷ cs) = ap (λ l. c ∷ l) (take_all cs)

abbrev text_block : List ℕ → Block
text_block text = header_of (from_c_string text)

text_block_lem :
    (text : List ℕ) → ((text_block text).length ≡ length text) × ((text_block text).bytes ≡ text)
unfolding from_c_string update_hash
text_block_lem text = (refl, memcpy_all text)

radix_at_digit :
    (str : List ℕ) (i : ℕ)
    → b'0' ≤ byte_at str i
    → byte_at str i ≤ b'9'
    → radix_at str i ≡ some (10, i)
unfolding radix_at
radix_at_digit str i lo hi = ground arith

minus_zero : (n : ℕ) → n - 0 ≡ n
minus_zero n = omega arith

minus_one : (n : ℕ) → suc n - 1 ≡ n
minus_one n = omega arith

-- A text of decimal digits behind no sign, or behind one character.
parse_from_start :
    (c : ℕ) (cs : List ℕ)
    → b'0' ≤ c
    → c ≤ b'9'
    → parse_from (text_block (c ∷ cs)) 0 ≡ parse_digits 10 (c ∷ cs) 0
unfolding parse_from Option.bind
parse_from_start c cs lo hi =
    let (l, b) = text_block_lem (c ∷ cs) in
    rw (b, l)
      (rw (radix_at_digit (c ∷ cs) 0 lo hi) (
        ap (λ l. parse_digits 10 l 0)
          (ap (λ n. take n (c ∷ cs)) (minus_zero (suc (length cs))) ∙ take_all (c ∷ cs))))

parse_from_sign :
    (m c : ℕ) (cs : List ℕ)
    → b'0' ≤ c
    → c ≤ b'9'
    → parse_from (text_block (m ∷ c ∷ cs)) 1 ≡ parse_digits 10 (c ∷ cs) 0
unfolding parse_from Option.bind
parse_from_sign m c cs lo hi =
    let (l, b) = text_block_lem (m ∷ c ∷ cs) in
    rw (b, l)
      (rw (radix_at_digit (m ∷ c ∷ cs) 1 lo hi) (
        ap (λ l. parse_digits 10 l 0)
          (ap (λ n. take n (c ∷ cs)) (minus_one (suc (length cs))) ∙ take_all (c ∷ cs))))

parse_decimal : (v : ℕ) → v < word64 → parse_digits 10 (decimal 20 v) 0 ≡ some v
parse_decimal v h =
    let (valid, same) = decimal-numeral 20 v (omega arith) in
    parse_digits-value 10 (decimal 20 v) 0 ∙ rw (valid, same) (ap some (omega arith))

uint_plain :
    (c : ℕ) (cs : List ℕ)
    → b'0' ≤ c
    → c ≤ b'9'
    → try_parseuint (text_block (c ∷ cs)) ≡ parse_from (text_block (c ∷ cs)) 0
unfolding try_parseuint
uint_plain c cs lo hi = let (l, b) = text_block_lem (c ∷ cs) in rw (b, l) (ground arith)

int_plain :
    (c : ℕ) (cs : List ℕ)
    → b'0' ≤ c
    → c ≤ b'9'
    → try_parseint (text_block (c ∷ cs)) ≡ parse_from (text_block (c ∷ cs)) 0
unfolding try_parseint
int_plain c cs lo hi = let (l, b) = text_block_lem (c ∷ cs) in rw (b, l) (ground arith)

int_minus :
    (cs : List ℕ)
    → try_parseint (text_block (b'-' ∷ cs))
      ≡ Option.map negate (parse_from (text_block (b'-' ∷ cs)) 1)
unfolding try_parseint
int_minus cs = let (l, b) = text_block_lem (b'-' ∷ cs) in rw (b, l) (ground arith)

-- Reading the decimal text of a number, alone or behind a character.
plain_text : (v : ℕ) → v < word64 → parse_from (text_block (decimal 20 v)) 0 ≡ some v
plain_text v h =
    let (c, cs, e, lo, hi) = decimal_first 19 v in
    ap (λ t. parse_from (text_block t) 0) e
    ∙ parse_from_start c cs lo hi
    ∙ ap (λ t. parse_digits 10 t 0) (sym e)
    ∙ parse_decimal v h

signed_text : (m v : ℕ) → v < word64 → parse_from (text_block (m ∷ decimal 20 v)) 1 ≡ some v
signed_text m v h =
    let (c, cs, e, lo, hi) = decimal_first 19 v in
    ap (λ t. parse_from (text_block (m ∷ t)) 1) e
    ∙ parse_from_sign m c cs lo hi
    ∙ ap (λ t. parse_digits 10 t 0) (sym e)
    ∙ parse_decimal v h

-- from_uint writes every 64-bit number so that try_parseuint reads it back.
pub try_parseuint-from_uint :
    (v : ℕ) → v < 2 ^ 64 → try_parseuint (header_of (from_uint v)) ≡ some v
unfolding from_uint
try_parseuint-from_uint v h =
    let (c, cs, e, lo, hi) = decimal_first 19 v in
    ap (λ t. try_parseuint (text_block t)) e
    ∙ uint_plain c cs lo hi
    ∙ ap (λ t. parse_from (text_block t) 0) (sym e)
    ∙ plain_text v h

-- try_parseint reads them all as well, as bit patterns.
pub try_parseint-from_uint : (v : ℕ) → v < 2 ^ 64 → try_parseint (header_of (from_uint v)) ≡ some v
unfolding from_uint
try_parseint-from_uint v h =
    let (c, cs, e, lo, hi) = decimal_first 19 v in
    ap (λ t. try_parseint (text_block t)) e
    ∙ int_plain c cs lo hi
    ∙ ap (λ t. parse_from (text_block t) 0) (sym e)
    ∙ plain_text v h

large : (v : ℕ) → ltb v (2 ^ 63) ≡ false → 2 ^ 63 ≤ v
large v e = ground arith

-- from_int writes every 64-bit integer, the least one included, so that try_parseint reads it back.
pub try_parseint-from_int : (v : ℕ) → v < 2 ^ 64 → try_parseint (header_of (from_int v)) ≡ some v
unfolding from_int
try_parseint-from_int v h = elim (Bool-cases (ltb v (2 ^ 63))) [
  | inl positive ↦
      let (c, cs, e, lo, hi) = decimal_first 19 v in
      rw positive (
        ap (λ t. try_parseint (text_block t)) e
        ∙ int_plain c cs lo hi
        ∙ ap (λ t. parse_from (text_block t) 0) (sym e)
        ∙ plain_text v h)
  | inr negative ↦ rw negative (
      int_minus (decimal 20 (word64 - v))
      ∙ ap (Option.map negate) (signed_text b'-' (word64 - v) (omega (arith, large v negative)))
      ∙ ap some (omega (arith, large v negative)))
]
