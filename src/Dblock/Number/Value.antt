-- ===== src/Dblock/Number/Value.antt =====
-- The digit loop computes the number that the digits denote, modulo 2 ^ 64, and fails exactly on a
-- character that is no digit of the radix and no separator.
use mathlib.Core.Option
use mathlib.Core.Option.{none-ne-some, some-injective}
use tactyk.Base.{
  ◌↔◌, suc, ◌-◌, ◌<◌, ◌==◌, ==_iff, subst, ◌∙◌, sym, ℕ, ◌+◌, ◌*◌, ◌/◌, ◌%◌, ◌≡◌, refl, ap, arith,
  Bool, true, false, not, ◌&&◌, List, [], ◌∷◌, none, some, leb, if◌then◌else◌, Bool-cases, inl, inr,
}
use tactyk.Base.Words.{word64, add64, mul64}
use tactyk.Dblock.Number.{Digit, value, separator, invalid, digit_of, digit_step, parse_digits}

-- what a character means in a numeral of the radix
abbrev pub digit_valid : ℕ → Digit → Bool
digit_valid radix (value v) = not (leb radix v)
digit_valid radix separator = true
digit_valid radix invalid = false

abbrev pub digit_append : ℕ → Digit → ℕ → ℕ
digit_append radix (value v) n = n * radix + v
digit_append radix separator n = n
digit_append radix invalid n = n

abbrev pub all_valid : ℕ → List ℕ → Bool
all_valid radix [] = true
all_valid radix (c ∷ cs) = digit_valid radix (digit_of c) && all_valid radix cs

-- the number that follows `n` when the characters are appended to its numeral
abbrev pub numeral : ℕ → List ℕ → ℕ → ℕ
numeral radix [] n = n
numeral radix (c ∷ cs) n = numeral radix cs (digit_append radix (digit_of c) n)

wrap_append : (n radix v : ℕ) → add64 (mul64 (n % word64) radix) v ≡ (n * radix + v) % word64
wrap_append n radix v =
    let whole : n ≡ word64 * (n / word64) + n % word64 = omega arith in
    omega (arith, ap (λ (t : ℕ). t * radix) whole)

digit_step_lem :
    (radix : ℕ) (d : Digit) (n : ℕ)
    → digit_step radix d (n % word64)
      ≡ (if digit_valid radix d then some (digit_append radix d n % word64) else none)
unfolding digit_step
digit_step_lem radix separator n = refl
digit_step_lem radix invalid n = refl
digit_step_lem radix (value v) n = elim (Bool-cases (leb radix v)) [
  | inl large ↦ rw large refl
  | inr small ↦ rw small (ap some (wrap_append n radix v))
]

-- The loop is the test of all characters, followed by the number without wrap-around.
pub parse_digits-value :
    (radix : ℕ) (cs : List ℕ) (n : ℕ)
    → parse_digits radix cs (n % word64)
      ≡ (if all_valid radix cs then some (numeral radix cs n % word64) else none)
unfolding parse_digits Option.bind
parse_digits-value radix [] n = refl
parse_digits-value radix (c ∷ cs) n = elim (Bool-cases (digit_valid radix (digit_of c))) [
  | inl good ↦
      rw (digit_step_lem radix (digit_of c) n)
        (rw good (parse_digits-value radix cs (digit_append radix (digit_of c) n)))
  | inr bad ↦ rw (digit_step_lem radix (digit_of c) n) (rw bad refl)
]

-- The value of a digit: '0' to '9', 'a' to 'f' and 'A' to 'F'.
pub data Denotes : ℕ → ℕ → Type 0 where
  decimal : (v : ℕ) → v < 10 → Denotes (b'0' + v) v
  lower : (v : ℕ) → v < 6 → Denotes (b'a' + v) (10 + v)
  upper : (v : ℕ) → v < 6 → Denotes (b'A' + v) (10 + v)

-- The number `m` that follows `n` when the characters are appended to its numeral: digits of the
-- radix, with '_' between them as one likes.
pub data Numeral (radix : ℕ) : List ℕ → ℕ → ℕ → Type 0 where
  ended : {n : ℕ} → Numeral radix [] n n
  digit :
      {c v n m : ℕ} {cs : List ℕ}
      → Denotes c v
      → v < radix
      → Numeral radix cs (n * radix + v) m
      → Numeral radix (c ∷ cs) n m
  separated : {n m : ℕ} {cs : List ℕ} → Numeral radix cs n m → Numeral radix (b'_' ∷ cs) n m

digit_of-Denotes : {c v : ℕ} → Denotes c v → digit_of c ≡ value v
unfolding digit_of
digit_of-Denotes (decimal v h) = rw (first v h) (ap value (omega arith))
  where
    first : (v : ℕ) → v < 10 → (leb b'0' (b'0' + v) && leb (b'0' + v) b'9') ≡ true
    first v h = ground arith
digit_of-Denotes (lower v h) = rw (no_decimal v h, second v h) (ap value (omega arith))
  where
    no_decimal : (v : ℕ) → v < 6 → (leb b'0' (b'a' + v) && leb (b'a' + v) b'9') ≡ false
    no_decimal v h = ground arith

    second : (v : ℕ) → v < 6 → (leb b'a' (b'a' + v) && leb (b'a' + v) b'f') ≡ true
    second v h = ground arith
digit_of-Denotes (upper v h) = rw (no_decimal v h, no_lower v h, third v h) (ap value (omega arith))
  where
    no_decimal : (v : ℕ) → v < 6 → (leb b'0' (b'A' + v) && leb (b'A' + v) b'9') ≡ false
    no_decimal v h = ground arith

    no_lower : (v : ℕ) → v < 6 → (leb b'a' (b'A' + v) && leb (b'A' + v) b'f') ≡ false
    no_lower v h = ground arith

    third : (v : ℕ) → v < 6 → (leb b'A' (b'A' + v) && leb (b'A' + v) b'F') ≡ true
    third v h = ground arith

-- What a character that is read as a digit or a separator is.
abbrev IsRead : ℕ → Digit → Type 0
IsRead c (value v) = Denotes c v
IsRead c separator = c ≡ b'_'
IsRead c invalid = Unit

digit_of-IsRead : (c : ℕ) → IsRead c (digit_of c)
unfolding digit_of
digit_of-IsRead c = elim (Bool-cases (leb b'0' c && leb c b'9')) [
  | inl a ↦ rw a (
      subst (λ (x : ℕ). Denotes x (c - b'0')) (above b'0' b'9' c a)
        (decimal (c - b'0') (within b'0' b'9' c a)))
  | inr a ↦ elim (Bool-cases (leb b'a' c && leb c b'f')) [
    | inl b ↦
        rw (a, b)
          (subst2 Denotes (above b'a' b'f' c b) (add_comm 10 (c - b'a'))
            (lower (c - b'a') (within b'a' b'f' c b)))
    | inr b ↦ elim (Bool-cases (leb b'A' c && leb c b'F')) [
      | inl d ↦
          rw (a, b, d)
            (subst2 Denotes (above b'A' b'F' c d) (add_comm 10 (c - b'A'))
              (upper (c - b'A') (within b'A' b'F' c d)))
      | inr d ↦ elim (Bool-cases (c == b'_')) [
        | inl e ↦ rw (a, b, d, e) ((==_iff c b'_').0 e)
        | inr e ↦ rw (a, b, d, e) tt
      ]
    ]
  ]
]
  where
    above : (x y c : ℕ) → (leb x c && leb c y) ≡ true → x + (c - x) ≡ c
    above x y c h = ground arith

    within : (x y c : ℕ) → (leb x c && leb c y) ≡ true → c - x < suc y - x
    within x y c h = ground arith

    add_comm : (a b : ℕ) → a + b ≡ b + a
    add_comm a b = omega arith

    subst2 : (P : ℕ → ℕ → Type 0) {a b c d : ℕ} → a ≡ b → c ≡ d → P a c → P b d
    subst2 P {b = b} {c = c} p q x = subst (P b) q (subst (λ (y : ℕ). P y c) p x)

is_separator : digit_of b'_' ≡ separator
unfolding digit_of
is_separator = refl

-- A numeral is read as its number.
parse_digits-written :
    (radix : ℕ) {cs : List ℕ} {n m : ℕ}
    → Numeral radix cs n m
    → parse_digits radix cs (n % word64) ≡ some (m % word64)
unfolding parse_digits Option.bind
parse_digits-written radix ended = refl
parse_digits-written radix (digit {v = v} {n = n} d h k) =
    rw (digit_of-Denotes d, digit_step_lem radix (value v) n, below radix v h)
      (parse_digits-written radix k)
  where
    below : (radix v : ℕ) → v < radix → leb radix v ≡ false
    below radix v h = ground arith
parse_digits-written radix (separated {n = n} k) =
    rw (is_separator, digit_step_lem radix separator n) (parse_digits-written radix k)

-- What is read from the second character on, when the first one is `d`.
read_digit :
    (radix c n r : ℕ) (cs : List ℕ) (d : Digit)
    → IsRead c d
    → ((k : ℕ)
        → parse_digits radix cs (k % word64) ≡ some r
        → (m : ℕ) × Numeral radix cs k m × (r ≡ m % word64))
    → Option.bind (digit_step radix d (n % word64)) (parse_digits radix cs) ≡ some r
    → (m : ℕ) × Numeral radix (c ∷ cs) n m × (r ≡ m % word64)
unfolding Option.bind
read_digit radix c n r cs separator is rest e =
    let (m, k, same) = rest n (
      ap (λ o. Option.bind o (parse_digits radix cs)) (sym (digit_step_lem radix separator n))
      ∙ e) in
    (m, subst (λ (x : ℕ). Numeral radix (x ∷ cs) n m) (sym is) (separated k), same)
read_digit radix c n r cs invalid is rest e = absurd (
    none-ne-some _
      (ap (λ o. Option.bind o (parse_digits radix cs)) (sym (digit_step_lem radix invalid n)) ∙ e))
read_digit radix c n r cs (value v) is rest e = elim (Bool-cases (leb radix v)) [
  | inl large ↦
      absurd
        (none-ne-some r (ap (λ o. Option.bind o (parse_digits radix cs)) (sym (refused large)) ∙ e))
  | inr small ↦
      let (m, k, same) =
        rest (n * radix + v)
          (ap (λ o. Option.bind o (parse_digits radix cs)) (sym (accepted small)) ∙ e) in
      (m, digit is (below radix v small) k, same)
]
  where
    refused : leb radix v ≡ true → digit_step radix (value v) (n % word64) ≡ none
    refused h = digit_step_lem radix (value v) n ∙ rw h refl

    accepted :
        leb radix v ≡ false
        → digit_step radix (value v) (n % word64) ≡ some ((n * radix + v) % word64)
    accepted h = digit_step_lem radix (value v) n ∙ rw h refl

    below : (radix v : ℕ) → leb radix v ≡ false → v < radix
    below radix v h = ground arith

-- What is read is the number of a numeral.
parse_digits-reads :
    (radix : ℕ) (cs : List ℕ) (n r : ℕ)
    → parse_digits radix cs (n % word64) ≡ some r
    → (m : ℕ) × Numeral radix cs n m × (r ≡ m % word64)
unfolding parse_digits
parse_digits-reads radix [] n r e = (n, ended, sym (some-injective _ _ e))
parse_digits-reads radix (c ∷ cs) n r e =
    read_digit radix c n r cs (digit_of c) (digit_of-IsRead c)
      (λ k f. parse_digits-reads radix cs k r f) e

-- For any radix and characters, from any number `n`: the loop returns the number `m` that follows `n`
-- modulo 2 ^ 64, when the characters append a numeral of the radix that makes `m` of `n`, and it
-- returns a number only in that case. The digits are '0' to '9', and 'a' to 'f' or 'A' to 'F' for 10
-- to 15, as far as they are below the radix, and '_' may stand anywhere.
pub parse_digits-Numeral :
    (radix : ℕ) (cs : List ℕ) (n r : ℕ)
    → (parse_digits radix cs (n % word64) ≡ some r)
      ↔ ((m : ℕ) × Numeral radix cs n m × (r ≡ m % word64))
parse_digits-Numeral radix cs n r = (
  parse_digits-reads radix cs n r,
  λ (m, k, same). parse_digits-written radix k ∙ ap some (sym same),
)
