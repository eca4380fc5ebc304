-- ===== src/Dblock/Tokens/Fields.antt =====
-- The fields of a text between separators, and what memchr finds of them.
use mathlib.Core.Option.{some-injective}
use mathlib.Core.Path.{ap₂}
use tactyk.Base.{
  ℕ, zero, suc, ◌+◌, ◌-◌, ◌≤◌, ◌<◌, ◌≡◌, inl, inr, refl, sym, ap, ◌∙◌, subst, arith, Bool, true,
  false, List, [], ◌∷◌, Option, none, some, ◌==◌, ==_iff, if◌then◌else◌, Bool-cases, take, drop,
  length,
}
use tactyk.Dblock.Hash.{byte_at}
use tactyk.Dblock.Tokens.{memchr}

abbrev pub push : List ℕ → List (List ℕ) → List (List ℕ)
push [] fs = fs
push (c ∷ cs) fs = (c ∷ cs) ∷ fs

abbrev pub split_cons : Bool → ℕ → List ℕ × List (List ℕ) → List ℕ × List (List ℕ)
split_cons true c (w, fs) = ([], push w fs)
split_cons false c (w, fs) = (c ∷ w, fs)

-- what stands before the first separator, and the fields after it
unfoldable pub split : ℕ → List ℕ → List ℕ × List (List ℕ)
split separator [] = ([], [])
split separator (c ∷ cs) = split_cons (c == separator) c (split separator cs)

-- the longest runs of bytes that are no separators, in order
abbrev pub fields : ℕ → List ℕ → List (List ℕ)
fields separator text = push (split separator text).0 (split separator text).1

-- the `n` bytes from index `pos` on
abbrev pub span : List ℕ → ℕ → ℕ → List ℕ
span text pos n = take n (drop pos text)

pub drop-cons :
    (text : List ℕ) (pos : ℕ)
    → pos < length text
    → drop pos text ≡ byte_at text pos ∷ drop (suc pos) text
drop-cons [] pos h = absurd (omega arith)
drop-cons (x ∷ xs) zero h = refl
drop-cons (x ∷ xs) (suc pos) h = drop-cons xs pos (omega arith)

pub span-suc :
    (text : List ℕ) (pos n : ℕ)
    → pos < length text
    → span text pos (suc n) ≡ byte_at text pos ∷ span text (suc pos) n
span-suc text pos n h = ap (take (suc n)) (drop-cons text pos h)

split-span :
    (text : List ℕ) (separator pos n : ℕ)
    → pos < length text
    → split separator (span text pos (suc n))
      ≡ split_cons
          (byte_at text pos == separator)
          (byte_at text pos)
          (split separator (span text (suc pos) n))
unfolding split
split-span text separator pos n h = ap (split separator) (span-suc text pos n h)

-- Where memchr finds nothing the whole span is one piece.
pub memchr-none :
    (text : List ℕ) (separator n pos : ℕ)
    → pos + n ≤ length text
    → memchr text separator n pos ≡ none
    → split separator (span text pos n) ≡ (span text pos n, [])
unfolding memchr split
memchr-none text separator zero pos h e = refl
memchr-none text separator (suc n) pos h e = elim (Bool-cases (byte_at text pos == separator)) [
  | inl found ↦ absurd (none_some pos (sym e ∙ rw found refl))
  | inr other ↦
      split-span text separator pos n (omega arith)
      ∙ ap (λ b. split_cons b (byte_at text pos) (split separator (span text (suc pos) n))) other
      ∙ ap (split_cons false (byte_at text pos)) (
          memchr-none text separator n (suc pos) (omega arith) (else_branch _ _ (some pos) other e))
      ∙ ap (λ (l : List ℕ). (l, [])) (sym (span-suc text pos n (omega arith)))
]
  where
    none_some : (i : ℕ) → none ≡ some i → ⊥
    none_some i h = cc

    else_branch : (b : Bool) (x y : Option ℕ) → b ≡ false → (if b then y else x) ≡ none → x ≡ none
    else_branch b x y h k = rw h at k

-- Where it finds a separator the span is a piece, and the fields after it.
pub memchr-some :
    (text : List ℕ) (separator n pos np : ℕ)
    → pos + n ≤ length text
    → memchr text separator n pos ≡ some np
    → (pos ≤ np)
      × (np < pos + n)
      × (byte_at text np ≡ separator)
      × (split separator (span text pos n)
          ≡ (span text pos (np - pos), fields separator (span text (suc np) (pos + n - suc np))))
unfolding memchr split
memchr-some text separator zero pos np h e = absurd (cc e)
memchr-some text separator (suc n) pos np h e = elim (Bool-cases (byte_at text pos == separator)) [
  | inl found ↦
      subst
        (λ (k : ℕ).
          (pos ≤ k)
          × (k < pos + suc n)
          × (byte_at text k ≡ separator)
          × (split separator (span text pos (suc n)) ≡ (
            span text pos (k - pos),
            fields separator (span text (suc k) (pos + suc n - suc k)),
          )))
        (some-injective _ _ (then_branch _ _ (some pos) found e))
        (
          omega arith,
          omega arith,
          (==_iff _ _).0 found,
          split-span text separator pos n (omega arith)
              ∙ ap (λ b. split_cons b (byte_at text pos) (split separator (span text (suc pos) n)))
                  found
              ∙ ap₂ (λ (a b : ℕ). (span text pos a, fields separator (span text (suc pos) b)))
                  (nothing_left pos) (rest_left pos n),
        )
  | inr other ↦
      let (lo, hi, b, eq) =
        memchr-some text separator n (suc pos) np (omega arith)
          (else_branch _ _ (some pos) other e) in
      (
        omega (arith, lo),
        omega (arith, hi),
        b,
        split-span text separator pos n (omega arith)
            ∙ ap (λ b. split_cons b (byte_at text pos) (split separator (span text (suc pos) n)))
                other
            ∙ ap (split_cons false (byte_at text pos)) eq
            ∙ ap (λ (l : List ℕ). (l, fields separator (span text (suc np) (suc pos + n - suc np))))
                (sym (span-suc text pos (np - suc pos) (omega arith)))
            ∙ ap₂ (λ (a b : ℕ). (span text pos a, fields separator (span text (suc np) b)))
                (one_more pos np lo) (omega arith),
      )
]
  where
    nothing_left : (a : ℕ) → 0 ≡ a - a
    nothing_left a = omega arith

    rest_left : (a b : ℕ) → b ≡ a + suc b - suc a
    rest_left a b = omega arith

    one_more : (a b : ℕ) → suc a ≤ b → suc (b - suc a) ≡ b - a
    one_more a b h = omega arith

    then_branch :
        (b : Bool) (x y : Option ℕ) {z : Option ℕ} → b ≡ true → (if b then y else x) ≡ z → y ≡ z
    then_branch b x y h k = rw h at k

    else_branch :
        (b : Bool) (x y : Option ℕ) {z : Option ℕ} → b ≡ false → (if b then y else x) ≡ z → x ≡ z
    else_branch b x y h k = rw h at k
