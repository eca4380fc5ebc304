-- ===== src/Dblock/Lines/Kept.antt =====
-- Which lines remove_blanks keeps.
use mathlib.Core.Bool.{true≢false}
use tactyk.Base.{
  ℕ, zero, suc, ◌+◌, ◌≤◌, ◌<◌, ◌≡◌, ◌≢◌, ◌↔◌, inl, inr, refl, sym, subst, arith, Bool, true, false,
  List, ◌==◌, ==_ne, ◌∙◌, if◌then◌else◌, Bool-cases,
}
use native.Mathlib.Decide.{ℕ_discrete}
use tactyk.Dblock.Block.{Block}
use tactyk.Dblock.Hash.{byte_at}
use tactyk.Dblock.Lines.{kept_loop, is_kept, is_char}

-- A character, which is signed, equal to a byte: no character from 128 on is.
abbrev pub IsChar : ℕ → ℕ → Type 0
IsChar ch byte = (ch < 128) × (ch ≡ byte)

is_char_iff : (ch byte : ℕ) → (is_char ch byte ≡ true) ↔ IsChar ch byte
is_char_iff ch byte = (λ e. (ground arith, ground arith), λ h. ground (arith, h.0, h.1))

is_char_not : (ch byte : ℕ) → ¬ IsChar ch byte → is_char ch byte ≡ false
is_char_not ch byte h = elim (Bool-cases (is_char ch byte)) [
  | inl e ↦ absurd (h ((is_char_iff ch byte).0 e))
  | inr e ↦ e
]

-- From index `i` on there are spaces up to a byte that is no space, no NUL and starts no comment.
abbrev pub HasCode : List ℕ → ℕ → ℕ → ℕ → ℕ → Type 0
HasCode text space comment n i =
    (q : ℕ) × (i ≤ q)
    × (q < i + n)
    × ((j : ℕ) → i ≤ j → j < q → IsChar (byte_at text j) space)
    × ¬ IsChar (byte_at text q) space
    × (byte_at text q ≢ 0)
    × ¬ IsChar (byte_at text q) comment

module _ (text : List ℕ) (space comment : ℕ) where
  chosen :
      (a b c rest : Bool)
      → (if a then rest else if b then false else if c then false else true) ≡ true
      → a ≡ false
      → (b ≡ false) × (c ≡ false)
  chosen a b c rest e h = ground arith

  differs : (a b : ℕ) → (a == b) ≡ false → a ≢ b
  differs a b h = ground arith

  no-IsChar : (a b : ℕ) → is_char a b ≡ false → ¬ IsChar a b
  no-IsChar a b h k = true≢false (sym ((is_char_iff a b).1 k) ∙ h)

  kept_loop_sound :
      (n i : ℕ) → kept_loop text space comment n i ≡ true → HasCode text space comment n i
  unfolding kept_loop
  kept_loop_sound zero i e = absurd (cc e)
  kept_loop_sound (suc n) i e = elim (Bool-cases (is_char (byte_at text i) space)) [
    | inl is_space ↦
        let (q, lo, hi, before, a, b, c) = kept_loop_sound n (suc i) (skip _ _ _ is_space e) in
        (
          q,
          omega (arith, lo),
          omega (arith, hi),
          λ j h k. elim (ℕ_discrete i j) [
            | yes same ↦
                subst (λ (m : ℕ). IsChar (byte_at text m) space) same ((is_char_iff _ _).0 is_space)
            | no other ↦ before j (omega arith) k
          ],
          a,
          b,
          c,
        )
    | inr other ↦
        let (b, c) = chosen _ _ _ _ e other in
        (
          i,
          omega arith,
          omega arith,
          λ j h k. absurd (omega arith),
          no-IsChar _ _ other,
          differs _ _ b,
          no-IsChar _ _ c,
        )
  ]
    where
      skip : (a : Bool) (x y : Bool) → a ≡ true → (if a then x else y) ≡ true → x ≡ true
      skip a x y h k = rw h at k

  kept_loop_complete :
      (n i : ℕ) → HasCode text space comment n i → kept_loop text space comment n i ≡ true
  unfolding kept_loop
  kept_loop_complete zero i (q, lo, hi, before, a, b, c) = absurd (omega arith)
  kept_loop_complete (suc n) i (q, lo, hi, before, a, b, c) = elim (ℕ_discrete i q) [
    | yes same ↦
        here _ _ _ _
          (is_char_not _ _ (subst (λ (m : ℕ). ¬ IsChar (byte_at text m) space) (sym same) a))
          (==_ne _ _ (subst (λ (m : ℕ). byte_at text m ≢ 0) (sym same) b))
          (is_char_not _ _ (subst (λ (m : ℕ). ¬ IsChar (byte_at text m) comment) (sym same) c))
    | no other ↦ later _ _ _ ((is_char_iff _ _).1 (before i (omega arith) (omega arith))) (
        kept_loop_complete n (suc i)
          (q, omega arith, omega arith, λ j h k. before j (omega arith) k, a, b, c))
  ]
    where
      here :
          (a b c rest : Bool)
          → a ≡ false
          → b ≡ false
          → c ≡ false
          → (if a then rest else if b then false else if c then false else true) ≡ true
      here a b c rest p q r = rw (p, q, r) refl

      later : (a x y : Bool) → a ≡ true → x ≡ true → (if a then x else y) ≡ true
      later a x y p q = rw (p, q) refl

-- A line is kept exactly when, after any number of spaces, there is a character in it that is no
-- space, no NUL and not the comment indicator, where characters from 128 on are signed and equal no
-- byte.
pub is_kept_iff :
    (space comment : ℕ) (b : Block)
    → (is_kept space comment b ≡ true) ↔ HasCode b.bytes space comment b.length 0
unfolding is_kept
is_kept_iff space comment b = (
  kept_loop_sound b.bytes space comment b.length 0,
  kept_loop_complete b.bytes space comment b.length 0,
)
