-- ===== src/Dblock/Text/Search.antt =====
-- tactyk_dblock__contains and contains_char decide whether the bytes occur.
use native.Mathlib.Decide.{ℕ_discrete}
use tactyk.Base.{
  ℕ, zero, suc, ◌+◌, ◌-◌, ◌≤◌, ◌<◌, ◌≡◌, ◌↔◌, inl, inr, refl, sym, ◌∙◌, arith, subst, Bool, true,
  false, List, ltb, ◌==◌, ==_iff, if◌then◌else◌, Bool-cases,
}
use tactyk.Dblock.Block.{Block}
use tactyk.Dblock.Hash.{byte_at, same_loop}
use tactyk.Dblock.Hash.Exact.{same_loop_sound, same_loop_complete}
use tactyk.Dblock.Text.{matches_at, scan_positions, contains, char_loop, contains_char}

-- `b` stands in `a` from index `pos` on.
abbrev pub OccursAt : Block → Block → ℕ → Type 0
OccursAt a b pos = (j : ℕ) → j < b.length → byte_at a.bytes (pos + j) ≡ byte_at b.bytes j

matches_at-same_loop :
    (x y : List ℕ) (pos n i : ℕ)
    → matches_at x y pos n i ≡ same_loop (λ j. byte_at x (pos + j)) (byte_at y) n i
unfolding matches_at same_loop
matches_at-same_loop x y pos zero i = refl
matches_at-same_loop x y pos (suc n) i = rw (matches_at-same_loop x y pos n (i + 1)) refl

matches_at_iff :
    (a b : Block) (pos : ℕ) → (matches_at a.bytes b.bytes pos b.length 0 ≡ true) ↔ OccursAt a b pos
matches_at_iff a b pos = (
  λ e. λ j h.
      same_loop_sound _ _ b.length 0 (sym (matches_at-same_loop a.bytes b.bytes pos b.length 0) ∙ e)
        j (omega arith) (omega (arith, h)),
  λ f.
      matches_at-same_loop a.bytes b.bytes pos b.length 0
      ∙ same_loop_complete (λ j. byte_at a.bytes (pos + j)) (byte_at b.bytes) b.length 0
          (λ j lo hi. f j (omega (arith, hi))),
)

-- `n` positions from `pos` on: one of them is a hit.
abbrev Hit : (ℕ → Type 0) → ℕ → ℕ → Type 0
Hit P n pos = (q : ℕ) × (pos ≤ q) × (q < pos + n) × P q

or_else : (p q : Bool) → (if p then true else q) ≡ true → p ≡ false → q ≡ true
or_else p q e f = ground arith

scan_positions_sound :
    (a b : Block) (n pos : ℕ) → scan_positions a.bytes b n pos ≡ true → Hit (OccursAt a b) n pos
unfolding scan_positions
scan_positions_sound a b zero pos e = absurd (ground arith)
scan_positions_sound a b (suc n) pos e =
    elim (Bool-cases (matches_at a.bytes b.bytes pos b.length 0)) [
      | inl here ↦ (pos, omega arith, omega arith, (matches_at_iff a b pos).0 here)
      | inr not_here ↦
          let (q, lo, hi, o) = scan_positions_sound a b n (pos + 1) (or_else _ _ e not_here) in
          (q, omega (arith, lo), omega (arith, hi), o)
    ]

either : (p : Bool) → (if p then true else true) ≡ true
either p = ground arith

scan_positions_complete :
    (a b : Block) (n pos : ℕ) → Hit (OccursAt a b) n pos → scan_positions a.bytes b n pos ≡ true
unfolding scan_positions
scan_positions_complete a b zero pos (q, lo, hi, o) = absurd (omega arith)
scan_positions_complete a b (suc n) pos (q, lo, hi, o) = elim (ℕ_discrete q pos) [
  | yes p ↦ rw ((matches_at_iff a b pos).1 (subst (λ (k : ℕ). OccursAt a b k) p o)) refl
  | no p ↦
      rw (scan_positions_complete a b n (pos + 1) (q, omega arith, omega arith, o))
        (either (matches_at a.bytes b.bytes pos b.length 0))
]

unless : (p q : Bool) → (if p then false else q) ≡ true → (p ≡ false) × (q ≡ true)
unless p q e = ground arith

unless_intro : (p q : Bool) → p ≡ false → q ≡ true → (if p then false else q) ≡ true
unless_intro p q e f = ground arith

not-ltb→le : (a b : ℕ) → ltb a b ≡ false → b ≤ a
not-ltb→le a b e = ground arith

le→not-ltb : (a b : ℕ) → b ≤ a → ltb a b ≡ false
le→not-ltb a b e = ground arith

-- `contains` holds exactly when the bytes of `b` stand in the content of `a`, from an index on at
-- which all of them fit.
pub contains_iff :
    (a b : Block) → (contains a b ≡ true) ↔ ((q : ℕ) × (q + b.length ≤ a.length) × OccursAt a b q)
unfolding contains
contains_iff a b = (
  λ e.
      let (long, found) = unless (ltb a.length b.length) _ e in
      let (q, lo, hi, o) = scan_positions_sound a b (a.length - b.length + 1) 0 found in
      (q, omega (arith, hi, not-ltb→le a.length b.length long), o),
  λ (q, fit, o).
      unless_intro (ltb a.length b.length) _ (le→not-ltb a.length b.length (omega (arith, fit))) (
        scan_positions_complete a b (a.length - b.length + 1) 0
          (q, omega arith, omega (arith, fit), o)),
)

char_loop_sound :
    (buf : List ℕ) (c n i : ℕ) → char_loop buf c n i ≡ true → Hit (λ q. byte_at buf q ≡ c) n i
unfolding char_loop
char_loop_sound buf c zero i e = absurd (ground arith)
char_loop_sound buf c (suc n) i e = elim (Bool-cases (byte_at buf i == c)) [
  | inl here ↦ (i, omega arith, omega arith, (==_iff _ _).0 here)
  | inr not_here ↦
      let (q, lo, hi, o) = char_loop_sound buf c n (i + 1) (or_else _ _ e not_here) in
      (q, omega (arith, lo), omega (arith, hi), o)
]

char_loop_complete :
    (buf : List ℕ) (c n i : ℕ) → Hit (λ q. byte_at buf q ≡ c) n i → char_loop buf c n i ≡ true
unfolding char_loop
char_loop_complete buf c zero i (q, lo, hi, o) = absurd (omega arith)
char_loop_complete buf c (suc n) i (q, lo, hi, o) = elim (ℕ_discrete q i) [
  | yes p ↦ rw ((==_iff _ _).1 (subst (λ (k : ℕ). byte_at buf k ≡ c) p o)) refl
  | no p ↦
      rw (char_loop_complete buf c n (i + 1) (q, omega arith, omega arith, o))
        (either (byte_at buf i == c))
]

-- `contains_char` holds exactly when a byte of the content is the character.
pub contains_char_iff :
    (a : Block) (c : ℕ)
    → (contains_char a c ≡ true) ↔ ((q : ℕ) × (q < a.length) × (byte_at a.bytes q ≡ c))
unfolding contains_char
contains_char_iff a c = (
  λ e. let (q, lo, hi, o) = char_loop_sound a.bytes c a.length 0 e in (q, omega (arith, hi), o),
  λ (q, h, o). char_loop_complete a.bytes c a.length 0 (q, omega arith, omega (arith, h), o),
)
