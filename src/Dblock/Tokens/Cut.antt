-- ===== src/Dblock/Tokens/Cut.antt =====
-- Cutting a block gives the fields of its content.
use mathlib.Core.List.{map}
use mathlib.Core.Path.{ap₂}
use tactyk.Base.{
  ℕ, zero, suc, ◌+◌, ◌-◌, ◌≤◌, ◌<◌, ◌≡◌, ◌≢◌, inl, inr, refl, sym, ap, ◌∙◌, subst, arith, Bool,
  true, false, List, [], ◌∷◌, ◌++◌, Option, none, some, ltb, ltb→lt, lt→ltb, if◌then◌else◌,
  Bool-cases, Option-cases, take, drop, length, length-take, length-drop,
}
use tactyk.Dblock.Block.{Block}
use tactyk.Dblock.Hash.{byte_at, update_hash}
use tactyk.Dblock.Text.{content, view}
use tactyk.Dblock.Tokens.{
  memchr, piece, add_piece, first_cut, cut_round, go_on, cut_loop, cut, again,
}
use tactyk.Dblock.Tokens.Fields.{push, split, fields, span, memchr-none, memchr-some}

abbrev pub contents : List Block → List (List ℕ)
contents bs = map content bs

push-nonempty : (w : List ℕ) (fs : List (List ℕ)) → 0 < length w → push w fs ≡ w ∷ fs
push-nonempty [] fs h = absurd (omega arith)
push-nonempty (c ∷ cs) fs h = refl

length-span : (text : List ℕ) (pos n : ℕ) → pos + n ≤ length text → length (span text pos n) ≡ n
length-span text pos n h = omega (arith, length-take n (drop pos text), length-drop pos text)

append_nil : (xs : List Block) → xs ++ [] ≡ xs
append_nil [] = refl
append_nil (x ∷ xs) = ap (λ l. x ∷ l) (append_nil xs)

append_assoc : (xs ys zs : List Block) → (xs ++ ys) ++ zs ≡ xs ++ (ys ++ zs)
append_assoc [] ys zs = refl
append_assoc (x ∷ xs) ys zs = ap (λ l. x ∷ l) (append_assoc xs ys zs)

-- The pieces that a loop adds behind those that are there.
abbrev Adds : Option (Block × List Block) → Block → List Block → List (List ℕ) → Type 0
Adds r primary more fs =
    (pieces : List Block) × (r ≡ some (primary, more ++ pieces)) × (contents pieces ≡ fs)

Adds-one :
    {r : Option (Block × List Block)} (primary : Block) (more : List Block) (b : Block)
    (fs : List (List ℕ))
    → Adds r primary (more ++ b ∷ []) fs
    → Adds r primary more (content b ∷ fs)
Adds-one primary more b fs (pieces, e, c) = (
  b ∷ pieces,
  e ∙ ap (λ l. some (primary, l)) (append_assoc more (b ∷ []) pieces),
  ap (λ l. content b ∷ l) c,
)

module _ (ptr : List ℕ) (separator ln : ℕ) (inside : ln ≤ length ptr) where
  -- what is left from a position on
  abbrev left_fields : ℕ → List (List ℕ)
  left_fields pos = fields separator (span ptr pos (ln - pos))

  loop_step :
      (fuel pos : ℕ) (found : Bool) (primary : Block) (more : List Block) (m : Option ℕ)
      → pos < ln
      → memchr ptr separator (ln - pos) pos ≡ m
      → cut_loop (suc fuel) ptr separator ln pos found primary more
        ≡ go_on (cut_loop fuel ptr separator ln) (cut_round ptr ln pos found primary more m)
  unfolding cut_loop
  loop_step fuel pos found primary more m h e =
      branch (ltb pos ln) _ _ (lt→ltb pos ln h)
      ∙ ap (λ q. go_on (cut_loop fuel ptr separator ln) (cut_round ptr ln pos found primary more q))
          e
    where
      branch : {A : Type 0} (b : Bool) (x y : A) → b ≡ true → (if b then x else y) ≡ x
      branch b x y h = rw h refl

  loop_end :
      (fuel pos : ℕ) (found : Bool) (primary : Block) (more : List Block)
      → ltb pos ln ≡ false
      → cut_loop (suc fuel) ptr separator ln pos found primary more ≡ some (primary, more)
  unfolding cut_loop
  loop_end fuel pos found primary more h = branch (ltb pos ln) _ _ h
    where
      branch : {A : Type 0} (b : Bool) (x y : A) → b ≡ false → (if b then x else y) ≡ y
      branch b x y h = rw h refl

  add_piece-Adds :
      (r : Option (Block × List Block)) (primary : Block) (more : List Block) (pos np : ℕ)
      → pos ≤ np
      → np < ln
      → (fs : List (List ℕ)) → Adds r primary (add_piece ptr pos np more) fs
      → Adds r primary more (push (span ptr pos (np - pos)) fs)
  unfolding add_piece piece view update_hash
  add_piece-Adds r primary more pos np le lt fs a = elim (Bool-cases (ltb pos np)) [
    | inl some_bytes ↦
        subst (λ (l : List (List ℕ)). Adds r primary more l)
          (sym (
            push-nonempty (span ptr pos (np - pos)) fs (
              omega (
                arith,
                ltb→lt pos np some_bytes,
                length-span ptr pos (np - pos) (omega (arith, lt, inside, le)),
              ))))
          (Adds-one primary more (piece ptr pos (np - pos)) fs (
            subst (λ (l : List Block). Adds r primary l fs) (branch (ltb pos np) _ _ some_bytes) a))
    | inr empty ↦
        subst (λ (n : ℕ). Adds r primary more (push (span ptr pos n) fs)) (no_bytes pos np empty)
          (subst (λ (l : List Block). Adds r primary l fs) (otherwise (ltb pos np) _ _ empty) a)
  ]
    where
      no_bytes : (a b : ℕ) → ltb a b ≡ false → 0 ≡ b - a
      no_bytes a b h = ground arith

      branch : {A : Type 0} (b : Bool) (x y : A) → b ≡ true → (if b then x else y) ≡ x
      branch b x y h = rw h refl

      otherwise : {A : Type 0} (b : Bool) (x y : A) → b ≡ false → (if b then x else y) ≡ y
      otherwise b x y h = rw h refl

  -- With a token found, the loop adds the fields of what is left.
  cut_loop-Adds :
      (fuel pos : ℕ) (primary : Block) (more : List Block)
      → pos ≤ ln
      → ln < pos + fuel
      → Adds (cut_loop fuel ptr separator ln pos true primary more) primary more (left_fields pos)
  unfolding cut_round split piece view update_hash
  cut_loop-Adds zero pos primary more h k = absurd (omega arith)
  cut_loop-Adds (suc fuel) pos primary more h k = elim (Bool-cases (ltb pos ln)) [
    | inr ended ↦ (
      [],
      loop_end fuel pos true primary more ended
          ∙ ap (λ l. some (primary, l)) (sym (append_nil more)),
      ap (λ (n : ℕ). fields separator (span ptr pos n)) (nothing pos ln ended),
    )
    | inl more_bytes ↦
        let lt = ltb→lt pos ln more_bytes in
        elim (Option-cases (memchr ptr separator (ln - pos) pos)) [
          | inl missed ↦ (
            piece ptr pos (ln - pos) ∷ [],
            loop_step fuel pos true primary more none lt missed,
            sym (
                ap (λ (w : List ℕ × List (List ℕ)). push w.0 w.1)
                  (memchr-none ptr separator (ln - pos) pos (omega (arith, lt, inside)) missed)
                ∙ push-nonempty (span ptr pos (ln - pos)) [] (
                    omega (arith, lt, length-span ptr pos (ln - pos) (omega (arith, lt, inside))))),
          )
          | inr (np, e) ↦
              let (lo, hi, b, eq) =
                memchr-some ptr separator (ln - pos) pos np (omega (arith, lt, inside)) e in
              let rest =
                cut_loop-Adds fuel (suc np) primary (add_piece ptr pos np more)
                  (omega (arith, lt, hi)) (omega (arith, lo, k)) in
              subst (λ r. Adds r primary more (left_fields pos))
                (sym (loop_step fuel pos true primary more (some np) lt e))
                (subst
                  (λ (l : List (List ℕ)).
                    Adds
                      (cut_loop fuel ptr separator ln (suc np) true primary
                        (add_piece ptr pos np more))
                      primary more l)
                  (sym (
                    ap (λ (w : List ℕ × List (List ℕ)). push w.0 w.1) eq
                    ∙ ap
                        (λ (n : ℕ).
                          push (span ptr pos (np - pos)) (fields separator (span ptr (suc np) n)))
                        (to_end pos ln np lt)))
                  (add_piece-Adds _ primary more pos np lo (omega (arith, lt, hi)) _ rest))
        ]
  ]
    where
      nothing : (a b : ℕ) → ltb a b ≡ false → 0 ≡ b - a
      nothing a b h = ground arith

      to_end : (a b n : ℕ) → a < b → a + (b - a) - suc n ≡ b - suc n
      to_end a b n h = omega arith

  -- the block after the first cut
  abbrev headed : Block → ℕ → Block
  headed primary np = update_hash (record primary { length = np - 0 })

  first_cut-again :
      (np : ℕ) (primary : Block)
      → 0 < np
      → first_cut ptr ln 0 np primary [] ≡ again (suc np) true (headed primary np) []
  unfolding first_cut
  first_cut-again np primary h = branch (ltb 0 np) _ _ (lt→ltb 0 np h)
    where
      branch : {A : Type 0} (b : Bool) (x y : A) → b ≡ true → (if b then x else y) ≡ x
      branch b x y h = rw h refl

  headed-content :
      (primary : Block) (np : ℕ)
      → primary.bytes ≡ ptr
      → content (headed primary np) ≡ span ptr 0 (np - 0)
  unfolding update_hash
  headed-content primary np e = ap (take (np - 0)) e

  fields_found :
      (np : ℕ)
      → 0 < np
      → np < ln
      → split separator (span ptr 0 (ln - 0))
        ≡ (span ptr 0 (np - 0), fields separator (span ptr (suc np) (0 + (ln - 0) - suc np)))
      → fields separator (span ptr 0 ln) ≡ span ptr 0 (np - 0) ∷ left_fields (suc np)
  fields_found np h lt eq =
      ap (λ (n : ℕ). fields separator (span ptr 0 n)) (omega arith)
      ∙ ap (λ (w : List ℕ × List (List ℕ)). push w.0 w.1) eq
      ∙ push-nonempty (span ptr 0 (np - 0))
          (fields separator (span ptr (suc np) (0 + (ln - 0) - suc np)))
          (omega (arith, length-span ptr 0 (np - 0) (omega (arith, lt, inside))))
      ∙ ap (λ (n : ℕ). span ptr 0 (np - 0) ∷ fields separator (span ptr (suc np) n))
          (omega (arith, lt))

  first-fields :
      (fuel : ℕ) (primary : Block)
      → 0 < ln
      → ln < suc fuel
      → byte_at ptr 0 ≢ separator
      → primary.bytes ≡ ptr
      → primary.length ≡ ln
      → (p : Block) × (more : List Block) × (cut_loop (suc fuel) ptr separator ln 0 false primary []
          ≡ some (p, more))
        × (content p ∷ contents more ≡ fields separator (span ptr 0 ln))
  unfolding cut_round
  first-fields fuel primary h k head same_bytes same_length =
      elim (Option-cases (memchr ptr separator (ln - 0) 0)) [
        | inl missed ↦ (
          primary,
          [],
          loop_step fuel 0 false primary [] none h missed,
          ap (λ (w : List ℕ). w ∷ []) (ap₂ take same_length same_bytes)
              ∙ sym (
                  ap (λ (n : ℕ). fields separator (span ptr 0 n)) (omega arith)
                  ∙ ap (λ (w : List ℕ × List (List ℕ)). push w.0 w.1)
                      (memchr-none ptr separator (ln - 0) 0 (omega (arith, inside)) missed)
                  ∙ push-nonempty (span ptr 0 (ln - 0)) []
                      (omega (arith, h, length-span ptr 0 (ln - 0) (omega (arith, inside))))
                  ∙ ap (λ (n : ℕ). span ptr 0 n ∷ []) (omega arith)),
        )
        | inr (np, e) ↦
            let (lo, hi, b, eq) =
              memchr-some ptr separator (ln - 0) 0 np (omega (arith, inside)) e in
            let up : 0 < np = not_first np b in
            let lt : np < ln = omega (arith, hi) in
            let (pieces, run, cs) =
              cut_loop-Adds fuel (suc np) (headed primary np) [] (omega (arith, lt))
                (omega (arith, k, up)) in
            (
              headed primary np,
              pieces,
              loop_step fuel 0 false primary [] (some np) h e
                  ∙ ap (go_on (cut_loop fuel ptr separator ln)) (first_cut-again np primary up)
                  ∙ run,
              ap₂ (λ (a : List ℕ) (l : List (List ℕ)). a ∷ l) (headed-content primary np same_bytes)
                    cs
                  ∙ sym (fields_found np up lt eq),
            )
      ]
    where
      not_first : (np : ℕ) → byte_at ptr np ≡ separator → 0 < np
      not_first zero b = absurd (head b)
      not_first (suc np) b = omega arith

-- A block whose content is not empty and starts with no separator is cut into the fields of its
-- content, and the loop ends within its fuel.
pub cut-fields :
    (b : Block) (separator : ℕ) (primary : Block)
    → b.length ≤ length b.bytes
    → 0 < b.length
    → byte_at b.bytes 0 ≢ separator
    → primary.bytes ≡ b.bytes
    → primary.length ≡ b.length
    → (p : Block) × (more : List Block) × (cut b separator primary ≡ some (p, more))
      × (content p ∷ contents more ≡ fields separator (content b))
unfolding cut
cut-fields b separator primary inside some_bytes head same_bytes same_length =
    first-fields b.bytes separator b.length inside b.length primary some_bytes (omega arith) head
      same_bytes same_length
