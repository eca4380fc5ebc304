-- ===== src/Emit/Composite/Ordered.antt =====
-- The code of composite is its fragments, each once, in some order.
use mathlib.Core.Option
use mathlib.Core.Option.{none-ne-some, some-injective}
use mathlib.Core.List.{Perm, append_assoc, append-nil}
use mathlib.Core.List.Perm
use tactyk.Base.{
  ℕ, zero, suc, ◌+◌, ◌*◌, ◌^◌, ◌≤◌, ◌<◌, ◌≡◌, inl, inr, refl, sym, ap, subst, arith, List, [], ◌∷◌,
  ◌++◌, some, ◌==◌, ==_iff, length, get_elem?, set, take, length-set, Bool-cases, length-append,
}
use tactyk.Dblock.Block.{Block}
use tactyk.Dblock.Interpolate.Expansion.{IsTextOf}
use tactyk.Dblock.Interpolate.Filled.{Gives, append_bytes-Gives}
use tactyk.Dblock.Text.{append, content}
use tactyk.Emit.Composite.{Settings, append_all, append_some, append_permuted, write_fragments}
use tactyk.Emit.Machine.{Machine}
use native.Mathlib.Nat.{suc-mul}
use tactyk.Util.Random.{small_draws, rand_range-IsBelow}

-- The contents of fragments, one behind the other.
unfoldable pub contents : List Block → List ℕ
contents [] = []
contents (fragment ∷ fragments) = content fragment ++ contents fragments

last-Perm :
    {A : Type 0} (xs : List A) (left : ℕ) (last : A)
    → get_elem? xs left ≡ some last
    → Perm (last ∷ take left xs) (take (suc left) xs)
last-Perm [] left last f = absurd (none-ne-some _ f)
last-Perm (x ∷ xs) zero last f =
    subst (λ y. Perm (y ∷ []) (x ∷ [])) (some-injective _ _ f) (Perm.refl (x ∷ []))
last-Perm (x ∷ xs) (suc left) last f =
    Perm.trans (Perm.swap x last (take left xs)) (Perm.cons x (last-Perm xs left last f))

-- One entry is taken out, and the last one of the first `suc left` put in its place.
taken-Perm :
    {A : Type 0} (xs : List A) (left i : ℕ) (a last : A)
    → i ≤ left
    → get_elem? xs i ≡ some a
    → get_elem? xs left ≡ some last
    → Perm (a ∷ take left (set xs i last)) (take (suc left) xs)
taken-Perm [] left i a last le e f = absurd (none-ne-some _ e)
taken-Perm (x ∷ xs) zero zero a last le e f =
    subst (λ y. Perm (y ∷ []) (x ∷ [])) (some-injective _ _ e) (Perm.refl (x ∷ []))
taken-Perm (x ∷ xs) zero (suc i) a last le e f = absurd (omega arith)
taken-Perm (x ∷ xs) (suc left) zero a last le e f =
    subst (λ y. Perm (y ∷ last ∷ take left xs) (x ∷ take (suc left) xs)) (some-injective _ _ e)
      (Perm.cons x (last-Perm xs left last f))
taken-Perm (x ∷ xs) (suc left) (suc i) a last le e f =
    Perm.trans (Perm.swap x a (take left (set xs i last)))
      (Perm.cons x (taken-Perm xs left i a last (omega arith) e f))

-- Fragments of at most `most` bytes.
abbrev pub AreShort : ℕ → List Block → Type 0
AreShort most [] = Unit
AreShort most (fragment ∷ fragments) = (length (content fragment) ≤ most) × AreShort most fragments

set-AreShort :
    (most : ℕ) (xs : List Block) (i : ℕ) (v : Block)
    → AreShort most xs
    → length (content v) ≤ most
    → AreShort most (set xs i v)
set-AreShort most [] i v h le = tt
set-AreShort most (x ∷ xs) zero v h le = (le, h.1)
set-AreShort most (x ∷ xs) (suc i) v h le = (h.0, set-AreShort most xs i v h.1 le)

fragment_at :
    (most : ℕ) (xs : List Block) (i : ℕ)
    → AreShort most xs
    → i < length xs
    → (v : Block) × (get_elem? xs i ≡ some v) × (length (content v) ≤ most)
fragment_at most [] i h lt = absurd (omega arith)
fragment_at most (x ∷ xs) zero h lt = (x, refl, h.0)
fragment_at most (x ∷ xs) (suc i) h lt = fragment_at most xs i h.1 (omega arith)

append_fragment-Gives :
    (main_cb fragment : Block) (text : List ℕ)
    → IsTextOf main_cb text
    → length text + length (content fragment) ≤ 2 ^ 63
    → Gives (append main_cb fragment) (text ++ content fragment)
unfolding append
append_fragment-Gives main_cb fragment text i fits =
    append_bytes-Gives main_cb text (content fragment) i fits

append_some-Gives :
    (main_cb fragment : Block) (text : List ℕ)
    → IsTextOf main_cb text
    → length text + length (content fragment) ≤ 2 ^ 63
    → Gives (append_some main_cb fragment) (text ++ content fragment)
unfolding append_some
append_some-Gives main_cb fragment text i fits = elim (Bool-cases (fragment.length == 0)) [
  | inl blank ↦ (
    main_cb,
    rw (blank) refl,
    subst (λ l. IsTextOf main_cb (text ++ l))
        (sym (ap (λ (n : ℕ). take n fragment.bytes) ((==_iff fragment.length 0).0 blank)))
        (subst (IsTextOf main_cb) (sym (append-nil text)) i),
  )
  | inr more ↦ rw (more) (append_fragment-Gives main_cb fragment text i fits)
]

append_permuted-Perm :
    (left most : ℕ) (fragments : List Block) (draws : List ℕ) (main_cb : Block) (text : List ℕ)
    → left ≤ length fragments
    → left ≤ 2 ^ 63
    → left ≤ small_draws draws
    → AreShort most fragments
    → IsTextOf main_cb text
    → length text + left * most ≤ 2 ^ 63
    → (order : List Block) × Perm order (take left fragments)
      × (code : Block) × (rest : List ℕ) × (append_permuted left fragments draws main_cb
          ≡ some (code, rest))
      × IsTextOf code (text ++ contents order)
unfolding append_permuted contents Option.bind
append_permuted-Perm zero most fragments draws main_cb text le small enough short i fits =
    ([], Perm.refl [], main_cb, draws, refl, subst (IsTextOf main_cb) (sym (append-nil text)) i)
append_permuted-Perm (suc left) most fragments draws main_cb text le small enough short i fits =
    let (r, rest, drawn, lt, more) =
      rand_range-IsBelow (suc left) left draws (omega arith) small enough in
    let (cfrag, at_r, short_r) = fragment_at most fragments r short (omega arith) in
    let (last, at_left, short_last) = fragment_at most fragments left short (omega arith) in
    let step = suc-mul left most in
    let (b, e, j) = append_some-Gives main_cb cfrag text i (omega (arith, short_r, step, fits)) in
    let (order, p, code, left_draws, f, k) =
      append_permuted-Perm left most (set fragments r last) rest b (text ++ content cfrag)
        (omega (arith, length-set fragments r last, le)) (omega (arith, small)) more
        (set-AreShort most fragments r last short short_last) j
        (omega (arith, length-append text (content cfrag), short_r, step, fits)) in
    (
      cfrag ∷ order,
      Perm.trans (Perm.cons cfrag p)
          (taken-Perm fragments left r cfrag last (omega arith) at_r at_left),
      code,
      left_draws,
      rw (drawn, at_r, at_left, e) f,
      subst (IsTextOf code) (append_assoc text (content cfrag) (contents order)) k,
    )

append_all-Gives :
    (most : ℕ) (fragments : List Block) (main_cb : Block) (text : List ℕ)
    → AreShort most fragments
    → IsTextOf main_cb text
    → length text + length fragments * most ≤ 2 ^ 63
    → Gives (append_all fragments main_cb) (text ++ contents fragments)
unfolding append_all contents Option.bind
append_all-Gives most [] main_cb text short i fits =
    (main_cb, refl, subst (IsTextOf main_cb) (sym (append-nil text)) i)
append_all-Gives most (fragment ∷ fragments) main_cb text (le, short) i fits =
    let step = suc-mul (length fragments) most in
    let (b, e, j) = append_fragment-Gives main_cb fragment text i (omega (arith, le, step, fits)) in
    let (c, f, k) =
      append_all-Gives most fragments b (text ++ content fragment) short j
        (omega (arith, length-append text (content fragment), le, step, fits)) in
    (c, rw (e) f, subst (IsTextOf c) (append_assoc text (content fragment) (contents fragments)) k)

take_all : {A : Type 0} (xs : List A) → take (length xs) xs ≡ xs
take_all [] = refl
take_all (x ∷ xs) = ap (λ l. x ∷ l) (take_all xs)

-- When the fragments have at most `most` bytes each, the code so far and as many bytes for every
-- fragment come to at most 2 ^ 63, and there is a draw below 2 ^ 63 for every fragment: with or
-- without the permutation, the fragments are written behind the code so far, each once, in some
-- order.
pub write_fragments-Perm :
    (s : Settings) (most : ℕ) (fragments : List Block) (main_cb : Block) (text : List ℕ)
    (ctx : Machine)
    → AreShort most fragments
    → IsTextOf main_cb text
    → length fragments ≤ 2 ^ 63
    → length text + length fragments * most ≤ 2 ^ 63
    → length fragments ≤ small_draws ctx.draws
    → (order : List Block) × Perm order fragments
      × (ctx' : Machine) × (write_fragments s fragments main_cb ctx ≡ some ctx')
      × IsTextOf ctx'.asm_code (text ++ contents order)
unfolding write_fragments
write_fragments-Perm s most fragments main_cb text ctx short i size fits enough =
    elim (Bool-cases s.permute) [
      | inl permute ↦
          let (order, p, code, rest, e, k) =
            append_permuted-Perm (length fragments) most fragments ctx.draws main_cb text
              (omega arith) size enough short i fits in
          (
            order,
            subst (Perm order) (take_all fragments) p,
            record ctx { asm_code = code; draws = rest },
            rw (permute, e) refl,
            k,
          )
      | inr in_order ↦
          let (code, e, k) = append_all-Gives most fragments main_cb text short i fits in
          (fragments, Perm.refl fragments, record ctx { asm_code = code }, rw (in_order, e) refl, k)
    ]
