-- ===== src/Emit/Labels/Distinct.antt =====
-- Labels that differ get names that differ.
use mathlib.Core.Option
use mathlib.Core.List.{append_assoc, append-nil, head-eq_of_cons-eq, tail-eq_of_cons-eq, cons≢nil}
use mathlib.Core.Bool.{true≢false}
use mathlib.Core.Path.{ap₂}
use tactyk.Base.{
  ℕ, ◌+◌, ◌*◌, ◌/◌, ◌%◌, ◌^◌, ◌≤◌, ◌<◌, ◌≡◌, ◌↔◌, ◌≢◌, subst, ◌⊎◌, inl, inr, refl, sym, ap, ◌∙◌,
  arith, Bool, true, false, List, [], ◌∷◌, ◌++◌, some, ltb, ==_ne, length, Bool-cases, replicate,
  length-append, length-replicate,
}
use tactyk.Dblock.Block.{Block}
use tactyk.Dblock.Hash.{update_hash}
use tactyk.Dblock.Interpolate.Expansion.{IsTextOf}
use tactyk.Dblock.Interpolate.Filled.{Gives, append_bytes-Gives}
use tactyk.Dblock.Number.{decimal}
use tactyk.Dblock.Persist.{from_c_string, memcpy}
use tactyk.Dblock.Table.{header_of}
use tactyk.Dblock.Text.{append, append_bytes, content}
use tactyk.Dblock.Text.Append.{take-length}
use tactyk.Dblock.Text.Grow.{length-memcpy, take-memcpy}
use tactyk.Emit.Labels.{
  sanitized_char, sanitize_loop, sanitize_identifier, sanitized_label, label_prefix,
}

-- The name as a plain text.
sanitized : (ℕ → Bool) → List ℕ → List ℕ
sanitized namechars [] = []
sanitized namechars (c ∷ id_chars) = sanitized_char namechars c ++ sanitized namechars id_chars

-- Bytes that are no control characters below 26.
abbrev pub IsPlain : List ℕ → Type 0
IsPlain [] = Unit
IsPlain (c ∷ text) = (26 ≤ c) × (c < 256) × IsPlain text

-- A byte from 26 on is written with two digits or with three.
decimal_two : (c : ℕ) → 26 ≤ c → c < 100 → decimal 20 c ≡ (b'0' + c / 10) ∷ (b'0' + c % 10) ∷ []
unfolding decimal
decimal_two c low high = rw (many, one) refl
  where
    many : ltb c 10 ≡ false
    many = ground arith

    one : ltb (c / 10) 10 ≡ true
    one = ground arith

decimal_three :
    (c : ℕ)
    → 100 ≤ c
    → c < 256
    → decimal 20 c ≡ (b'0' + c / 10 / 10) ∷ (b'0' + c / 10 % 10) ∷ (b'0' + c % 10) ∷ []
unfolding decimal
decimal_three c low high = rw (many, two, one) refl
  where
    many : ltb c 10 ≡ false
    many = ground arith

    two : ltb (c / 10) 10 ≡ false
    two = ground arith

    one : ltb (c / 10 / 10) 10 ≡ true
    one = ground arith

module _ (namechars : ℕ → Bool) where
  -- How a byte stands in the name.
  IsCoded : ℕ → Type 0
  IsCoded c =
      ((namechars c ≡ true) × (sanitized_char namechars c ≡ c ∷ []))
      ⊎ (((c < 100) × (sanitized_char namechars c ≡ b'~' ∷ (b'0' + c / 10) ∷ (b'0' + c % 10) ∷ []))
          ⊎ ((100 ≤ c)
              × (sanitized_char namechars c
                  ≡ b'~' ∷ (b'0' + c / 10 / 10) ∷ (b'0' + c / 10 % 10) ∷ (b'0' + c % 10) ∷ [])))

  sanitized_char-IsCoded : (c : ℕ) → 26 ≤ c → c < 256 → IsCoded c
  unfolding sanitized_char IsCoded
  sanitized_char-IsCoded c low high = elim (Bool-cases (namechars c)) [
    | inl name ↦ inl (name, rw (name, ==_ne c 0 (λ e. omega arith)) refl)
    | inr other ↦ elim (Bool-cases (ltb c 100)) [
      | inl two ↦ inr (inl (below c two, rw (other, decimal_two c low (below c two)) refl))
      | inr three ↦ inr (inr (above c three, rw (other, decimal_three c (above c three) high) refl))
    ]
  ]
    where
      below : (n : ℕ) → ltb n 100 ≡ true → n < 100
      below n e = ground arith

      above : (n : ℕ) → ltb n 100 ≡ false → 100 ≤ n
      above n e = ground arith

heads : {x y : ℕ} {xs ys : List ℕ} → x ∷ xs ≡ y ∷ ys → (x ≡ y) × (xs ≡ ys)
heads e = (head-eq_of_cons-eq e, tail-eq_of_cons-eq e)

pub from_c_string-IsTextOf : (text : List ℕ) → IsTextOf (header_of (from_c_string text)) text
unfolding from_c_string update_hash
from_c_string-IsTextOf text =
    let owned : length (memcpy (length text) (replicate (length text) 0) text) ≡ length text =
      length-memcpy (length text) (replicate (length text) 0) text
      ∙ length-replicate {A = ℕ} (length text) 0 in
    record {
      text = record {
        within = omega arith;
        fits = omega (arith, owned);
        owned = λ m. owned;
        mutable = refl;
      };
      content_lem =
          take-memcpy (length text) (replicate (length text) 0) text
            (omega (arith, length-replicate {A = ℕ} (length text) 0)) (omega arith)
          ∙ take-length text;
      length_lem = refl;
      managed = refl;
      hashed = refl;
    }

rewritten :
    (xs ys : List ℕ) {l l' m m' : List ℕ}
    → l ≡ l'
    → m ≡ m'
    → l ++ xs ≡ m ++ ys
    → l' ++ xs ≡ m' ++ ys
rewritten xs ys p q e = sym (ap (λ k. k ++ xs) p) ∙ e ∙ ap (λ k. k ++ ys) q

module _ (namechars : ℕ → Bool) (no_tilde : namechars b'~' ≡ false) where
  tilde_is_no_name : {A : Type 0} (c : ℕ) → namechars c ≡ true → c ≡ b'~' → A
  tilde_is_no_name c name e = absurd (true≢false (sym name ∙ ap namechars e ∙ no_tilde))

  -- The first byte of an identifier can be told from its name.
  next_char :
      (c d : ℕ) (xs ys : List ℕ)
      → IsCoded namechars c
      → IsCoded namechars d
      → 26 ≤ c
      → 26 ≤ d
      → c < 256
      → d < 256
      → sanitized_char namechars c ++ xs ≡ sanitized_char namechars d ++ ys
      → (c ≡ d) × (xs ≡ ys)
  unfolding IsCoded
  next_char c d xs ys (inl (name, p)) (inl (name', q)) lc ld hc hd e = heads (rewritten xs ys p q e)
  next_char c d xs ys (inl (name, p)) (inr (inl (two, q))) lc ld hc hd e =
      tilde_is_no_name c name (heads (rewritten xs ys p q e)).0
  next_char c d xs ys (inl (name, p)) (inr (inr (three, q))) lc ld hc hd e =
      tilde_is_no_name c name (heads (rewritten xs ys p q e)).0
  next_char c d xs ys (inr (inl (two, p))) (inl (name', q)) lc ld hc hd e =
      tilde_is_no_name d name' (sym (heads (rewritten xs ys p q e)).0)
  next_char c d xs ys (inr (inr (three, p))) (inl (name', q)) lc ld hc hd e =
      tilde_is_no_name d name' (sym (heads (rewritten xs ys p q e)).0)
  next_char c d xs ys (inr (inl (two, p))) (inr (inl (two', q))) lc ld hc hd e =
      let (tens, e') = heads (heads (rewritten xs ys p q e)).1 in
      let (ones, same) = heads e' in (omega (arith, tens, ones), same)
  next_char c d xs ys (inr (inl (two, p))) (inr (inr (three', q))) lc ld hc hd e =
      let (tens, e') = heads (heads (rewritten xs ys p q e)).1 in
      absurd (omega (arith, tens, (heads e').0))
  next_char c d xs ys (inr (inr (three, p))) (inr (inl (two', q))) lc ld hc hd e =
      let (tens, e') = heads (heads (rewritten xs ys p q e)).1 in
      absurd (omega (arith, tens, (heads e').0))
  next_char c d xs ys (inr (inr (three, p))) (inr (inr (three', q))) lc ld hc hd e =
      let (hundreds, e') = heads (heads (rewritten xs ys p q e)).1 in
      let (tens, e'') = heads e' in
      let (ones, same) = heads e'' in (omega (arith, hundreds, tens, ones), same)

  nonempty : (c : ℕ) (xs : List ℕ) → IsCoded namechars c → sanitized_char namechars c ++ xs ≢ []
  unfolding IsCoded
  nonempty c xs (inl (name, p)) e = cons≢nil (sym (ap (λ k. k ++ xs) p) ∙ e)
  nonempty c xs (inr (inl (two, p))) e = cons≢nil (sym (ap (λ k. k ++ xs) p) ∙ e)
  nonempty c xs (inr (inr (three, p))) e = cons≢nil (sym (ap (λ k. k ++ xs) p) ∙ e)

  sanitized-injective :
      (a b : List ℕ) → IsPlain a → IsPlain b → sanitized namechars a ≡ sanitized namechars b → a ≡ b
  unfolding sanitized
  sanitized-injective [] [] pa pb e = refl
  sanitized-injective [] (d ∷ b) pa (ld, hd, pb) e =
      absurd (nonempty d (sanitized namechars b) (sanitized_char-IsCoded namechars d ld hd) (sym e))
  sanitized-injective (c ∷ a) [] (lc, hc, pa) pb e =
      absurd (nonempty c (sanitized namechars a) (sanitized_char-IsCoded namechars c lc hc) e)
  sanitized-injective (c ∷ a) (d ∷ b) (lc, hc, pa) (ld, hd, pb) e =
      let (same, rest) =
        next_char c d (sanitized namechars a) (sanitized namechars b)
          (sanitized_char-IsCoded namechars c lc hc) (sanitized_char-IsCoded namechars d ld hd) lc
          ld hc hd e in
      ap₂ (λ x xs. x ∷ xs) same (sanitized-injective a b pa pb rest)

length-IsCoded :
    (namechars : ℕ → Bool) (c : ℕ) → IsCoded namechars c → length (sanitized_char namechars c) ≤ 4
unfolding IsCoded
length-IsCoded namechars c (inl (name, p)) = rw (p) (omega arith)
length-IsCoded namechars c (inr (inl (two, p))) = rw (p) (omega arith)
length-IsCoded namechars c (inr (inr (three, p))) = rw (p) (omega arith)

pub append-Gives :
    (out : Block) (text source : List ℕ)
    → IsTextOf out text
    → length text + length source ≤ 2 ^ 63
    → Gives (append out (header_of (from_c_string source))) (text ++ source)
unfolding append
append-Gives out text source i bound =
    subst (λ bytes. Gives (append_bytes out bytes) (text ++ source))
      (sym (from_c_string-IsTextOf source).content_lem) (append_bytes-Gives out text source i bound)

sanitize_loop-Gives :
    (namechars : ℕ → Bool) (id_chars : List ℕ) (out : Block) (text : List ℕ)
    → IsPlain id_chars
    → IsTextOf out text
    → length text + 4 * length id_chars ≤ 2 ^ 63
    → Gives (sanitize_loop namechars id_chars out) (text ++ sanitized namechars id_chars)
unfolding sanitize_loop sanitized Option.bind
sanitize_loop-Gives namechars [] out text p i bound =
    (out, refl, subst (IsTextOf out) (sym (append-nil text)) i)
sanitize_loop-Gives namechars (c ∷ id_chars) out text (low, high, p) i bound =
    let code = sanitized_char namechars c in
    let short = length-IsCoded namechars c (sanitized_char-IsCoded namechars c low high) in
    let (v, e, j) = append-Gives out text code i (omega (arith, short, bound)) in
    let (b, e', k) =
      sanitize_loop-Gives namechars id_chars v (text ++ code) p j
        (omega (arith, length-append text code, short, bound)) in
    (b, rw (e) e', subst (IsTextOf b) (append_assoc text code (sanitized namechars id_chars)) k)

-- The name of a label, as a text.
sanitized_label-Gives :
    (namechars : ℕ → Bool) (raw : Block)
    → IsPlain (content raw)
    → length (content raw) ≤ 2 ^ 60
    → Gives
        (sanitized_label namechars raw)
        ((b'l' ∷ b'b' ∷ b'l' ∷ b'#' ∷ []) ++ sanitized namechars (content raw))
unfolding sanitized_label sanitize_identifier
sanitized_label-Gives namechars raw p bound =
    sanitize_loop-Gives namechars (content raw) (header_of label_prefix)
      (b'l' ∷ b'b' ∷ b'l' ∷ b'#' ∷ []) p (from_c_string-IsTextOf (b'l' ∷ b'b' ∷ b'l' ∷ b'#' ∷ []))
      (omega (arith, bound))

-- When the tilde may not stand in a name, and two labels have at most 2 ^ 60 bytes and none of them
-- is below 26: both get a name in the assembler's input, and the names are the same exactly if the
-- labels are.
pub sanitized_label-injective :
    (namechars : ℕ → Bool) (a b : Block)
    → namechars b'~' ≡ false
    → IsPlain (content a)
    → IsPlain (content b)
    → length (content a) ≤ 2 ^ 60
    → length (content b) ≤ 2 ^ 60
    → (u v : Block) × (sanitized_label namechars a ≡ some u)
      × (sanitized_label namechars b ≡ some v)
      × (content u ≡ content v ↔ content a ≡ content b)
sanitized_label-injective namechars a b no_tilde pa pb small_a small_b =
    let (u, e, i) = sanitized_label-Gives namechars a pa small_a in
    let (v, f, j) = sanitized_label-Gives namechars b pb small_b in
    (
      u,
      v,
      e,
      f,
      (
        λ same.
            sanitized-injective namechars no_tilde (content a) (content b) pa pb
              (tail_of (tail_of (tail_of (tail_of (sym i.content_lem ∙ same ∙ j.content_lem))))),
        λ same.
            i.content_lem
            ∙ ap (λ text. (b'l' ∷ b'b' ∷ b'l' ∷ b'#' ∷ []) ++ sanitized namechars text) same
            ∙ sym j.content_lem,
      ),
    )
  where
    tail_of : {x y : ℕ} {xs ys : List ℕ} → x ∷ xs ≡ y ∷ ys → xs ≡ ys
    tail_of e = (heads e).1
