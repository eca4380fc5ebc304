-- ===== src/Dblock/Hash/Equivalence.antt =====
-- tactyk_dblock__equals is an equivalence of blocks, and takes blocks of one content for equal.
use tactyk.Base.{ℕ, ◌+◌, ◌≡◌, refl, sym, ap, ◌∙◌, arith, List, true, subst}
use Prim.Native.Nat.{bit_and}
use tactyk.Dblock.Block.{Block}
use tactyk.Dblock.Hash.{byte_at, qword_at, same_loop, equals, update_hash, hash_bytes}
use tactyk.Dblock.Hash.Content.{Agree, hash_bytes-Agree}
use tactyk.Dblock.Hash.Exact.{
  word_count, words_same, residue_same, loops, equals-loops, same_loop_sound, same_loop_complete,
  loops_complete, compared-le,
}

same_loop_refl : (f : ℕ → ℕ) (n i : ℕ) → same_loop f f n i ≡ true
same_loop_refl f n i = same_loop_complete f f n i (λ j lo hi. refl)

same_loop_sym : (f g : ℕ → ℕ) (n i : ℕ) → same_loop f g n i ≡ true → same_loop g f n i ≡ true
same_loop_sym f g n i e =
    same_loop_complete g f n i (λ j lo hi. sym (same_loop_sound f g n i e j lo hi))

same_loop_trans :
    (f g h : ℕ → ℕ) (n i : ℕ)
    → same_loop f g n i ≡ true
    → same_loop g h n i ≡ true
    → same_loop f h n i ≡ true
same_loop_trans f g h n i d e =
    same_loop_complete f h n i
      (λ j lo hi. same_loop_sound f g n i d j lo hi ∙ same_loop_sound g h n i e j lo hi)

loops_refl : (len : ℕ) (a : List ℕ) → loops len a a ≡ true
loops_refl len a = loops_complete len a a (λ j lt. refl)

loops_sym : (len : ℕ) (a b : List ℕ) → loops len a b ≡ true → loops len b a ≡ true
unfolding loops words_same residue_same
loops_sym len a b e = ground (
  arith,
  same_loop_sym (qword_at a) (qword_at b) (word_count len) 0,
  same_loop_sym (λ i. byte_at a (word_count len + i)) (λ i. byte_at b (word_count len + i))
      (bit_and len 7) 0,
)

loops_trans :
    (len : ℕ) (a b c : List ℕ) → loops len a b ≡ true → loops len b c ≡ true → loops len a c ≡ true
unfolding loops words_same residue_same
loops_trans len a b c d e = ground (
  arith,
  same_loop_trans (qword_at a) (qword_at b) (qword_at c) (word_count len) 0,
  same_loop_trans (λ i. byte_at a (word_count len + i)) (λ i. byte_at b (word_count len + i))
      (λ i. byte_at c (word_count len + i)) (bit_and len 7) 0,
)

pub equals_refl : (a : Block) → equals a a ≡ true
equals_refl a = (equals-loops a a).1 (refl, refl, loops_refl a.length a.bytes)

pub equals_sym : (a b : Block) → equals a b ≡ true → equals b a ≡ true
equals_sym a b e =
    let (h, l, w) = (equals-loops a b).0 e in
    (equals-loops b a).1
      (sym h, sym l, subst (λ n. loops n b.bytes a.bytes ≡ true) l (loops_sym _ _ _ w))

pub equals_trans : (a b c : Block) → equals a b ≡ true → equals b c ≡ true → equals a c ≡ true
equals_trans a b c d e =
    let (h, l, w) = (equals-loops a b).0 d in
    let (h', l', w') = (equals-loops b c).0 e in
    (equals-loops a c).1 (
      h ∙ h',
      l ∙ l',
      loops_trans a.length a.bytes b.bytes c.bytes w
          (subst (λ n. loops n b.bytes c.bytes ≡ true) (sym l) w'),
    )

pub equals-hashcode : (a b : Block) → equals a b ≡ true → a.hashcode ≡ b.hashcode
equals-hashcode a b e = ((equals-loops a b).0 e).0

-- Two blocks of one content are equal once their hash codes are up to date, whatever memory,
-- capacity and flags they have.
pub equals-update_hash :
    (a b : Block)
    → a.length ≡ b.length
    → Agree a.length a.bytes b.bytes
    → equals (update_hash a) (update_hash b) ≡ true
unfolding update_hash
equals-update_hash a b l h = (equals-loops _ _).1 (
  hash_bytes-Agree a.length a.bytes b.bytes h ∙ ap (λ n. hash_bytes n b.bytes) l,
  l,
  loops_complete a.length a.bytes b.bytes (λ j lt. h j (omega (arith, compared-le a.length))),
)
