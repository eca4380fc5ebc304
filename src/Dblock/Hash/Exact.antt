-- ===== src/Dblock/Hash/Exact.antt =====
-- What tactyk_dblock__equals compares, exactly.
use tactyk.Base.{
  ℕ, zero, suc, ◌+◌, ◌-◌, ◌*◌, ◌/◌, ◌%◌, ◌^◌, ◌≤◌, ◌<◌, ◌≡◌, refl, arith, List, Bool, true, false,
  ltb, not, if◌then◌else◌, ◌↔◌, subst,
}
use native.Mathlib.Decide.{ℕ_discrete, dec_lt}
use Prim.Native.Nat.{bit_and}
use tactyk.Base.Bits.{mask_seven}
use tactyk.Dblock.Block.{Block}
use tactyk.Dblock.Hash.{byte_at, read_le, qword_at, same_loop, equals}
use tactyk.Dblock.Hash.Content.{Agree, qword_at-Agree}

same_loop-suc :
    (f g : ℕ → ℕ) (n i : ℕ)
    → same_loop f g (suc n) i ≡ true
    → (f i ≡ g i) × (same_loop f g n (i + 1) ≡ true)
unfolding same_loop
same_loop-suc f g n i e = ground arith

pub same_loop_sound :
    (f g : ℕ → ℕ) (n i : ℕ) → same_loop f g n i ≡ true → (j : ℕ) → i ≤ j → j < i + n → f j ≡ g j
same_loop_sound f g zero i e j lo hi = absurd (omega arith)
same_loop_sound f g (suc n) i e j lo hi =
    let (here, rest) = same_loop-suc f g n i e in
    elim (ℕ_discrete i j) [
      | yes p ↦ subst (λ k. f k ≡ g k) p here
      | no p ↦ same_loop_sound f g n (i + 1) rest j (omega arith) (omega arith)
    ]

pub same_loop_complete :
    (f g : ℕ → ℕ) (n i : ℕ) → ((j : ℕ) → i ≤ j → j < i + n → f j ≡ g j) → same_loop f g n i ≡ true
unfolding same_loop
same_loop_complete f g zero i h = refl
same_loop_complete f g (suc n) i h = ground (
  arith,
  h i (omega arith) (omega arith),
  same_loop_complete f g n (i + 1) (λ j lo hi. h j (omega arith) (omega arith)),
)

-- Every cell of the memory is a byte.
abbrev pub IsBytes : List ℕ → Type 0
IsBytes bytes = (j : ℕ) → byte_at bytes j < 256

read_le-injective :
    (count i : ℕ) (a b : List ℕ)
    → IsBytes a
    → IsBytes b
    → read_le count a i ≡ read_le count b i
    → (j : ℕ) → i ≤ j
    → j < i + count
    → byte_at a j ≡ byte_at b j
read_le-injective zero i a b ha hb e j lo hi = absurd (omega arith)
read_le-injective (suc count) i a b ha hb e j lo hi = elim (ℕ_discrete i j) [
  | yes p ↦ subst (λ k. byte_at a k ≡ byte_at b k) p (omega (arith, ha i, hb i))
  | no p ↦
      read_le-injective count (i + 1) a b ha hb (omega (arith, ha i, hb i)) j (omega arith)
        (omega arith)
]

-- The number of leading bytes that `equals` looks at, for blocks of length `len`.
abbrev pub compared : ℕ → ℕ
compared len = if ltb len 8 then len else 8 * (len / 8)

pub compared-le : (len : ℕ) → compared len ≤ len
compared-le len = ground arith

le-compared : (len : ℕ) → 8 * (len / 8) ≤ compared len
le-compared len = ground arith

compared_words : (len : ℕ) → ¬ (len < 8) → compared len ≡ 8 * (len / 8)
compared_words len h = ground arith

residue-lt-compared : (len j : ℕ) → j < len % 8 → len / 8 + j < compared len
residue-lt-compared len j h = ground arith

words-Agree :
    (n : ℕ) (a b : List ℕ)
    → IsBytes a
    → IsBytes b
    → same_loop (qword_at a) (qword_at b) n 0 ≡ true
    → Agree (8 * n) a b
words-Agree n a b ha hb e j lt =
    read_le-injective 8 (8 * (j / 8)) a b ha hb
      (same_loop_sound (qword_at a) (qword_at b) n 0 e (j / 8) (omega arith) (omega arith)) j
      (omega arith) (omega arith)

-- the two loops of `equals` on blocks of length `len`
abbrev pub word_count : ℕ → ℕ
word_count len = (len - bit_and len 7) / 2 ^ 3

unfoldable pub words_same : ℕ → List ℕ → List ℕ → Bool
words_same len a b = same_loop (qword_at a) (qword_at b) (word_count len) 0

unfoldable pub residue_same : ℕ → List ℕ → List ℕ → Bool
residue_same len a b =
    same_loop (λ i. byte_at a (word_count len + i)) (λ i. byte_at b (word_count len + i))
      (bit_and len 7) 0

unfoldable pub loops : ℕ → List ℕ → List ℕ → Bool
loops len a b = if not (words_same len a b) then false else residue_same len a b

both : (p q : Bool) → (if not p then false else q) ≡ true → (p ≡ true) × (q ≡ true)
both p q e = ground arith

both_intro : (p q : Bool) → p ≡ true → q ≡ true → (if not p then false else q) ≡ true
both_intro p q e f = ground arith

residue_same_sound :
    (len : ℕ) (a b : List ℕ) → len < 8 → residue_same len a b ≡ true → Agree len a b
unfolding residue_same
residue_same_sound len a b small e j lt =
    let q : word_count len + j ≡ j = omega (arith, mask_seven len) in
    subst (λ k. byte_at a k ≡ byte_at b k) q
      (same_loop_sound (λ i. byte_at a (word_count len + i)) (λ i. byte_at b (word_count len + i))
        (bit_and len 7) 0 e j (omega arith) (omega (arith, mask_seven len)))

loops_sound :
    (len : ℕ) (a b : List ℕ)
    → IsBytes a
    → IsBytes b
    → loops len a b ≡ true
    → Agree (compared len) a b
unfolding loops words_same
loops_sound len a b ha hb e j lt =
    let p : (words_same len a b ≡ true) × (residue_same len a b ≡ true) = both _ _ e in
    elim (dec_lt len 8) [
      | yes small ↦ residue_same_sound len a b small p.1 j (omega (arith, compared-le len))
      | no large ↦
          words-Agree (word_count len) a b ha hb p.0 j
            (omega (arith, mask_seven len, compared_words len large))
    ]

pub loops_complete : (len : ℕ) (a b : List ℕ) → Agree (compared len) a b → loops len a b ≡ true
unfolding loops words_same residue_same
loops_complete len a b h =
    both_intro _ _
      (same_loop_complete (qword_at a) (qword_at b) (word_count len) 0
        (λ j lo hi. qword_at-Agree j a b h (omega (arith, mask_seven len, le-compared len))))
      (same_loop_complete (λ i. byte_at a (word_count len + i))
        (λ i. byte_at b (word_count len + i)) (bit_and len 7) 0
        (λ j lo hi. h (word_count len + j) (
          omega
            (arith, mask_seven len, residue-lt-compared len j (omega (arith, mask_seven len))))))

pub equals-loops :
    (a b : Block)
    → (equals a b ≡ true)
      ↔ (a.hashcode ≡ b.hashcode) × (a.length ≡ b.length) × (loops a.length a.bytes b.bytes ≡ true)
unfolding equals loops words_same residue_same
equals-loops a b = ground arith

-- `equals` holds exactly when the hash codes and the lengths are the same and the first
-- `compared length` bytes are: all of them below 8 bytes, and above only the whole 64-bit words.
pub equals_iff :
    (a b : Block)
    → IsBytes a.bytes
    → IsBytes b.bytes
    → (equals a b ≡ true)
      ↔ (a.hashcode ≡ b.hashcode)
        × (a.length ≡ b.length)
        × Agree (compared a.length) a.bytes b.bytes
equals_iff a b ha hb = (
  λ e. let (h, l, w) = (equals-loops a b).0 e in (h, l, loops_sound a.length _ _ ha hb w),
  λ p. (equals-loops a b).1 (p.0, p.1, loops_complete a.length _ _ p.2),
)
