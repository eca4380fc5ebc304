-- ===== src/Dblock/Hash/Content.antt =====
-- The hash code is a function of the content: the first `length` bytes.
use tactyk.Base.{ℕ, zero, suc, ◌+◌, ◌-◌, ◌*◌, ◌/◌, ◌^◌, ◌≤◌, ◌<◌, ◌≡◌, refl, ap, ◌∙◌, arith, List}
use Prim.Native.Nat.{bit_and}
use tactyk.Base.Bits.{mask_seven}
use tactyk.Dblock.Hash.{byte_at, read_le, qword_at, hash_step, hash_loop, hash_bytes}

-- Two memories hold the same first `n` bytes.
abbrev pub Agree : ℕ → List ℕ → List ℕ → Type 0
Agree n a b = (j : ℕ) → j < n → byte_at a j ≡ byte_at b j

pub read_le-Agree :
    (count i : ℕ) {n : ℕ} (a b : List ℕ)
    → Agree n a b
    → i + count ≤ n
    → read_le count a i ≡ read_le count b i
read_le-Agree zero i a b h le = refl
read_le-Agree (suc count) i a b h le =
    omega (arith, h i (omega arith), read_le-Agree count (i + 1) a b h (omega arith))

pub qword_at-Agree :
    (i : ℕ) {n : ℕ} (a b : List ℕ) → Agree n a b → 8 * i + 8 ≤ n → qword_at a i ≡ qword_at b i
qword_at-Agree i a b h le = read_le-Agree 8 (8 * i) a b h le

pub hash_loop-ext :
    (f g : ℕ → ℕ) (n i hash : ℕ)
    → ((j : ℕ) → i ≤ j → j < i + n → f j ≡ g j)
    → hash_loop f n i hash ≡ hash_loop g n i hash
unfolding hash_loop
hash_loop-ext f g zero i hash h = refl
hash_loop-ext f g (suc n) i hash h =
    ap (λ d. hash_loop f n (i + 1) (hash_step hash d)) (h i (omega arith) (omega arith))
    ∙ hash_loop-ext f g n (i + 1) (hash_step hash (g i))
        (λ j lo hi. h j (omega arith) (omega arith))

pub hash_bytes-Agree : (n : ℕ) (a b : List ℕ) → Agree n a b → hash_bytes n a ≡ hash_bytes n b
unfolding hash_bytes
hash_bytes-Agree n a b h =
    ap (hash_loop _ (bit_and n 7) 0) (
      hash_loop-ext (qword_at a) (qword_at b) ((n - bit_and n 7) / 2 ^ 3) 0 0
        (λ j lo hi. qword_at-Agree j a b h (omega (arith, mask_seven n))))
    ∙ hash_loop-ext _ _ (bit_and n 7) 0 _
        (λ j lo hi. h (n - bit_and n 7 + j) (omega (arith, mask_seven n)))
