-- ===== src/Emit/Operands/Bytes.antt =====
-- Numbers read from a buffer of bytes, and buffers that a text is copied to.
use mathlib.Core.Path.{ap₂}
use native.Mathlib.Nat.{pow-suc}
use tactyk.Base.{
  ℕ, zero, suc, ◌+◌, ◌-◌, ◌^◌, ◌≤◌, ◌<◌, ◌≡◌, refl, sym, ap, ◌∙◌, arith, List, [], ◌∷◌, ◌++◌,
  length, take, drop, replicate, take-append-drop, length-drop,
}
use tactyk.Dblock.Hash.{byte_at, read_le}
use tactyk.Dblock.Persist.{memcpy}
use tactyk.Dblock.Text.{bytes_of}

-- Bytes.
abbrev pub AreBytes : List ℕ → Type 0
AreBytes [] = Unit
AreBytes (c ∷ text) = (c < 256) × AreBytes text

byte_at-drop : (xs : List ℕ) (i : ℕ) → i < length xs → drop i xs ≡ byte_at xs i ∷ drop (suc i) xs
byte_at-drop [] i h = absurd (omega arith)
byte_at-drop (x ∷ xs) zero h = refl
byte_at-drop (x ∷ xs) (suc i) h = byte_at-drop xs i (omega arith)

byte_at-AreBytes : (xs : List ℕ) (i : ℕ) → AreBytes xs → byte_at xs i < 256
byte_at-AreBytes [] i h = omega arith
byte_at-AreBytes (x ∷ xs) zero h = h.0
byte_at-AreBytes (x ∷ xs) (suc i) h = byte_at-AreBytes xs i h.1

-- A number read from memory is written back as it was.
bytes_of-read_le :
    (count : ℕ) (xs : List ℕ) (i : ℕ)
    → AreBytes xs
    → i + count ≤ length xs
    → bytes_of count (read_le count xs i) ≡ take count (drop i xs)
bytes_of-read_le zero xs i h fits = refl
bytes_of-read_le (suc count) xs i h fits =
    ap₂ (λ (b : ℕ) (l : List ℕ). b ∷ l) (omega (arith, byte_at-AreBytes xs i h))
      (ap (bytes_of count) (omega (arith, byte_at-AreBytes xs i h))
        ∙ bytes_of-read_le count xs (i + 1) h (omega arith))
    ∙ sym (
        ap (take (suc count)) (byte_at-drop xs i (omega arith))
        ∙ ap (λ (j : ℕ). byte_at xs i ∷ take count (drop j xs)) {x = suc i} (omega arith))

pub memcpy-zeros :
    (count size : ℕ) (source : List ℕ)
    → count ≤ size
    → count ≤ length source
    → memcpy count (replicate size 0) source ≡ take count source ++ replicate (size - count) 0
unfolding memcpy
memcpy-zeros zero size source h fits = ap (λ (n : ℕ). replicate n 0) (omega arith)
memcpy-zeros (suc count) zero source h fits = absurd (omega arith)
memcpy-zeros (suc count) (suc size) [] h fits = absurd (omega arith)
memcpy-zeros (suc count) (suc size) (c ∷ source) h fits =
    ap (λ l. c ∷ l)
      (memcpy-zeros count size source (omega arith) (omega arith)
        ∙ ap (λ (n : ℕ). take count source ++ replicate n 0) (omega arith))

pub AreBytes-zeros : (n : ℕ) → AreBytes (replicate n 0)
AreBytes-zeros zero = tt
AreBytes-zeros (suc n) = (omega arith, AreBytes-zeros n)

take_all : (n : ℕ) (xs : List ℕ) → length xs ≡ n → take n xs ≡ xs
take_all zero [] e = refl
take_all zero (x ∷ xs) e = absurd (omega (arith, e))
take_all (suc n) [] e = refl
take_all (suc n) (x ∷ xs) e = ap (λ l. x ∷ l) (take_all n xs (omega (arith, e)))

-- The two halves of a buffer.
pub halves :
    (n : ℕ) (buf : List ℕ)
    → AreBytes buf
    → length buf ≡ n + n
    → bytes_of n (read_le n buf 0) ++ bytes_of n (read_le n buf n) ≡ buf
halves n buf h size =
    ap₂ (λ (a b : List ℕ). a ++ b) (bytes_of-read_le n buf 0 h (omega (arith, size)))
      (bytes_of-read_le n buf n h (omega (arith, size))
        ∙ take_all n (drop n buf) (omega (arith, size, length-drop n buf)))
    ∙ take-append-drop n buf

pub read_le-lt : (count : ℕ) (xs : List ℕ) (i : ℕ) → AreBytes xs → read_le count xs i < 256 ^ count
read_le-lt zero xs i h = omega arith
read_le-lt (suc count) xs i h =
    omega (arith, byte_at-AreBytes xs i h, read_le-lt count xs (i + 1) h, pow-suc 256 count)
