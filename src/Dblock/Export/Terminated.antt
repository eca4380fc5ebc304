-- ===== src/Dblock/Export/Terminated.antt =====
-- The exported C string is the text of the block, where that is short enough and holds no NUL.
use tactyk.Base.{
  ℕ, zero, suc, ◌+◌, ◌≤◌, ◌<◌, ◌≡◌, ◌≢◌, refl, arith, List, [], ◌∷◌, none, some, ==_ne,
  if◌then◌else◌, ltb, length, take, replicate,
}
use tactyk.Dblock.Block.{Block}
use tactyk.Dblock.Hash.{byte_at}
use tactyk.Dblock.Persist.{memcpy}
use tactyk.Dblock.Text.{content}
use tactyk.Dblock.Tokens.{memchr}
use tactyk.Dblock.Export.{export_amount, export_cstring, c_text}

-- No byte of the content is a NUL.
abbrev pub IsCText : Block → Type 0
IsCText b = (j : ℕ) → j < b.length → byte_at b.bytes j ≢ 0

memchr-none :
    (text : List ℕ) (n i : ℕ)
    → ((j : ℕ) → i ≤ j → j < i + n → byte_at text j ≢ 0)
    → memchr text 0 n i ≡ none
unfolding memchr
memchr-none text zero i h = refl
memchr-none text (suc n) i h =
    rw (==_ne (byte_at text i) 0 (h i (omega arith) (omega arith)))
      (memchr-none text n (suc i) (λ j lo hi. h j (omega arith) (omega arith)))

-- A copy into a zeroed buffer with room to spare.
c_text-memcpy :
    (n out_length : ℕ) (text : List ℕ)
    → n < out_length
    → n ≤ length text
    → ((j : ℕ) → j < n → byte_at text j ≢ 0)
    → c_text (memcpy n (replicate out_length 0) text) ≡ some (take n text)
unfolding c_text memcpy
c_text-memcpy zero zero text lt le h = absurd (omega arith)
c_text-memcpy zero (suc out_length) text lt le h = refl
c_text-memcpy (suc n) zero text lt le h = absurd (omega arith)
c_text-memcpy (suc n) (suc out_length) [] lt le h = absurd (omega arith)
c_text-memcpy (suc n) (suc out_length) (c ∷ text) lt le h =
    rw
      (
        ==_ne c 0 (h 0 (omega arith)),
        c_text-memcpy n out_length text (omega arith) (omega arith)
            (λ j k. h (suc j) (omega arith)),
      )
      refl

-- When a block holds no NUL and its content lies in its memory, the export to a buffer with room
-- for it and a terminator returns a buffer whose C string is the content.
pub export_cstring-content :
    (out_length : ℕ) (b : Block)
    → IsCText b
    → b.length < out_length
    → b.length ≤ length b.bytes
    → (buffer : List ℕ) × (export_cstring out_length b ≡ some buffer)
      × (c_text buffer ≡ some (content b))
unfolding export_cstring export_amount
export_cstring-content out_length b h room inside = (
  memcpy b.length (replicate out_length 0) b.bytes,
  rw (memchr-none b.bytes b.length 0 (λ j lo hi. h j (omega arith)))
      (fits out_length b.length room),
  c_text-memcpy b.length out_length b.bytes room inside h,
)
  where
    fits :
        (m n : ℕ)
        → n < m
        → (if ltb m n then none else some (memcpy n (replicate m 0) b.bytes))
          ≡ some (memcpy n (replicate m 0) b.bytes)
    fits m n lt = ground arith
