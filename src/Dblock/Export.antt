-- ===== src/Dblock/Export.antt =====
-- tactyk_dblock__export_cstring, libtactyk/tactyk_dblock.c: the text of a block as a C string in a
-- buffer of the caller.
pub mod Terminated
mod Tests
use mathlib.Core.Option
use tactyk.Base.{
  ℕ, zero, suc, Bool, true, false, ◌&&◌, List, [], ◌∷◌, Option, none, some, leb, ltb, ◌==◌,
  if◌then◌else◌, replicate,
}
use tactyk.Base.Words.{sub64}
use tactyk.Dblock.Block.{Block}
use tactyk.Dblock.Persist.{memcpy}
use tactyk.Dblock.Tokens.{memchr}

-- the count of bytes to copy, on what memchr found
unfoldable pub export_amount : ℕ → ℕ → Option ℕ → ℕ
export_amount out_length length none = length
export_amount out_length length (some ptr) =
    if leb (sub64 out_length 1) ptr then sub64 out_length 1 else ptr

-- The buffer, or `none` where more than `out_length` bytes are written to it. There is no NUL among
-- the bytes copied, so strncpy copies them all.
unfoldable pub export_cstring : ℕ → Block → Option (List ℕ)
export_cstring out_length dblock =
    let amt = export_amount out_length dblock.length (memchr dblock.bytes 0 dblock.length 0) in
    if ltb out_length amt then none else some (memcpy amt (replicate out_length 0) dblock.bytes)

-- A buffer read as a C string: the bytes before the first NUL. `none` is a read past its end.
unfoldable pub c_text : List ℕ → Option (List ℕ)
c_text [] = none
c_text (c ∷ cs) = let rest = Option.map (λ t. c ∷ t) (c_text cs) in if c == 0 then some [] else rest

-- strncmp of memory with a C string without a NUL in it; `true` is equality
unfoldable pub same_start : ℕ → List ℕ → List ℕ → Bool
same_start zero bytes text = true
same_start (suc n) [] text = false
same_start (suc n) (b ∷ bytes) [] = b == 0
same_start (suc n) (b ∷ bytes) (c ∷ text) = b == c && same_start n bytes text

-- As many bytes are compared as the block has: a block that starts the text is equal to it.
unfoldable pub equals_c_string : Block → List ℕ → Bool
equals_c_string dblock text = same_start dblock.length dblock.bytes text
