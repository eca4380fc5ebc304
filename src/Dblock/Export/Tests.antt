-- ===== src/Dblock/Export/Tests.antt =====
-- Small exports, and the theorem at one.
use tactyk.Base.{ℕ, zero, suc, ◌<◌, ◌≡◌, ◌≢◌, refl, arith, List, [], ◌∷◌, none, some}
use tactyk.Dblock.Block.{Block}
use tactyk.Dblock.Hash.{update_hash, byte_at}
use tactyk.Dblock.Persist.{memcpy}
use tactyk.Dblock.Text.{new}
use tactyk.Dblock.Tokens.{memchr}
use tactyk.Dblock.Export.{export_cstring, export_amount, c_text}
use tactyk.Dblock.Export.Terminated.{export_cstring-content}

-- "ab" with another byte of the text behind it
abbrev two_bytes : Block
two_bytes = record (new 0) { length = 2; bytes = b'a' ∷ b'b' ∷ b'c' ∷ [] }

export_cstring-content_example :
    (buffer : List ℕ) × (export_cstring 4 two_bytes ≡ some buffer)
    × (c_text buffer ≡ some (b'a' ∷ b'b' ∷ []))
unfolding new update_hash
export_cstring-content_example =
    export_cstring-content 4 two_bytes no_nul (omega arith) (omega arith)
  where
    no_nul : (j : ℕ) → j < 2 → byte_at (b'a' ∷ b'b' ∷ b'c' ∷ []) j ≢ 0
    no_nul zero h e = omega (arith, e)
    no_nul (suc zero) h e = omega (arith, e)
    no_nul (suc (suc j)) h e = omega arith

-- A text as long as the buffer leaves no terminator, a longer one is written past its end.
no_terminator : export_cstring 2 two_bytes ≡ some (b'a' ∷ b'b' ∷ [])
unfolding export_cstring export_amount memchr memcpy new update_hash
no_terminator = refl

past_the_end : export_cstring 1 two_bytes ≡ none
unfolding export_cstring export_amount memchr memcpy new update_hash
past_the_end = refl
