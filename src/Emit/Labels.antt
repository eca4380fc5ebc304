-- ===== src/Emit/Labels.antt =====
-- tactyk_emit__sanitize_identifier, libtactyk/tactyk_emit.c: the name of a label in the assembler's
-- input, and the characters that tactyk_visa__init_emit, libtactyk/tactyk_visa.c, lets stand in it.
-- A result `none` is a failed operation of a block.
pub mod Distinct
mod Tests
use mathlib.Core.Option
use tactyk.Base.{ℕ, Bool, false, ◌||◌, List, [], ◌∷◌, Option, some, ◌==◌, if◌then◌else◌}
use tactyk.Dblock.Block.{Block, DBlock}
use tactyk.Dblock.Number.{decimal}
use tactyk.Dblock.Persist.{from_c_string}
use tactyk.Dblock.Table.{header_of}
use tactyk.Dblock.Text.{append, content}

-- `txt`: the character, or "~%u"; a NUL ends it.
unfoldable pub sanitized_char : (ℕ → Bool) → ℕ → List ℕ
sanitized_char namechars c =
    let plain = if c == 0 then [] else c ∷ [] in if namechars c then plain else b'~' ∷ decimal 20 c

-- the loop over the characters
unfoldable pub sanitize_loop : (ℕ → Bool) → List ℕ → Block → Option Block
sanitize_loop namechars [] out = some out
sanitize_loop namechars (c ∷ id_chars) out =
    Option.bind (append out (header_of (from_c_string (sanitized_char namechars c))))
      (sanitize_loop namechars id_chars)

unfoldable pub sanitize_identifier : (ℕ → Bool) → Block → Block → Option Block
sanitize_identifier namechars out id = sanitize_loop namechars (content id) out

-- `tactyk_dblock__from_c_string("lbl#")`
abbrev pub label_prefix : DBlock
label_prefix = from_c_string (b'l' ∷ b'b' ∷ b'l' ∷ b'#' ∷ [])

-- the label of tactyk_emit__add_script_label
unfoldable pub sanitized_label : (ℕ → Bool) → Block → Option Block
sanitized_label namechars raw_label =
    sanitize_identifier namechars (header_of label_prefix) raw_label

-- `namechars`, as tactyk_visa__init_emit sets it from a string of characters
unfoldable pub namechars_of : List ℕ → ℕ → Bool
namechars_of [] c = false
namechars_of (ch ∷ nchars) c = ch == c || namechars_of nchars c
