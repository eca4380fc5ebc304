-- ===== src/Emit/Labels/Tests.antt =====
-- Labels with a character that is replaced.
use mathlib.Core.Option
use tactyk.Base.{ℕ, ◌≡◌, ◌↔◌, refl, arith, Bool, [], ◌∷◌, some}
use tactyk.Dblock.Block.{Block}
use tactyk.Dblock.Hash.{update_hash}
use tactyk.Dblock.Number.{decimal}
use tactyk.Dblock.Persist.{from_c_string, memcpy}
use tactyk.Dblock.Text.{content, append, append_bytes, expand, grow, write_at, new}
use tactyk.Emit.Labels.{
  sanitized_label, sanitize_identifier, sanitize_loop, sanitized_char, namechars_of,
}
use tactyk.Emit.Labels.Distinct.{sanitized_label-injective}

abbrev letters : ℕ → Bool
letters = namechars_of (b'a' ∷ b'b' ∷ b'c' ∷ [])

abbrev dashed : Block
dashed = record (new 0) { length = 3; bytes = b'a' ∷ b'-' ∷ b'b' ∷ [] }

abbrev plain : Block
plain = record (new 0) { length = 2; bytes = b'a' ∷ b'c' ∷ [] }

sanitize_loop-dashed :
    Option.map content (sanitized_label letters dashed)
    ≡ some (b'l' ∷ b'b' ∷ b'l' ∷ b'#' ∷ b'a' ∷ b'~' ∷ b'4' ∷ b'5' ∷ b'b' ∷ [])
unfolding sanitized_label sanitize_identifier sanitize_loop sanitized_char namechars_of append
    append_bytes expand grow write_at from_c_string memcpy decimal update_hash new Option.bind
sanitize_loop-dashed = refl

sanitized_label-injective_example :
    (u v : Block) × (sanitized_label letters dashed ≡ some u)
    × (sanitized_label letters plain ≡ some v)
    × (content u ≡ content v ↔ content dashed ≡ content plain)
unfolding namechars_of
sanitized_label-injective_example =
    sanitized_label-injective letters dashed plain refl
      (omega arith, omega arith, (omega arith, omega arith, (omega arith, omega arith, tt)))
      (omega arith, omega arith, (omega arith, omega arith, tt)) (omega arith) (omega arith)
