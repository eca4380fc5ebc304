-- ===== src/Pl/Walk/Tests.antt =====
-- A program of two lines, one below the other, with an emitter that lists what it is asked for.
use mathlib.Core.Option
use tactyk.Base.{ℕ, ◌≡◌, refl, List, [], ◌∷◌, ◌++◌, none, some}
use tactyk.Dblock.Block.{DBlock, null, node, nil}
use tactyk.Dblock.Hash.{update_hash, equals, same_loop, hash_bytes, hash_loop, hash_step, scramble}
use tactyk.Dblock.Table.{
  get, new_table, new_slots, table_find, probe, scan, value_at, key_at, from_string_or_dblock,
  header_of,
}
use tactyk.Dblock.Text.{new, content, lastchar}
use tactyk.Pl.Walk.{
  Emitter, load_dblock, handle_dbcode, handle_found, script_line, command, walk, advance, unwind,
  stack_size,
}
use tactyk.Pl.Walk.Visits.{visit, load_dblock-visit}
use tactyk.Util.Pow2.{next_pow2}

data Event : Type 0 where
  label : List ℕ → Event
  cmd : List ℕ → Event
  open_block : Event
  close_block : Event

abbrev lister : Emitter (List Event)
lister = record {
  add_script_label = λ tok c. some (c ++ label (content tok) ∷ []);
  add_script_command = λ tok line c. some (c ++ cmd (content (header_of tok)) ∷ []);
  push_codeblock = λ c. some (c ++ open_block ∷ []);
  pop_codeblock = λ c. c ++ close_block ∷ [];
  run = λ p c line. none;
}

abbrev token_of : ℕ → ℕ → DBlock → DBlock
token_of a b next = node (record (new 0) { length = 2; bytes = a ∷ b ∷ [] }) nil next null null null

-- "m: go" with the line "up" below it, and the line "do" behind it
abbrev program : DBlock
program =
    node (new 0) nil (node (new 0) nil null null (token_of b'd' b'o' null) null)
      (node (new 0) nil null null (token_of b'u' b'p' null) null)
      (token_of b'm' b':' (token_of b'g' b'o' null)) null

load_dblock-program :
    load_dblock lister (new_table 1) program []
    ≡ some (
        label (b'm' ∷ [])
        ∷ cmd (b'g' ∷ b'o' ∷ [])
        ∷ open_block
        ∷ cmd (b'u' ∷ b'p' ∷ [])
        ∷ close_block
        ∷ cmd (b'd' ∷ b'o' ∷ [])
        ∷ [])
unfolding load_dblock walk advance unwind handle_dbcode handle_found script_line command lastchar
    get table_find probe scan value_at key_at new_table new_slots next_pow2 new update_hash equals
    same_loop hash_bytes hash_loop hash_step scramble from_string_or_dblock Option.bind
load_dblock-program = refl

load_dblock-visit_example :
    load_dblock lister (new_table 1) program []
    ≡ visit
        (handle_dbcode lister (new_table 1))
        (λ c. some (c ++ open_block ∷ []))
        (λ c. c ++ close_block ∷ [])
        program
        stack_size
        []
load_dblock-visit_example = load_dblock-visit lister (new_table 1) program []
