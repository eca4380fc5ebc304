-- ===== src/Pl/Walk.antt =====
-- tactyk_pl__load_dblock, libtactyk/tactyk_pl.c: the walk over the lines of a program, which runs a
-- directive or emits a label and a command for each line and a codeblock for the lines below it.
-- A result `none` is an operation that failed, a read of a NULL pointer, or a write past the end of
-- the stack of lines.
pub mod Visits
mod Tests
use mathlib.Core.Option
use tactyk.Base.{
  ℕ, zero, suc, ◌+◌, ◌-◌, Bool, true, false, not, ◌&&◌, List, [], ◌∷◌, Option, none, some, leb,
  ◌==◌, if◌then◌else◌, length,
}
use tactyk.Dblock.Block.{Block, DBlock, null, node, Value, empty, pseudonull, block, pointer}
use tactyk.Dblock.Hash.{update_hash}
use tactyk.Dblock.Table.{Table, Key, get}
use tactyk.Dblock.Text.{lastchar}

-- What the walk calls on the context: the emitter's operations, and the directives by address. A
-- directive returns whether the lines below its line are its own.
pub record Emitter {ℓ} (C : Type ℓ) : Type ℓ where
  pub add_script_label : Block → C → Option C
  pub add_script_command : DBlock → DBlock → C → Option C
  pub push_codeblock : C → Option C
  pub pop_codeblock : C → C
  pub run : ℕ → C → DBlock → Option (C × Bool)

-- `tok->length -= 1`, with the hash code
abbrev pub without_colon : Block → Block
without_colon tok = update_hash (record tok { length = tok.length - 1 })

abbrev pub stack_size : ℕ
stack_size = 256

abbrev pub is_there : DBlock → Bool
is_there null = false
is_there (node b s next child token store) = true

module _ {ℓ} {C : Type ℓ} (emit : Emitter C) where
  -- `if (tok != NULL)`
  unfoldable pub command : DBlock → DBlock → C → Option (C × Bool)
  command null line c = some (c, false)
  command (node b s next child token store) line c =
      Option.map (λ c'. (c', false))
        (emit.add_script_command (node b s next child token store) line c)

  -- a line whose first token is no directive; the label's token is shortened in its place
  unfoldable pub script_line : DBlock → C → Option (C × Bool)
  script_line null c = none
  script_line (node b s next child null store) c = none
  script_line (node b s next child (node tb ts tn tc tt' tst) store) c =
      let labelled =
        Option.bind (emit.add_script_label (without_colon tb) c)
          (command tn (node b s next child (node (without_colon tb) ts tn tc tt' tst) store)) in
      let plain =
        command (node tb ts tn tc tt' tst) (node b s next child (node tb ts tn tc tt' tst) store)
          c in
      if lastchar tb == b':' then labelled else plain

  -- on what the table of directives has for the first token
  unfoldable pub handle_found : Value → DBlock → C → Option (C × Bool)
  handle_found empty line c = script_line line c
  handle_found (pointer func) line c = emit.run func c line
  handle_found pseudonull line c = none
  handle_found (block d) line c = none

  -- `handle_dbcode`
  unfoldable pub handle_dbcode : Table → DBlock → C → Option (C × Bool)
  handle_dbcode tkpl_funcs null c = none
  handle_dbcode tkpl_funcs (node b s next child token store) c =
      let found =
        handle_found (get tkpl_funcs (Key.dblock token)) (node b s next child token store) c in
      if is_there token then found else none

module _ {ℓ} {C : Type ℓ} (handle : DBlock → C → Option (C × Bool)) (push : C → Option C)
    (pop : C → C) where
  -- the inner loop: back to the nearest line above that has a peer behind it
  unfoldable pub unwind : (List DBlock → DBlock → C → Option C) → List DBlock → C → Option C
  unwind go [] c = some c
  unwind go (null ∷ stack) c = none
  unwind go (node b s null child token store ∷ stack) c = unwind go stack (pop c)
  unwind go (node b s (node b' s' n' c' t' st') child token store ∷ stack) c =
      go stack (node b' s' n' c' t' st') (pop c)

  -- what follows on a line that was handled: a level down, to the next line, or back
  unfoldable pub advance :
      (List DBlock → DBlock → C → Option C) → List DBlock → DBlock → C × Bool → Option C
  advance go stack null r = none
  advance go stack (node b s next child token store) (c, escape_block) =
      let down =
        if leb stack_size (length stack)
        then none
        else Option.bind (push c) (go (node b s next child token store ∷ stack) child) in
      let onward = go stack next c in
      let back = unwind go stack c in
      if not escape_block && is_there child then down else if is_there next then onward else back

  -- the outer loop; each round handles a line
  unfoldable pub walk : ℕ → List DBlock → DBlock → C → Option C
  walk zero stack dbcode c = none
  walk (suc fuel) stack null c = some c
  walk (suc fuel) stack (node b s next child token store) c =
      Option.bind (handle (node b s next child token store) c)
        (advance (walk fuel) stack (node b s next child token store))

-- as many rounds as there are lines
abbrev pub lines_of : DBlock → ℕ
lines_of null = 0
lines_of (node b s next child token store) = suc (lines_of child + lines_of next)

-- without aliases
unfoldable pub load_dblock {ℓ} : {C : Type ℓ} → Emitter C → Table → DBlock → C → Option C
load_dblock emit tkpl_funcs dbcode c =
    walk (handle_dbcode emit tkpl_funcs) emit.push_codeblock emit.pop_codeblock
      (suc (lines_of dbcode)) [] dbcode c
