-- ===== src/Emit/Script.antt =====
-- The script of a program in libtactyk/tactyk_emit.c: its labels, its commands and its codeblocks, as
-- tactyk_emit__add_script_label, add_script_command, push_codeblock and pop_codeblock make them.
-- A result `none` is the error handler's exit, a failed operation of a block or a table, or the use
-- of a pointer to an object in a container that would be moved.
pub mod Nesting
mod Tests
use mathlib.Core.Option
use tactyk.Base.{
  ℕ, zero, suc, ◌+◌, ◌*◌, Bool, true, false, List, [], ◌∷◌, ◌++◌, Option, none, some, leb,
  if◌then◌else◌, length,
}
use tactyk.Dblock.Block.{Block, DBlock, null, node, nil, Value, empty, pseudonull, block, pointer}
use tactyk.Dblock.Export.{export_cstring}
use tactyk.Dblock.Number.{decimal, from_uint}
use tactyk.Dblock.Persist.{from_c_string}
use tactyk.Dblock.Table.{Table, Key, get, put, header_of}
use tactyk.Dblock.Text.{new}
use tactyk.Emit.Labels.{sanitized_label}
use tactyk.Pl.Walk.{Emitter}

-- struct tactyk_emit__codeblock
pub record Codeblock : Type 0 where
  pub header_label : DBlock
  pub first_label : DBlock
  pub close_label : DBlock

-- struct tactyk_emit__script_command: `labels` is the chain of its labels, `child` is `none` where its
-- header label is NULL. `parent` and `linenumber` are never set.
pub record ScriptCommand : Type 0 where
  pub name : DBlock
  pub tokens : DBlock
  pub pl_code : DBlock
  pub labels : List DBlock
  pub asm_code : Block
  pub child : Option Codeblock

-- struct tactyk_asmvm__identifier; `class` is never set.
pub record Identifier : Type 0 where
  pub txt : List ℕ
  pub value : ℕ

-- ctx->program->functions: the names with the addresses of the identifiers, and their container.
pub record Functions : Type 0 where
  pub names : Table
  pub identifiers : List Identifier
  pub identifiers_data : ℕ
  pub element_capacity : ℕ

-- What these functions use of struct tactyk_emit__Context. `active_command` is the index of the
-- command, `active_labels` the chain of labels up to `active_labels_last`, and `codeblocks` the objects
-- of ctx->codeblocks up to `active_codeblock_index`, the innermost first.
pub record Script : Type 0 where
  pub namechars : ℕ → Bool
  pub instruction_table : Table
  pub label_table : Table
  pub labelindex_table : Table
  pub functions : Functions
  pub script_commands : List ScriptCommand
  pub active_command : Option ℕ
  pub active_labels : List DBlock
  pub next_codeblock_id : ℕ
  pub codeblocks : List Codeblock

-- TACTYK__MAX_IDENTIFIER_LENGTH, the size of struct tactyk_asmvm__identifier, and
-- TACTYK_EMIT__MAX_CODEBLOCK_NESTLEVEL
abbrev pub identifier_length : ℕ
identifier_length = 255

abbrev pub identifier_size : ℕ
identifier_size = 272

abbrev pub max_codeblock_nestlevel : ℕ
max_codeblock_nestlevel = 16

-- tactyk_dblock__make_pseudosafe, on a block of its own
abbrev pub make_pseudosafe : Block → DBlock
make_pseudosafe b = node (record b { self_managed = false; fixed = true }) nil null null null null

-- tactyk_dblock__new_managedobject on `functions`, and what is written to the identifier
unfoldable pub name_function : Functions → DBlock → ℕ → Option Functions
name_function functions raw_label index =
    let named =
      Option.bind
        (put 2 functions.names (Key.dblock raw_label)
          (pointer (functions.identifiers_data + length functions.identifiers * identifier_size)))
        (λ names.
          Option.map
            (λ txt. record functions {
              names = names;
              identifiers = functions.identifiers ++ record { txt = txt; value = index } ∷ [];
            })
            (export_cstring identifier_length (header_of raw_label))) in
    if leb functions.element_capacity (length functions.identifiers) then none else named

unfoldable pub add_script_label : Block → Script → Option Script
add_script_label raw_label ctx =
    let key = node raw_label nil null null null null in
    let index = length ctx.script_commands in
    Option.bind (sanitized_label ctx.namechars raw_label) (λ sanitized.
      Option.bind (put 2 ctx.label_table (Key.dblock key) (block (make_pseudosafe sanitized)))
        (λ label_table. Option.bind (name_function ctx.functions key index) (λ functions.
          Option.map
            (λ labelindex_table. record ctx {
              label_table = label_table;
              functions = functions;
              labelindex_table = labelindex_table;
              active_labels = ctx.active_labels ++ make_pseudosafe sanitized ∷ [];
            })
            (put 2 ctx.labelindex_table (Key.dblock key) (block (from_uint index))))))

-- Where the table has the name, the command takes the labels that wait for it.
unfoldable pub append_command : Value → DBlock → DBlock → Script → Option Script
append_command empty token line ctx = none
append_command pseudonull token line ctx = none
append_command (block d) token line ctx = none
append_command (pointer sub) token line ctx = some (record ctx {
  script_commands =
      ctx.script_commands
      ++ record {
        name = token;
        tokens = token;
        pl_code = line;
        labels = ctx.active_labels;
        asm_code = new 4096;
        child = none;
      }
        ∷ [];
  active_command = some (length ctx.script_commands);
  active_labels = [];
})

unfoldable pub add_script_command : DBlock → DBlock → Script → Option Script
add_script_command token line ctx =
    append_command (get ctx.instruction_table (Key.dblock token)) token line ctx

-- `snprintf(lbl, 64, "codeblock_header#%ju", ...)` and its like: 64 bytes are enough.
abbrev pub codeblock_label : List ℕ → ℕ → DBlock
codeblock_label kind id = from_c_string (
    b'c' ∷ b'o' ∷ b'd' ∷ b'e' ∷ b'b' ∷ b'l' ∷ b'o' ∷ b'c' ∷ b'k' ∷ b'_' ∷ kind
    ++ b'#' ∷ decimal 20 id)

unfoldable pub new_codeblock : ℕ → Codeblock
new_codeblock id = record {
  header_label = codeblock_label (b'h' ∷ b'e' ∷ b'a' ∷ b'd' ∷ b'e' ∷ b'r' ∷ []) id;
  first_label = codeblock_label (b'f' ∷ b'i' ∷ b'r' ∷ b's' ∷ b't' ∷ []) id;
  close_label = codeblock_label (b'c' ∷ b'l' ∷ b'o' ∷ b's' ∷ b'e' ∷ []) id;
}

-- `ctx->active_command->child = *codeblock`
unfoldable pub set_child : List ScriptCommand → ℕ → Codeblock → List ScriptCommand
set_child [] k codeblock = []
set_child (cmd ∷ commands) zero codeblock = record cmd { child = some codeblock } ∷ commands
set_child (cmd ∷ commands) (suc k) codeblock = cmd ∷ set_child commands k codeblock

-- below the active command
unfoldable pub open_codeblock : ℕ → Script → Option Script
open_codeblock k ctx =
    let codeblock = new_codeblock ctx.next_codeblock_id in
    let opened = record ctx {
      script_commands = set_child ctx.script_commands k codeblock;
      active_labels = ctx.active_labels ++ codeblock.first_label ∷ [];
      next_codeblock_id = suc ctx.next_codeblock_id;
      codeblocks = codeblock ∷ ctx.codeblocks;
    } in
    if leb max_codeblock_nestlevel (length ctx.codeblocks) then none else some opened

unfoldable pub open_below : Option ℕ → Script → Option Script
open_below none ctx = some ctx
open_below (some k) ctx = open_codeblock k ctx

unfoldable pub push_codeblock : Script → Option Script
push_codeblock ctx = open_below ctx.active_command ctx

unfoldable pub close_codeblock : List Codeblock → Script → Script
close_codeblock [] ctx = ctx
close_codeblock (codeblock ∷ codeblocks) ctx = record ctx {
  active_labels = ctx.active_labels ++ codeblock.close_label ∷ [];
  codeblocks = codeblocks;
}

unfoldable pub pop_codeblock : Script → Script
pop_codeblock ctx = close_codeblock ctx.codeblocks ctx

-- What tactyk_pl__load_dblock calls; the directives of the language are a parameter.
abbrev pub emitter : (ℕ → Script → DBlock → Option (Script × Bool)) → Emitter Script
emitter directive = record {
  add_script_label = add_script_label;
  add_script_command = add_script_command;
  push_codeblock = push_codeblock;
  pop_codeblock = pop_codeblock;
  run = directive;
}
