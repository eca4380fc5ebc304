-- ===== src/Emit/Script/Tests.antt =====
-- A program of a labelled line with a line below it, and a directive behind it.
use mathlib.Core.Option
use tactyk.Base.{ℕ, ◌≡◌, refl, Bool, false, List, [], ◌∷◌, Option, none, some}
use tactyk.Dblock.Block.{DBlock, null, node, nil, pointer}
use tactyk.Dblock.Hash.{update_hash, equals, same_loop, hash_bytes, hash_loop, hash_step, scramble}
use tactyk.Dblock.Number.{decimal, from_uint}
use tactyk.Dblock.Persist.{from_c_string, memcpy, mark_value, set_persistence_code, shallow_copy}
use tactyk.Dblock.Export.{export_cstring, export_amount}
use tactyk.Dblock.Table.{
  Table, c_string, get, put, put_found, store, new_table, new_slots, table_find, probe, scan,
  value_at, key_at, set_slot, set_value, stored_key, from_string_or_dblock, header_of,
  rebuild_table, reinsert,
}
use tactyk.Dblock.Text.{new, content, lastchar, append, append_bytes, expand, grow, write_at}
use tactyk.Dblock.Tokens.{memchr}
use tactyk.Emit.Labels.{
  sanitized_label, sanitize_identifier, sanitize_loop, sanitized_char, namechars_of,
}
use tactyk.Emit.Script.{
  Script, emitter, add_script_label, name_function, append_command, add_script_command,
  new_codeblock, set_child, open_codeblock, open_below, push_codeblock, close_codeblock,
  pop_codeblock,
}
use tactyk.Emit.Script.Nesting.{labels_of, command_labels}
use tactyk.Pl.Walk.{
  load_dblock, handle_dbcode, handle_found, script_line, command, walk, advance, unwind,
}
use tactyk.Util.Pow2.{next_pow2}

abbrev token_of : ℕ → ℕ → DBlock → DBlock
token_of a b next = node (header_of (from_c_string (a ∷ b ∷ []))) nil next null null null

-- "m: go" with the line "up" below it, and the directive "xx" behind it
abbrev program : DBlock
program =
    node (new 0) nil (node (new 0) nil null null (token_of b'x' b'x' null) null)
      (node (new 0) nil null null (token_of b'u' b'p' null) null)
      (token_of b'm' b':' (token_of b'g' b'o' null)) null

abbrev or_new : Option Table → Table
or_new none = new_table 1
or_new (some t) = t

abbrev instructions : Table
instructions = or_new (
    Option.bind (put 2 (new_table 4) (c_string (b'g' ∷ b'o' ∷ [])) (pointer 1))
      (λ t. put 2 t (c_string (b'u' ∷ b'p' ∷ [])) (pointer 2)))

abbrev start : Script
start = record {
  namechars = namechars_of (b'm' ∷ []);
  instruction_table = instructions;
  label_table = new_table 4;
  labelindex_table = new_table 4;
  functions = record {
    names = new_table 4;
    identifiers = [];
    identifiers_data = 4096;
    element_capacity = 4;
  };
  script_commands = [];
  active_command = none;
  active_labels = [];
  next_codeblock_id = 0;
  codeblocks = [];
}

-- A directive that adds the command "go".
abbrev get_go : ℕ → Script → DBlock → Option (Script × Bool)
get_go func ctx line =
    Option.map (λ s. (s, false)) (add_script_command (token_of b'g' b'o' null) line ctx)

-- the directive "xx"
abbrev directives : Table
directives = or_new (put 2 (new_table 1) (c_string (b'x' ∷ b'x' ∷ [])) (pointer 3))

abbrev loaded : Option Script
loaded = load_dblock (emitter get_go) directives program start

abbrev or_start : Option Script → Script
or_start none = start
or_start (some s) = s

abbrev names : List DBlock → List (List ℕ)
names [] = []
names (label ∷ labels) = content (header_of label) ∷ names labels

-- The labels in order: of the line, and of the codeblock behind it.
load_dblock-labels :
    Option.map (λ (s : Script). names (labels_of s)) loaded
    ≡ some (
        (b'l' ∷ b'b' ∷ b'l' ∷ b'#' ∷ b'm' ∷ [])
        ∷ content (header_of (new_codeblock 0).first_label)
        ∷ content (header_of (new_codeblock 0).close_label)
        ∷ [])
unfolding command_labels load_dblock walk advance unwind handle_dbcode handle_found script_line
    command lastchar get put put_found store table_find probe scan value_at key_at new_table
    new_slots next_pow2 new update_hash equals same_loop hash_bytes hash_loop hash_step scramble
    from_string_or_dblock set_slot set_value stored_key rebuild_table reinsert sanitized_label
    sanitize_identifier sanitize_loop sanitized_char namechars_of append append_bytes expand grow
    write_at from_c_string memcpy mark_value set_persistence_code shallow_copy export_cstring
    export_amount decimal from_uint add_script_label name_function append_command add_script_command
    new_codeblock set_child open_codeblock open_below push_codeblock close_codeblock pop_codeblock
    memchr Option.bind
load_dblock-labels = refl
