-- ===== src/Dblock/Interpolate.antt =====
-- tactyk_dblock__interpolate, libtactyk/tactyk_dblock.c: the variables in a pattern are replaced by
-- the texts that one or two tables hold under their names.
-- A result `none` is an assertion that failed in a text function, or a table value that is no block.
pub mod Expansion
pub mod Filled
mod Tests
use mathlib.Core.Option
use tactyk.Base.{ℕ, zero, suc, Bool, List, [], ◌∷◌, Option, none, some, ◌==◌, if◌then◌else◌, length}
use tactyk.Dblock.Block.{Block, DBlock, node, nil, null, Value, empty, pseudonull, block, pointer}
use tactyk.Dblock.Table.{Table, Key, get, header_of}
use tactyk.Dblock.Text.{new, append, append_char, clear, content}

-- the loop under `scan_var` over what is left of the text, with the rest after the name
unfoldable pub name_loop : (ℕ → Bool) → List ℕ → Block → Option (Block × List ℕ)
name_loop identifier_chars [] varname = some (varname, [])
name_loop identifier_chars (ch ∷ text) varname =
    let more = Option.bind (append_char varname ch) (name_loop identifier_chars text) in
    if identifier_chars ch then more else some (varname, ch ∷ text)

-- `scan_var`, with the indicator that stands first
unfoldable pub scan_var : (ℕ → Bool) → ℕ → List ℕ → Block → Option (Block × List ℕ)
scan_var identifier_chars ch text varname =
    Option.bind (clear varname)
      (λ v. Option.bind (append_char v ch) (name_loop identifier_chars text))

-- the second table is tried where the first has nothing and there is a second
abbrev pub or_alt : Value → Option Table → Key → Value
or_alt empty (some alt_vars) key = get alt_vars key
or_alt value alt_vars key = value

abbrev pub varvalue : Table → Option Table → Key → Value
varvalue main_vars alt_vars key = or_alt (get main_vars key) alt_vars key

abbrev pub key_of : Block → Key
key_of varname = Key.dblock (node varname nil null null null null)

-- the end of `write_var`
unfoldable pub write_value : Block → Block → Value → Option Block
write_value result varname empty = append result varname
write_value result varname (block d) = append result (header_of d)
write_value result varname pseudonull = none
write_value result varname (pointer p) = none

unfoldable pub write_var : Table → Option Table → Block → Block → Option Block
write_var main_vars alt_vars result varname =
    write_value result varname (varvalue main_vars alt_vars (key_of varname))

-- `scan_raw`; each round takes at least one byte of the text.
unfoldable pub scan_raw :
    ℕ → ℕ → (ℕ → Bool) → Table → Option Table → List ℕ → Block → Block → Option Block
scan_raw zero var_indicator identifier_chars main_vars alt_vars text result varname = none
scan_raw (suc fuel) var_indicator identifier_chars main_vars alt_vars [] result varname =
    some result
scan_raw (suc fuel) var_indicator identifier_chars main_vars alt_vars (ch ∷ text) result varname =
    let go = scan_raw fuel var_indicator identifier_chars main_vars alt_vars in
    let variable = Option.bind (scan_var identifier_chars ch text varname) (λ (v : Block × List ℕ).
      Option.bind (write_var main_vars alt_vars result v.0) (λ r. go v.1 r v.0)) in
    let raw = Option.bind (append_char result ch) (λ r. go text r varname) in
    if ch == var_indicator then variable else raw

unfoldable pub interpolate : Block → ℕ → (ℕ → Bool) → Table → Option Table → Option Block
interpolate pattern var_indicator identifier_chars main_vars alt_vars =
    scan_raw (suc (length (content pattern))) var_indicator identifier_chars main_vars alt_vars
      (content pattern) (new 16) (new 16)
