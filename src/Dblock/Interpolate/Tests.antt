-- ===== src/Dblock/Interpolate/Tests.antt =====
-- A pattern with two names, one of which a table holds.
use tactyk.Base.{ℕ, Bool, true, ◌&&◌, List, [], ◌∷◌, Option, none, some, leb, if◌then◌else◌, length}
use tactyk.Dblock.Block.{Block, DBlock, block}
use tactyk.Dblock.Hash.{equals}
use tactyk.Dblock.Persist.{from_c_string, set_persistence_code}
use tactyk.Dblock.Table.{Table, Key, c_string, put, new_table, key_block, header_of}
use tactyk.Dblock.Text.{new, content}

abbrev is_letter : ℕ → Bool
is_letter c = leb b'a' c && leb c b'z'

-- "$x+$y"
abbrev sum_pattern : Block
sum_pattern = record (new 0) {
  length = 5;
  bytes = b'$' ∷ b'x' ∷ b'+' ∷ b'$' ∷ b'y' ∷ [];
  fixed = true;
}

abbrev x_name : Key
x_name = c_string (b'$' ∷ b'x' ∷ [])

-- "12"
abbrev x_text : DBlock
x_text = from_c_string (b'1' ∷ b'2' ∷ [])

abbrev x_lookup : List ℕ → List ℕ
x_lookup name =
    if equals (key_block x_name) (key_block (c_string name))
    then content (header_of (set_persistence_code 0 x_text))
    else name

abbrev table_or : Table → Option Table → Table
table_or t none = t
table_or t (some t') = t'

-- the table with that one entry
abbrev x_table : Table
x_table = table_or (new_table 2) (put 2 (new_table 2) x_name (block x_text))
