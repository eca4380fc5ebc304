-- ===== src/Emit/Operands.antt =====
-- The operators of libtactyk/tactyk_emit.c that set $VALUE and $KW from an operand.
pub mod Bytes
pub mod Quotation
pub mod Packed
mod Tests
use mathlib.Core.Option
use tactyk.Base.{
  ℕ, ◌+◌, ◌-◌, ◌*◌, ◌^◌, Bool, true, false, ◌&&◌, List, [], ◌∷◌, ◌++◌, Option, none, some, leb, ltb,
  ◌==◌, if◌then◌else◌, length, replicate, take, drop,
}
use tactyk.Dblock.Block.{Block, DBlock, null, node, Value, empty, pseudonull, block, pointer}
use tactyk.Dblock.Export.{export_cstring, c_text}
use tactyk.Dblock.Hash.{byte_at, read_le}
use tactyk.Dblock.Links.{next_of, token_of}
use tactyk.Dblock.Number.{try_parseint, try_parseuint, from_int, from_uint}
use tactyk.Dblock.Persist.{from_c_string, memcpy}
use tactyk.Dblock.Table.{Table, Key, c_string, get, header_of}
use tactyk.Emit.Machine.{
  Visa, Machine, kw, value_name, value_upper, put_var, delete_var, fetch_var, there,
}
use tactyk.Emit.Script.{Codeblock}

-- the name of the least of the four sizes of a word that holds the value
unfoldable pub keyword : ℕ → List ℕ
keyword uival =
    if leb uival 255
    then b'b' ∷ b'y' ∷ b't' ∷ b'e' ∷ []
    else if leb uival 65535
    then b'w' ∷ b'o' ∷ b'r' ∷ b'd' ∷ []
    else if leb uival 4294967295
    then b'd' ∷ b'w' ∷ b'o' ∷ b'r' ∷ b'd' ∷ []
    else b'q' ∷ b'w' ∷ b'o' ∷ b'r' ∷ b'd' ∷ []

-- what the two parsers make of a text: as a signed integer, else as an unsigned one
unfoldable pub int_value : Block → Option ℕ
int_value text = elim (try_parseint text) [ some ival ↦ some ival | none ↦ try_parseuint text ]

unfoldable pub put_keyword : Key → Option ℕ → Machine → Option (Machine × Bool)
put_keyword kwname (some uival) ctx =
    Option.map (λ c. (c, true)) (put_var kwname (block (from_c_string (keyword uival))) ctx)
put_keyword kwname none ctx =
    Option.bind (delete_var kwname ctx) (λ c. Option.map (λ c'. (c', false)) (delete_var kwname c))

unfoldable pub comprehend_int_value : DBlock → Key → Machine → Option (Machine × Bool)
comprehend_int_value null kwname ctx = Option.map (λ c. (c, false)) (delete_var kwname ctx)
comprehend_int_value (node b s next child token store) kwname ctx =
    put_keyword kwname (int_value b) ctx

-- the keyword and the value
unfoldable pub put_operand : List ℕ → DBlock → Machine → Option (Machine × Bool)
put_operand word value ctx =
    Option.bind (put_var (c_string kw) (block (from_c_string word)) ctx)
      (λ c. Option.map (λ c'. (c', true)) (put_var (c_string value_name) (block value) c))

-- A negative integer has the size of the whole word.
unfoldable pub int_operand : Machine → Option (Machine × Bool)
int_operand ctx = Option.bind (there ctx.pl_operand_resolved) (λ operand.
    elim (try_parseint (header_of operand)) [
      | none ↦ some (ctx, false)
      | some ival ↦
          put_operand
            (if leb (2 ^ 63) ival then b'q' ∷ b'w' ∷ b'o' ∷ b'r' ∷ b'd' ∷ [] else keyword ival)
            operand ctx
    ])

unfoldable pub float_operand : Visa → Machine → Option (Machine × Bool)
float_operand visa ctx = Option.bind (there ctx.pl_operand_resolved) (λ operand.
    elim (visa.try_parsedouble (header_of operand)) [
      | none ↦ some (ctx, false)
      | some ival ↦
          put_operand (b'q' ∷ b'w' ∷ b'o' ∷ b'r' ∷ b'd' ∷ []) (from_int ival)
            (record ctx { pl_operand_resolved = from_int ival })
    ])

unfoldable pub codeblock_operand : Machine → Machine × Bool
codeblock_operand ctx = elim ctx.child [ none ↦ (ctx, false) | some codeblock ↦ (ctx, true) ]

-- The text behind the first character, on that character; `none` is a refusal.
unfoldable pub quoted : Block → DBlock → Option (Option Block)
quoted raw resolved =
    let first = byte_at raw.bytes 0 in
    let last = byte_at raw.bytes (raw.length - 1) in
    let closed = record raw { length = raw.length - 1 } in
    if first == 39
    then some (some raw)
    else if first == b'`'
    then Option.map (λ operand. some (header_of operand)) (there resolved)
    else if first == b'"'
    then some (some (if last == b'"' then closed else raw))
    else some none

-- At most 16 bytes from the second on, in a buffer of zeros: `len -= 1`, and the copy.
abbrev pub string_length : Block → ℕ
string_length text = if leb (text.length - 1) 16 then text.length - 1 else 16

unfoldable pub string_buffer : Block → List ℕ
string_buffer text = memcpy (string_length text) (replicate 16 0) (drop 1 text.bytes)

-- the two halves of the buffer, and the keyword
unfoldable pub put_string : ℕ → List ℕ → Machine → Option (Machine × Bool)
put_string len buf ctx =
    let lower = from_uint (read_le 8 buf 0) in
    Option.bind (put_var (c_string value_name) (block lower) ctx) (λ c.
      Option.bind (put_var (c_string value_upper) (block (from_uint (read_le 8 buf 8))) c) (λ c'.
        let wide =
          put_var (c_string kw) (block (from_c_string (b'q' ∷ b'w' ∷ b'o' ∷ b'r' ∷ b'd' ∷ [])))
            c' in
        let narrow = Option.map (λ r. r.0) (comprehend_int_value lower (c_string kw) c') in
        Option.map (λ c''. (c'', true)) (if ltb 8 len then wide else narrow)))

-- on what the first character says
unfoldable pub put_quoted : Option Block → Machine → Option (Machine × Bool)
put_quoted none ctx = some (ctx, false)
put_quoted (some text) ctx = put_string (string_length text) (string_buffer text) ctx

-- on the raw operand; an empty one is a text of zeros
unfoldable pub pack : DBlock → Machine → Option (Machine × Bool)
pack null ctx = some (ctx, false)
pack (node raw s next child token store) ctx =
    let blank = put_string 0 (replicate 16 0) ctx in
    let given = Option.bind (quoted raw ctx.pl_operand_resolved) (λ found. put_quoted found ctx) in
    if raw.length == 0 then blank else given

unfoldable pub string_operand : Machine → Option (Machine × Bool)
string_operand ctx = pack ctx.pl_operand_raw ctx

-- A table of symbols gives a block, or nothing.
unfoldable pub put_symbol : Value → Machine → Option (Machine × Bool)
put_symbol empty ctx = some (ctx, false)
put_symbol (block entry) ctx =
    Option.bind (put_var (c_string value_name) (block entry) ctx)
      (λ c. Option.map (λ r. (r.0, true)) (comprehend_int_value entry (c_string kw) c))
put_symbol pseudonull ctx = none
put_symbol (pointer p) ctx = none

unfoldable pub symbol : Visa → DBlock → Machine → Option (Machine × Bool)
symbol visa line ctx = Option.bind (token_of line) (λ token.
    Option.bind (next_of token) (λ tbl_name. Option.bind (visa.symbol_table tbl_name) (λ tbl.
      Option.bind (there ctx.pl_operand_resolved)
        (λ operand. put_symbol (get tbl (Key.dblock operand)) ctx))))

-- The value fetched is read for its size before it is resolved.
unfoldable pub value : Visa → DBlock → Machine → Option (Machine × Bool)
value visa line ctx = Option.bind (token_of line) (λ token. Option.bind (next_of token) (λ raw.
    Option.bind (there raw) (λ operand.
      Option.bind (fetch_var visa (some (c_string value_name)) (header_of operand) ctx)
        (λ r. Option.map (λ q. (q.0, true)) (comprehend_int_value operand (c_string kw) r.0)))))

abbrev pub null_text : List ℕ
null_text = b'[' ∷ b'[' ∷ b' ' ∷ b'N' ∷ b'U' ∷ b'L' ∷ b'L' ∷ b' ' ∷ b']' ∷ b']' ∷ []

abbrev pub starts_with : List ℕ → List ℕ → Bool
starts_with buf [] = true
starts_with [] (c ∷ text) = false
starts_with (b ∷ buf) (c ∷ text) = b == c && starts_with buf text

-- strncmp of a buffer of 16 bytes with the text and its terminator
unfoldable pub null_arg : Machine → Option (Machine × Bool)
null_arg ctx = Option.bind (there ctx.pl_operand_resolved) (λ operand.
    Option.bind (export_cstring 16 (header_of operand)) (λ buf.
      let taken = Option.map (λ c. (c, true)) (put_var (c_string value_name) (block operand) ctx) in
      if starts_with buf (null_text ++ 0 ∷ []) then taken else some (ctx, false)))
