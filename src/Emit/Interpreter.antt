-- ===== src/Emit/Interpreter.antt =====
-- The interpreter of the virtual instruction set, libtactyk/tactyk_emit.c: subroutines, code, and the
-- table of the operators. tactyk_emit__VCode is not modelled.
-- A result `none` is as in the operators.
mod Tests
use Prim.Native.Nat.{bit_xor}
use mathlib.Core.Option
use tactyk.Base.{
  ℕ, zero, suc, ◌+◌, ◌%◌, ◌^◌, Bool, true, false, ◌&&◌, List, [], ◌∷◌, ◌++◌, Option, none, some,
  ◌==◌, if◌then◌else◌, take, leb,
}
use tactyk.Dblock.Block.{Block, DBlock, null, node, Value, empty, pseudonull, block, pointer}
use tactyk.Dblock.Export.{equals_c_string}
use tactyk.Dblock.Hash.{equals}
use tactyk.Dblock.Links.{next_of, child_of, token_of}
use tactyk.Dblock.Number.{decimal, from_uint, try_parseint}
use tactyk.Dblock.Persist.{from_c_string}
use tactyk.Dblock.Table.{Table, Key, c_string, get, header_of}
use tactyk.Dblock.Text.{new, append, append_char, clear, contains, getchar}
use tactyk.Emit.Composite.{composite}
use tactyk.Emit.Machine.{
  Visa, Machine, Operator, kw, kw2, value_name, value_upper, raw_operand, resolved_operand,
  template_selector, alone, put_var, delete_var, fetch_var, there,
}
use tactyk.Emit.Operands.{
  int_operand, float_operand, codeblock_operand, string_operand, symbol, value, null_text, null_arg,
  comprehend_int_value,
}
use tactyk.Pl.Walk.{is_there}
use tactyk.Emit.Operators.{
  Call, selected, exec_subroutine, argument, select, select_operand, select_template,
  select_variable, flags, case_of, exec_anyway, contains_one, repeat, pick, clear_template, operand,
  opt_operand, type,
}

module _ (visa : Visa) (call : Call) where
  -- the arguments of a subroutine: "$arg.%ju" in 8 bytes
  abbrev argument_name : ℕ → Key
  argument_name n = c_string (take 7 (b'$' ∷ b'a' ∷ b'r' ∷ b'g' ∷ b'.' ∷ decimal 20 n))

  unfoldable pub delete_arguments : ℕ → Machine → Option Machine
  delete_arguments zero ctx = some (record ctx { subarg_count = 0 })
  delete_arguments (suc count) ctx =
      Option.bind (delete_var (argument_name count) ctx) (delete_arguments count)

  unfoldable pub put_arguments : DBlock → Machine → Option Machine
  put_arguments null ctx = some ctx
  put_arguments (node b s next child token store) ctx =
      Option.bind (fetch_var visa (some (argument_name ctx.subarg_count)) b ctx)
        (λ r. put_arguments next (record (r.0) { subarg_count = suc ctx.subarg_count }))

  -- DoSub
  unfoldable pub sub_found : Value → DBlock → Machine → Option (Machine × Bool)
  sub_found (pointer spec) tokens ctx =
      Option.bind (delete_arguments ctx.subarg_count ctx) (λ c.
        Option.bind (put_arguments tokens c) (exec_subroutine visa call (visa.vopcfg_at spec)))
  sub_found empty tokens ctx = none
  sub_found pseudonull tokens ctx = none
  sub_found (block d) tokens ctx = none

  unfoldable pub sub : DBlock → Machine → Option (Machine × Bool)
  sub line ctx = Option.bind (Option.bind (argument visa call line) there) (λ name.
      Option.bind (next_of name)
        (λ tokens. sub_found (get visa.subroutine_table (Key.dblock name)) tokens ctx))

  -- one line of code behind a text
  abbrev code_line : Block → Block → Option Block
  code_line code text = Option.bind (append code text) (λ c. append_char c 10)

  -- The code is the command's, or the block of a variable.
  unfoldable pub append_code : Option DBlock → Block → Machine → Option Machine
  append_code none text ctx =
      Option.map (λ c. record ctx { asm_code = c }) (code_line ctx.asm_code text)
  append_code (some target_name) text ctx =
      Option.bind (selected (get ctx.local_vars (Key.dblock target_name))) (λ code.
        Option.bind (code_line (header_of code) text)
          (λ c. put_var (Key.dblock target_name) (block (alone c)) ctx))

  unfoldable pub code_lines : Option DBlock → DBlock → Machine → Option (Machine × Bool)
  code_lines target null ctx = some (ctx, true)
  code_lines target (node b s next child token store) ctx =
      Option.bind (fetch_var visa none b ctx)
        (λ (c, text). Option.bind (append_code target (header_of text) c) (code_lines target next))

  -- a variable with a new text
  abbrev new_code : DBlock → Machine → Option Machine
  new_code name ctx = put_var (Key.dblock name) (block (alone (new 16))) ctx

  unfoldable pub code_variable : DBlock → Machine → Option Machine
  code_variable name ctx =
      Option.bind (selected (get ctx.local_vars (Key.dblock name)))
        (λ found. let fresh = new_code name ctx in if is_there found then some ctx else fresh)

  -- where the code of a line goes
  unfoldable pub code_target : DBlock → Machine → Option (Option DBlock × Machine)
  code_target null ctx = some (none, ctx)
  code_target (node b s next child token store) ctx =
      let name = node b s next child token store in
      let fresh = Option.map (λ c. (some next, c)) (new_code next ctx) in
      let found = Option.map (λ c. (some name, c)) (code_variable name ctx) in
      if equals_c_string b (b'n' ∷ b'e' ∷ b'w' ∷ []) then fresh else found

  unfoldable pub code : DBlock → Machine → Option (Machine × Bool)
  code line ctx = Option.bind (argument visa call line) (λ target_name.
      Option.bind (child_of line) (λ templates.
        Option.bind (code_target target_name ctx) (λ (target, c). code_lines target templates c)))

  -- Scramble: how many values the word of an integer has
  unfoldable pub word_values : ℕ → ℕ
  word_values raw_val =
      if leb raw_val 255
      then 2 ^ 8
      else if leb raw_val 65535
      then 2 ^ 16
      else if leb raw_val 4294967295
      then 2 ^ 32
      else 2 ^ 64

  unfoldable pub put_scrambled : DBlock → ℕ → ℕ → Machine → Option Machine
  put_scrambled dest raw_val rand_val ctx =
      let size = word_values raw_val in
      let diff_val = bit_xor raw_val rand_val in
      Option.bind
        (put_var (c_string (b'$' ∷ b'S' ∷ b'C' ∷ b'_' ∷ b'R' ∷ b'A' ∷ b'N' ∷ b'D' ∷ []))
          (block (from_uint (rand_val % size))) ctx)
        (λ a.
          Option.bind
            (put_var (c_string (b'$' ∷ b'S' ∷ b'C' ∷ b'_' ∷ b'D' ∷ b'I' ∷ b'F' ∷ b'F' ∷ []))
              (block (from_uint (diff_val % size))) a)
            (λ b.
              Option.bind
                (put_var (c_string (b'$' ∷ b'S' ∷ b'C' ∷ b'_' ∷ b'D' ∷ b'E' ∷ b'S' ∷ b'T' ∷ []))
                  (block dest) b)
                (put_var
                  (c_string (b'$' ∷ b'S' ∷ b'C' ∷ b'_' ∷ b'V' ∷ b'A' ∷ b'L' ∷ b'U' ∷ b'E' ∷ []))
                  (block (from_uint raw_val)))))

  -- the subroutine that writes the code, whose result is not looked at
  unfoldable pub scramble_found : Value → Machine → Option (Machine × Bool)
  scramble_found (pointer spec) ctx = exec_anyway visa call (visa.vopcfg_at spec) ctx
  scramble_found empty ctx = none
  scramble_found pseudonull ctx = none
  scramble_found (block d) ctx = none

  -- on the draw
  unfoldable pub scramble_drawn : DBlock → ℕ → List ℕ → Machine → Option (Machine × Bool)
  scramble_drawn dest raw_val [] ctx = none
  scramble_drawn dest raw_val (rand_val ∷ draws) ctx =
      Option.bind (put_scrambled dest raw_val rand_val (record ctx { draws = draws })) (
        scramble_found (
          get visa.subroutine_table
            (c_string (b's' ∷ b'c' ∷ b'r' ∷ b'a' ∷ b'm' ∷ b'b' ∷ b'l' ∷ b'e' ∷ []))))

  -- $VALUE, or the value of the value of a token
  unfoldable pub scramble_input : DBlock → Machine → Option (Machine × DBlock)
  scramble_input null ctx = fetch_var visa none (header_of (from_c_string value_name)) ctx
  scramble_input (node b s next child token store) ctx =
      Option.bind (fetch_var visa none b ctx)
        (λ (c, input). fetch_var visa none (header_of input) c)

  unfoldable pub scramble_immediate : DBlock → Machine → Option (Machine × Bool)
  scramble_immediate line ctx = Option.bind (Option.bind (argument visa call line) there) (λ token.
      Option.bind (fetch_var visa none (header_of token) ctx) (λ (a, dest).
        Option.bind (next_of token) (λ second. Option.bind (scramble_input second a) (λ (b, input).
          Option.bind (comprehend_int_value input (c_string kw2) b) (λ r.
            elim (try_parseint (header_of input)) [
              | none ↦ some (r.0, true)
              | some raw_val ↦ scramble_drawn dest raw_val (r.0).draws r.0
            ])))))

  -- the function of each operator
  unfoldable pub operate : Call
  operate Operator.symbol line ctx = symbol visa line ctx
  operate Operator.select line ctx = select visa call line ctx
  operate Operator.select_operand line ctx = select_operand visa call line ctx
  operate Operator.select_template line ctx = select_template visa call line ctx
  operate Operator.select_kw line ctx = select_variable visa call kw line ctx
  operate Operator.select_kw2 line ctx = select_variable visa call kw2 line ctx
  operate Operator.flags line ctx = flags visa call line ctx
  operate Operator.case_of line ctx = case_of visa call line ctx
  operate Operator.default_case line ctx = exec_anyway visa call line ctx
  operate Operator.contains line ctx = contains_one visa call line ctx
  operate Operator.repeat line ctx = repeat visa call line ctx
  operate Operator.pick line ctx = pick visa call line ctx
  operate Operator.clear_template line ctx = clear_template visa call ctx
  operate Operator.operand line ctx = operand visa call line ctx
  operate Operator.opt_operand line ctx = opt_operand visa call line ctx
  operate Operator.type_of line ctx = type visa call line ctx
  operate Operator.value_of line ctx = value visa line ctx
  operate Operator.code line ctx = code line ctx
  operate Operator.int_operand line ctx = int_operand ctx
  operate Operator.float_operand line ctx = float_operand visa ctx
  operate Operator.string_operand line ctx = string_operand ctx
  operate Operator.codeblock line ctx = some (codeblock_operand ctx)
  operate Operator.sub line ctx = sub line ctx
  operate Operator.nullarg line ctx = null_arg ctx
  operate Operator.composite line ctx = composite visa call line ctx
  operate Operator.scramble line ctx = scramble_immediate line ctx
  operate Operator.terminal line ctx = some (record ctx { is_terminal = true }, true)

-- The fuel is how deep the calls of operators may be nested.
unfoldable pub call_operator : ℕ → Visa → Call
call_operator zero visa op line ctx = none
call_operator (suc fuel) visa op line ctx = operate visa (call_operator fuel visa) op line ctx
