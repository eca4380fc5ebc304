-- ===== src/Emit/Operators.antt =====
-- The interpreter of the virtual instruction set, libtactyk/tactyk_emit.c: tactyk_emit__ExecSubroutine
-- and ExecSelector, which run the lines of a structured text, and the operators that they run.
-- A result `none` is the error handler's exit, a failed operation of a block or a table, a read of a
-- NULL pointer, an operator that is not modelled, or more nested calls than the fuel allows.
use mathlib.Core.Option
use tactyk.Base.{
  ℕ, zero, suc, Bool, true, false, ◌&&◌, List, Option, none, some, ◌==◌, if◌then◌else◌,
}
use tactyk.Dblock.Block.{Block, DBlock, null, node, Value, empty, pseudonull, block, pointer}
use tactyk.Dblock.Hash.{equals}
use tactyk.Dblock.Links.{next_of, child_of, token_of}
use tactyk.Dblock.Number.{try_parseuint}
use tactyk.Dblock.Persist.{from_c_string}
use tactyk.Dblock.Table.{Key, c_string, get, header_of}
use tactyk.Dblock.Text.{append, clear, contains, getchar}
use tactyk.Emit.Machine.{
  Visa, Machine, Operator, kw, value_name, value_upper, raw_operand, resolved_operand,
  template_selector, alone, put_var, delete_var, fetch_var, there,
}
use tactyk.Emit.Operands.{null_text}
use tactyk.Pl.Walk.{is_there}

-- a call of an operator on its line
abbrev pub Call : Type 0
Call = Operator → DBlock → Machine → Option (Machine × Bool)

-- The table's block of the template is the template itself.
unfoldable pub set_template : Block → Machine → Option Machine
set_template template ctx =
    put_var (c_string template_selector) (block (alone template))
      (record ctx { code_template = template })

abbrev pub null_block : DBlock
null_block = from_c_string null_text

abbrev pub or_null_text : DBlock → DBlock
or_null_text null = null_block
or_null_text (node b s next child token store) = node b s next child token store

-- a variable that is selected, or NULL
abbrev pub selected : Value → Option DBlock
selected empty = some null
selected (block d) = some d
selected pseudonull = none
selected (pointer p) = none

module _ (visa : Visa) (call : Call) where
  unfoldable pub call_at : ℕ → DBlock → Machine → Option (Machine × Bool)
  call_at func line ctx = Option.bind (visa.operator_at func) (λ op. call op line ctx)

  -- a line with an unknown first token: an assignment, or a warning
  unfoldable pub assign : DBlock → Machine → Option Machine
  assign null ctx = none
  assign (node b s next child token store) ctx =
      let assigned =
        Option.map (λ r. r.0)
          (fetch_var visa (some (Key.dblock (node b s next child token store))) (header_of next)
            ctx) in
      if getchar b 0 == b'$' && is_there next then assigned else some ctx

  -- on what the table of operators has
  unfoldable pub run_found : Value → DBlock → Machine → Option (Machine × Bool)
  run_found (pointer func) line ctx = call_at func line ctx
  run_found empty line ctx =
      Option.bind (token_of line) (λ name. Option.map (λ c. (c, true)) (assign name ctx))
  run_found pseudonull line ctx = none
  run_found (block d) line ctx = none

  unfoldable pub exec_lines : DBlock → Machine → Option (Machine × Bool)
  exec_lines null ctx = some (ctx, true)
  exec_lines (node b s next child token store) ctx =
      Option.bind
        (run_found (get visa.operator_table (Key.dblock token)) (node b s next child token store)
          ctx)
        (λ (c, result). let rest = exec_lines next c in if result then rest else some (c, false))

  unfoldable pub exec_subroutine : DBlock → Machine → Option (Machine × Bool)
  exec_subroutine line ctx = Option.bind (child_of line) (λ child. exec_lines child ctx)

  -- the lines of an operator whose result is not looked at
  unfoldable pub exec_anyway : DBlock → Machine → Option (Machine × Bool)
  exec_anyway line ctx = Option.map (λ r. (r.0, true)) (exec_subroutine line ctx)

  unfoldable pub match_found : Value → DBlock → Machine → Option (Machine × Bool)
  match_found (pointer func) line ctx = call_at func line ctx
  match_found empty line ctx = none
  match_found pseudonull line ctx = none
  match_found (block d) line ctx = none

  -- ExecSelector: up to the first line that accepts
  unfoldable pub select_lines : DBlock → Machine → Option (Machine × Bool)
  select_lines null ctx = some (ctx, false)
  select_lines (node b s next child token store) ctx =
      Option.bind
        (match_found (get visa.operator_table (Key.dblock token)) (node b s next child token store)
          ctx)
        (λ (c, result). let rest = select_lines next c in if result then some (c, true) else rest)

  unfoldable pub exec_selector : DBlock → DBlock → Machine → Option (Machine × Bool)
  exec_selector select_token line ctx =
      Option.bind (child_of line)
        (λ child. select_lines child (record ctx { select_token = select_token }))

  -- Flags: all lines
  unfoldable pub flag_lines : DBlock → Machine → Option Machine
  flag_lines null ctx = some ctx
  flag_lines (node b s next child token store) ctx =
      Option.bind
        (match_found (get visa.operator_table (Key.dblock token)) (node b s next child token store)
          ctx)
        (λ r. flag_lines next r.0)

  unfoldable pub flags : DBlock → Machine → Option (Machine × Bool)
  flags line ctx = Option.bind (child_of line) (λ child.
      Option.map (λ c. (c, true))
        (flag_lines child (record ctx { select_token = ctx.pl_operand_resolved })))

  -- the first argument of a line, which may be NULL
  abbrev pub argument : DBlock → Option DBlock
  argument line = Option.bind (token_of line) next_of

  unfoldable pub select : DBlock → Machine → Option (Machine × Bool)
  select line ctx = Option.bind (Option.bind (argument line) there) (λ raw.
      Option.bind (fetch_var visa none (header_of raw) ctx)
        (λ (c, token). exec_selector token line c))

  unfoldable pub select_operand : DBlock → Machine → Option (Machine × Bool)
  select_operand line ctx = exec_selector (or_null_text ctx.pl_operand_raw) line ctx

  unfoldable pub select_template : DBlock → Machine → Option (Machine × Bool)
  select_template line ctx = exec_selector (alone ctx.code_template) line ctx

  -- SelectKeyword and SelectKeyword2
  unfoldable pub select_variable : List ℕ → DBlock → Machine → Option (Machine × Bool)
  select_variable name line ctx =
      Option.bind (selected (get ctx.local_vars (c_string name)))
        (λ token. exec_selector token line ctx)

  -- Case and Contains: one of the tokens passes the test
  unfoldable pub any_token : (Block → Bool) → DBlock → Bool
  any_token test null = false
  any_token test (node b s next child token store) =
      let rest = any_token test next in if test b then true else rest

  unfoldable pub guarded : (Block → Block → Bool) → DBlock → Machine → Option (Machine × Bool)
  guarded test line ctx = Option.bind (argument line) (λ tokens.
      let accepted = exec_anyway line ctx in
      let tested = Option.bind (there ctx.select_token) (λ token.
        if any_token (test (header_of token)) tokens then accepted else some (ctx, false)) in
      if is_there tokens then tested else some (ctx, false))

  unfoldable pub case_of : DBlock → Machine → Option (Machine × Bool)
  case_of line ctx = guarded (λ token text. equals text token) line ctx

  unfoldable pub contains_one : DBlock → Machine → Option (Machine × Bool)
  contains_one line ctx = guarded (λ token text. contains token text) line ctx

  unfoldable pub repeat_lines : ℕ → DBlock → Machine → Option (Machine × Bool)
  repeat_lines zero line ctx = some (ctx, true)
  repeat_lines (suc amount) line ctx = Option.bind (exec_subroutine line ctx) (λ (c, result).
      let rest = repeat_lines amount line c in if result then rest else some (c, false))

  unfoldable pub repeat_amount : DBlock → DBlock → Machine → Option (Machine × Bool)
  repeat_amount null line ctx = some (ctx, false)
  repeat_amount (node b s next child token store) line ctx =
      Option.bind (fetch_var visa none b ctx) (λ (c, resolved).
        elim (try_parseuint (header_of resolved)) [
          | none ↦ some (c, false)
          | some amount ↦ repeat_lines amount line c
        ])

  unfoldable pub repeat : DBlock → Machine → Option (Machine × Bool)
  repeat line ctx = Option.bind (argument line) (λ token. repeat_amount token line ctx)

  unfoldable pub pick : DBlock → Machine → Option (Machine × Bool)
  pick line ctx = Option.bind (Option.bind (argument line) there) (λ text.
      Option.bind (append ctx.code_template (header_of text))
        (λ template. Option.map (λ c. (c, true)) (set_template template ctx)))

  unfoldable pub clear_template : Machine → Option (Machine × Bool)
  clear_template ctx =
      Option.bind (clear ctx.code_template)
        (λ template. Option.map (λ c. (c, true)) (set_template template ctx))

  -- the next operand: the variable $RESOLVED_OPERAND gets the raw operand
  unfoldable pub take_operand : DBlock → Machine → Option Machine
  take_operand null ctx =
      put_var (c_string raw_operand) (block null_block)
        (record ctx { pl_operand_raw = null; pl_operand_resolved = null_block })
  take_operand (node b s next child token store) ctx =
      let raw = node b s next child token store in
      Option.bind (fetch_var visa none b ctx) (λ (c, resolved).
        Option.bind
          (put_var (c_string raw_operand) (block raw)
            (record c { pl_operand_raw = raw; pl_operand_resolved = resolved }))
          (put_var (c_string resolved_operand) (block raw)))

  unfoldable pub forget_values : Machine → Option Machine
  forget_values ctx =
      Option.bind (delete_var (c_string kw) ctx)
        (λ c. Option.bind (delete_var (c_string value_name) c) (delete_var (c_string value_upper)))

  -- Operand__impl; a token behind the name of the operator is an error
  unfoldable pub operand : DBlock → Machine → Option (Machine × Bool)
  operand line ctx = Option.bind (argument line) (λ alt.
      let next_operand = Option.bind (next_of ctx.pl_operand_raw) (λ raw.
        Option.bind (take_operand raw ctx)
          (λ c. Option.bind (forget_values c) (exec_subroutine line))) in
      if is_there alt then none else next_operand)

  -- A failure puts the raw operand back.
  unfoldable pub opt_operand : DBlock → Machine → Option (Machine × Bool)
  opt_operand line ctx =
      Option.map
        (λ r. (if r.1 then r.0 else record (r.0) { pl_operand_raw = ctx.pl_operand_raw }, true))
        (operand line ctx)

  -- Type: up to the first type that accepts
  unfoldable pub type_found : Value → Machine → Option (Machine × Bool)
  type_found (pointer spec) ctx = exec_subroutine (visa.vopcfg_at spec) ctx
  type_found empty ctx = none
  type_found pseudonull ctx = none
  type_found (block d) ctx = none

  unfoldable pub type_tokens : DBlock → Machine → Option (Machine × Bool)
  type_tokens null ctx = some (ctx, false)
  type_tokens (node b s next child token store) ctx =
      Option.bind
        (type_found (get visa.typespec_table (Key.dblock (node b s next child token store))) ctx)
        (λ (c, result). let rest = type_tokens next c in if result then some (c, true) else rest)

  unfoldable pub type : DBlock → Machine → Option (Machine × Bool)
  type line ctx = Option.bind (argument line) (λ token. type_tokens token ctx)
