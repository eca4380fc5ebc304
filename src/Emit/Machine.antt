-- ===== src/Emit/Machine.antt =====
-- What the operators of the virtual instruction set share, libtactyk/tactyk_emit.c: the variables of
-- struct tactyk_emit__Context and tactyk_emit__fetch_var.
-- A result `none` is the error handler's exit, a failed operation of a block or a table, or a read of
-- a NULL pointer.
use mathlib.Core.Option
use tactyk.Base.{ℕ, Bool, List, [], ◌∷◌, Option, none, some}
use tactyk.Dblock.Block.{Block, DBlock, null, node, nil, Value, block}
use tactyk.Dblock.Interpolate.{interpolate}
use tactyk.Dblock.Persist.{shallow_copy}
use tactyk.Dblock.Table.{Table, Key, put, delete}
use tactyk.Emit.Script.{Codeblock}

-- The operators that are modelled, each the function of its name in the table of operators.
pub data Operator : Type 0 where
  symbol select select_operand select_template select_kw select_kw2 flags case_of default_case :
      Operator
  contains repeat pick clear_template operand opt_operand type_of value_of code : Operator
  int_operand float_operand string_operand codeblock sub nullarg terminal composite scramble :
      Operator

-- What stays as it is while the commands are compiled. `operator_at` gives
-- the operator whose function is at an address, and `vopcfg_at` the structured text of a
-- typespec or a subroutine at its address, whose function is always tactyk_emit__ExecSubroutine;
-- `symbol_table` gives the table of symbols of a name, and `try_parsedouble` the bit pattern that the
-- C library reads from a text. `rounds` bounds the loop of composite, which has no bound in the source.
pub record Visa : Type 0 where
  pub namechars : ℕ → Bool
  pub global_vars : Table
  pub operator_table : Table
  pub operator_at : ℕ → Option Operator
  pub typespec_table : Table
  pub subroutine_table : Table
  pub vopcfg_at : ℕ → DBlock
  pub symbol_table : DBlock → Option Table
  pub use_extra_permutations : Bool
  pub rounds : ℕ
  pub try_parsedouble : Block → Option ℕ

-- What changes. `draws` is what tactyk__rand_uint64 returns in turn; `asm_code` and `child` are the fields of the active command. A NULL pointer to an
-- operand or to the selected token is `null`.
pub record Machine : Type 0 where
  pub local_vars : Table
  pub subarg_count : ℕ
  pub code_template : Block
  pub asm_code : Block
  pub child : Option Codeblock
  pub pl_operand_raw : DBlock
  pub pl_operand_resolved : DBlock
  pub select_token : DBlock
  pub is_terminal : Bool
  pub draws : List ℕ
  pub iptr : ℕ
  pub target_iptr : ℕ

abbrev pub kw : List ℕ
kw = b'$' ∷ b'K' ∷ b'W' ∷ []

abbrev pub kw2 : List ℕ
kw2 = b'$' ∷ b'K' ∷ b'W' ∷ b'2' ∷ []

abbrev pub value_name : List ℕ
value_name = b'$' ∷ b'V' ∷ b'A' ∷ b'L' ∷ b'U' ∷ b'E' ∷ []

abbrev pub value_upper : List ℕ
value_upper = b'$' ∷ b'V' ∷ b'A' ∷ b'L' ∷ b'U' ∷ b'E' ∷ b'_' ∷ b'U' ∷ b'P' ∷ b'P' ∷ b'E' ∷ b'R' ∷ []

abbrev pub raw_operand : List ℕ
raw_operand = b'$' ∷ b'R' ∷ b'A' ∷ b'W' ∷ b'_' ∷ b'O' ∷ b'P' ∷ b'E' ∷ b'R' ∷ b'A' ∷ b'N' ∷ b'D' ∷ []

abbrev pub resolved_operand : List ℕ
resolved_operand =
    b'$' ∷ b'R' ∷ b'E' ∷ b'S' ∷ b'O' ∷ b'L' ∷ b'V' ∷ b'E' ∷ b'D' ∷ b'_' ∷ b'O' ∷ b'P' ∷ b'E' ∷ b'R'
    ∷ b'A' ∷ b'N' ∷ b'D' ∷ []

abbrev pub template_selector : List ℕ
template_selector =
    b'$' ∷ b'T' ∷ b'E' ∷ b'M' ∷ b'P' ∷ b'L' ∷ b'A' ∷ b'T' ∷ b'E' ∷ b'_' ∷ b'S' ∷ b'E' ∷ b'L' ∷ b'E'
    ∷ b'C' ∷ b'T' ∷ b'O' ∷ b'R' ∷ []

-- a block of its own, behind no other
abbrev pub alone : Block → DBlock
alone b = node b nil null null null null

-- Two levels of the calls of put are enough.
unfoldable pub put_var : Key → Value → Machine → Option Machine
put_var name value ctx =
    Option.map (λ t. record ctx { local_vars = t }) (put 2 ctx.local_vars name value)

unfoldable pub delete_var : Key → Machine → Option Machine
delete_var name ctx = Option.map (λ t. record ctx { local_vars = t }) (delete 2 ctx.local_vars name)

-- `if (destination != NULL)`
unfoldable pub store_var : Option Key → DBlock → Machine → Option (Machine × DBlock)
store_var none varvalue ctx = some (ctx, varvalue)
store_var (some destination) varvalue ctx =
    Option.map (λ c. (c, varvalue)) (put_var destination (block (shallow_copy varvalue)) ctx)

unfoldable pub fetch_var : Visa → Option Key → Block → Machine → Option (Machine × DBlock)
fetch_var visa destination raw ctx =
    Option.bind (interpolate raw b'$' visa.namechars ctx.local_vars (some visa.global_vars))
      (λ varvalue. store_var destination (alone varvalue) ctx)

-- A pointer that is passed on: a read through NULL is a failure.
abbrev pub there : DBlock → Option DBlock
there null = none
there (node b s next child token store) = some (node b s next child token store)
