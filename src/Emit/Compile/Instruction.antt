-- ===== src/Emit/Compile/Instruction.antt =====
-- The code of one command.
use mathlib.Core.Bool.{true≢false}
use mathlib.Core.Path.{ap₂}
use mathlib.Core.Option.{none-ne-some, some-injective}
use tactyk.Base.{
  ℕ, suc, ◌+◌, ◌-◌, ◌*◌, ◌^◌, ◌≤◌, ◌≡◌, ◌≢◌, inl, inr, refl, sym, ap, ◌∙◌, subst, arith, Bool, true,
  false, not, ◌&&◌, List, [], ◌++◌, Option, none, some, ◌==◌, ==_iff, length, Bool-cases,
}
use tactyk.Dblock.Block.{Block, DBlock, Value}
use tactyk.Dblock.Interpolate.Expansion.{IsTextOf}
use tactyk.Dblock.Table.{Key}
use tactyk.Dblock.Text.{content}
use tactyk.Emit.Compile.{
  Compiler, Subroutine, put_child, start_instruction, number_instruction, generated, branch_to,
  insert_branch, exec_instruction, compile_command,
}
use tactyk.Emit.Machine.{Machine, put_var}
use tactyk.Emit.Script.{ScriptCommand, Codeblock}
use tactyk.Emit.Script.Nesting.{bound, mapped, taken_if, left_if}
use tactyk.Emit.Compile.Lines.{
  label_lines, number_lines, IsNumbered, number_loop-IsNumbered, put_labels-Gives,
}

-- A step that leaves the code and the numbers alone.
record Keeps (ctx ctx' : Machine) : Type 0 where
  code : ctx'.asm_code ≡ ctx.asm_code
  number : ctx'.iptr ≡ ctx.iptr
  target : ctx'.target_iptr ≡ ctx.target_iptr
  operand : ctx'.pl_operand_raw ≡ ctx.pl_operand_raw

Keeps-trans : {a b c : Machine} → Keeps a b → Keeps b c → Keeps a c
Keeps-trans k l = record {
  code = l.code ∙ k.code;
  number = l.number ∙ k.number;
  target = l.target ∙ k.target;
  operand = l.operand ∙ k.operand;
}

put_var-Keeps :
    (name : Key) (v : Value) (ctx ctx' : Machine) → put_var name v ctx ≡ some ctx' → Keeps ctx ctx'
unfolding put_var
put_var-Keeps name v ctx ctx' e =
    let (t, e', f) = mapped _ _ ctx' e in
    subst (Keeps ctx) f (record { code = refl; number = refl; target = refl; operand = refl })

put_child-Keeps :
    (child : Option Codeblock) (ctx ctx' : Machine)
    → put_child child ctx ≡ some ctx'
    → Keeps ctx ctx'
unfolding put_child
put_child-Keeps none ctx ctx' e =
    subst (Keeps ctx) (some-injective _ _ e)
      (record { code = refl; number = refl; target = refl; operand = refl })
put_child-Keeps (some child) ctx ctx' e =
    let (a, e1, f1) = bound _ _ ctx' e in
    let (b, e2, f2) = bound _ _ ctx' f1 in
    Keeps-trans (put_var-Keeps _ _ ctx a e1)
      (Keeps-trans (put_var-Keeps _ _ a b e2) (put_var-Keeps _ _ b ctx' f2))

start_instruction-Keeps :
    (tokens : DBlock) (ctx ctx' : Machine)
    → start_instruction tokens ctx ≡ some ctx'
    → Keeps (record ctx { pl_operand_raw = tokens }) ctx'
unfolding start_instruction
start_instruction-Keeps tokens ctx ctx' e =
    let (template, e1, f1) = bound _ _ ctx' e in
    let (a, e2, f2) = bound _ _ ctx' f1 in
    let k = put_var-Keeps _ _ _ a e2 in
    Keeps-trans
      (record { code = k.code; number = k.number; target = k.target; operand = k.operand })
      (put_var-Keeps _ _ a ctx' f2)

-- the numbers, and the variables behind them
number_instruction-IsNumbered :
    (ctx ctx' : Machine) (text : List ℕ)
    → IsTextOf ctx.asm_code text
    → length text + 30 * (suc ctx.target_iptr - ctx.iptr) ≤ 2 ^ 62
    → number_instruction ctx ≡ some ctx'
    → IsNumbered (suc ctx.target_iptr - ctx.iptr) text ctx ctx'
unfolding number_instruction
number_instruction-IsNumbered ctx ctx' text i fits e =
    let rounds = suc ctx.target_iptr - ctx.iptr in
    let (c, e0, n) = number_loop-IsNumbered rounds ctx text i fits in
    let (c1, e1, f1) = bound _ _ ctx' e in
    let (c2, e2, f2) = bound _ _ ctx' f1 in
    let (c3, e3, f3) = bound _ _ ctx' f2 in
    let (label, e4, f4) = bound _ _ ctx' f3 in
    let same : c ≡ c1 = some-injective _ _ (sym e0 ∙ e1) in
    let k =
      Keeps-trans (put_var-Keeps _ _ c1 c2 e2)
        (Keeps-trans (put_child-Keeps _ c2 c3 e3) (put_var-Keeps _ _ c3 ctx' f4)) in
    record {
      code =
          subst (λ b. IsTextOf b (text ++ number_lines rounds ctx.iptr))
            (ap (λ (x : Machine). x.asm_code) same ∙ sym k.code) n.code;
      reached = k.number ∙ ap (λ (x : Machine). x.iptr) (sym same) ∙ n.reached;
      operand = k.operand ∙ ap (λ (x : Machine). x.pl_operand_raw) (sym same) ∙ n.operand;
    }

-- What `generated` accepts has grown.
generated-Grown :
    (code_len : ℕ) (r : Machine × Bool) (ctx : Machine)
    → generated code_len r ≡ some ctx
    → (r.0 ≡ ctx) × (ctx.asm_code.length ≢ code_len)
unfolding generated
generated-Grown code_len (c, false) ctx e = absurd (none-ne-some _ e)
generated-Grown code_len (c, true) ctx e = elim (Bool-cases (c.asm_code.length == code_len)) [
  | inl same ↦ absurd (none-ne-some _ (taken_if _ _ _ _ same e))
  | inr other ↦
      let is = some-injective _ _ (left_if _ _ _ _ other e) in
      (
        is,
        λ h.
            true≢false
              (sym ((==_iff _ _).1 (ap (λ (x : Machine). x.asm_code.length) is ∙ h)) ∙ other),
      )
]

-- What stands behind the code of an instruction: the branch to the next one, where layouts are random,
-- the instruction ends no run and there is a subroutine for it; else nothing.
pub data Branched (compiler : Compiler) (ctx : Machine) : Machine → Type 0 where
  branch :
      {ctx' : Machine} (vopcfg : DBlock) (result : Bool)
      → compiler.use_executable_layout_randomization ≡ true
      → ctx.is_terminal ≡ false
      → compiler.next_instruction ≡ some vopcfg
      → compiler.exec vopcfg ctx ≡ some (ctx', result)
      → Branched compiler ctx ctx'
  through :
      (compiler.use_executable_layout_randomization ≡ true
        → ctx.is_terminal ≡ false
        → compiler.next_instruction ≡ none)
      → Branched compiler ctx ctx

-- The code of a command, and the first number that is not put behind it: the interpreter is called on
-- the tokens of the command where the code is the lines of the labels, then those of the numbers from
-- `next` to `i`; it returns true and has changed the length of the code.
pub record IsCompiled (compiler : Compiler) (vopcfg tokens : DBlock) (labels : List DBlock)
    (next i : ℕ) (asm_code : Block) (next' : ℕ) : Type 0 where
  pub before : Machine
  pub operand : before.pl_operand_raw ≡ tokens
  pub text : content before.asm_code ≡ label_lines labels ++ number_lines (suc i - next) next
  pub number : before.iptr ≡ suc i - next + next
  pub after : Machine
  pub runs : compiler.exec vopcfg before ≡ some (after, true)
  pub grown : after.asm_code.length ≢ before.asm_code.length
  pub last : Machine
  pub branched : Branched compiler after last
  pub code : last.asm_code ≡ asm_code
  pub reached : last.iptr ≡ next'

both : (a b : Bool) → (a && not b) ≡ true → (a ≡ true) × (b ≡ false)
both a b e = (ground arith, ground arith)

branch_to-Branched :
    (compiler : Compiler) (target : Option DBlock) (ctx ctx' : Machine)
    → compiler.next_instruction ≡ target
    → branch_to compiler target ctx ≡ some ctx'
    → Branched compiler ctx ctx'
unfolding branch_to
branch_to-Branched compiler none ctx ctx' is e =
    subst (Branched compiler ctx) (some-injective _ _ e) (through (λ a b. is))
branch_to-Branched compiler (some vopcfg) ctx ctx' is e =
    elim (Bool-cases (compiler.use_executable_layout_randomization && not ctx.is_terminal)) [
      | inl taken ↦
          let ((c, result), e', f) = mapped _ _ ctx' (taken_if _ _ _ _ taken e) in
          let (random, more) = both _ _ taken in
          subst (Branched compiler ctx) f (branch vopcfg result random more is e')
      | inr left ↦
          subst (Branched compiler ctx) (some-injective _ _ (left_if _ _ _ _ left e))
            (through (λ a b. absurd (not_both _ _ a b left)))
    ]
  where
    not_both : (a b : Bool) → a ≡ true → b ≡ false → (a && not b) ≢ false
    not_both a b e f g = ground arith

-- The interpreter has returned true, where `generated` accepts its result.
generated-true :
    (code_len : ℕ) (c : Machine) (result : Bool) (ctx : Machine)
    → generated code_len (c, result) ≡ some ctx
    → result ≡ true
unfolding generated
generated-true code_len c true ctx e = refl
generated-true code_len c false ctx e = absurd (none-ne-some _ e)

exec_instruction-IsCompiled :
    (compiler : Compiler) (vopcfg tokens : DBlock) (labels : List DBlock) (ctx ctx' : Machine)
    → IsTextOf ctx.asm_code (label_lines labels)
    → length (label_lines labels) + 30 * (suc ctx.target_iptr - ctx.iptr) ≤ 2 ^ 62
    → exec_instruction compiler vopcfg tokens ctx ≡ some ctx'
    → IsCompiled compiler vopcfg tokens labels ctx.iptr ctx.target_iptr ctx'.asm_code ctx'.iptr
unfolding exec_instruction insert_branch
exec_instruction-IsCompiled compiler vopcfg tokens labels ctx ctx' i fits e =
    let (a, e1, f1) = bound _ _ ctx' e in
    let (b, e2, f2) = bound _ _ ctx' f1 in
    let ((c, result), e3, f3) = bound _ _ ctx' f2 in
    let (d, e4, f4) = bound _ _ ctx' f3 in
    let (d', e5, f5) = mapped _ _ ctx' f4 in
    let k = start_instruction-Keeps tokens ctx a e1 in
    let text = label_lines labels in
    let (same, other) = generated-Grown b.asm_code.length (c, result) d e4 in
    let n =
      number_instruction-IsNumbered a b text (subst (λ x. IsTextOf x text) (sym k.code) i)
        (subst (λ (t : ℕ). length text + 30 * (suc t - a.iptr) ≤ 2 ^ 62) (sym k.target)
          (subst (λ (n : ℕ). length text + 30 * (suc ctx.target_iptr - n) ≤ 2 ^ 62) (sym k.number)
            fits))
        e2 in
    record {
      before = b;
      operand = n.operand ∙ k.operand;
      text =
          n.code.content_lem
          ∙ ap₂ (λ (t : ℕ) (m : ℕ). text ++ number_lines (suc t - m) m) k.target k.number;
      number = n.reached ∙ ap₂ (λ (t : ℕ) (m : ℕ). suc t - m + m) k.target k.number;
      after = d;
      runs =
          e3 ∙ ap₂ (λ (x : Machine) (r : Bool). some (x, r)) same (generated-true _ c result d e4);
      grown = other;
      last = d';
      branched = branch_to-Branched compiler compiler.next_instruction d d' refl e5;
      code = ap (λ (x : Machine). x.asm_code) f5;
      reached = ap (λ (x : Machine). x.iptr) f5;
    }

-- One command that is not skipped.
pub compile_command-IsCompiled :
    (compiler : Compiler) (sub : Subroutine) (i : ℕ) (labels : List DBlock) (cmd : ScriptCommand)
    (ctx ctx' : Machine)
    → IsTextOf cmd.asm_code []
    → length (label_lines labels) + 30 * suc i ≤ 2 ^ 62
    → compile_command compiler sub i labels cmd ctx ≡ some ctx'
    → IsCompiled compiler sub.vopcfg cmd.tokens labels ctx.iptr i ctx'.asm_code ctx'.iptr
unfolding compile_command
compile_command-IsCompiled compiler sub i labels cmd ctx ctx' blank fits e =
    let (b, e', t) = put_labels-Gives labels cmd.asm_code [] blank (omega (arith, fits)) in
    let (asm_code, g, h) = bound _ _ ctx' e in
    let same : b ≡ asm_code = some-injective _ _ (sym e' ∙ g) in
    exec_instruction-IsCompiled compiler sub.vopcfg cmd.tokens labels
      (record ctx { target_iptr = i; asm_code = asm_code; child = cmd.child }) ctx'
      (subst (λ x. IsTextOf x (label_lines labels)) same t) (omega (arith, fits)) h
