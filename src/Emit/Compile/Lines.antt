-- ===== src/Emit/Compile/Lines.antt =====
-- The lines of the labels and of the numbers in the code of a command.
use mathlib.Core.Option
use mathlib.Core.Option.{none-ne-some, some-injective}
use mathlib.Core.List.{append_assoc, append-nil}
use tactyk.Base.{
  ℕ, zero, suc, ◌+◌, ◌*◌, ◌/◌, ◌^◌, ◌≤◌, ◌≡◌, inl, inr, refl, sym, ap, ◌∙◌, subst, arith, List, [],
  ◌∷◌, ◌++◌, some, ltb, length, length-append, Bool-cases,
}
use tactyk.Dblock.Block.{Block, DBlock}
use tactyk.Dblock.Interpolate.Expansion.{IsTextOf}
use tactyk.Dblock.Interpolate.Filled.{Gives, append_bytes-Gives}
use tactyk.Dblock.Number.{decimal, from_uint}
use tactyk.Dblock.Table.{header_of}
use tactyk.Dblock.Text.{append, content}
use tactyk.Emit.Compile.{command_prefix, colon, number_line, number_loop, put_labels}
use tactyk.Emit.Labels.Distinct.{append-Gives}
use tactyk.Emit.Machine.{Machine}

-- The lines of labels, and those of the numbers of `rounds` commands from `i` on.
abbrev pub label_lines : List DBlock → List ℕ
label_lines [] = []
label_lines (label ∷ labels) = content (header_of label) ++ (b':' ∷ 10 ∷ label_lines labels)

abbrev pub number_text : ℕ → List ℕ
number_text i = b'c' ∷ b'm' ∷ b'd' ∷ b'#' ∷ (decimal 20 i ++ b':' ∷ 10 ∷ [])

abbrev pub number_lines : ℕ → ℕ → List ℕ
number_lines zero i = []
number_lines (suc rounds) i = number_text i ++ number_lines rounds (suc i)

append_block-Gives :
    (out d : Block) (text : List ℕ)
    → IsTextOf out text
    → length text + length (content d) ≤ 2 ^ 63
    → Gives (append out d) (text ++ content d)
unfolding append
append_block-Gives out d text i fits = append_bytes-Gives out text (content d) i fits

length-decimal : (places n : ℕ) → length (decimal places n) ≤ places
unfolding decimal
length-decimal zero n = omega arith
length-decimal (suc places) n = elim (Bool-cases (ltb n 10)) [
  | inl one ↦ rw (one) (omega arith)
  | inr more ↦
      rw (more)
        (omega (arith, length-append (decimal places (n / 10)) _, length-decimal places (n / 10)))
]

number_line-Gives :
    (index : ℕ) (asm_code : Block) (text : List ℕ)
    → IsTextOf asm_code text
    → length text + 30 ≤ 2 ^ 63
    → Gives (number_line index asm_code) (text ++ number_text index)
unfolding number_line from_uint Option.bind
number_line-Gives index asm_code text i fits =
    let short = length-decimal 20 index in
    let (a, e, j) = append-Gives asm_code text command_prefix i (omega (arith, fits)) in
    let (b, f, k) =
      append-Gives a (text ++ command_prefix) (decimal 20 index) j
        (omega (arith, length-append text command_prefix, short, fits)) in
    let (c, g, l) = append-Gives b ((text ++ command_prefix) ++ decimal 20 index) colon k (
      omega (
        arith,
        length-append (text ++ command_prefix) (decimal 20 index),
        length-append text command_prefix,
        short,
        fits,
      )) in
    (
      c,
      rw (e, f) g,
      subst (IsTextOf c)
          (append_assoc (text ++ command_prefix) (decimal 20 index) colon
            ∙ append_assoc text command_prefix (decimal 20 index ++ colon))
          l,
    )

length-number_text : (index : ℕ) → length (number_text index) ≤ 26
length-number_text index =
    omega (arith, length-append (decimal 20 index) colon, length-decimal 20 index)

-- What the loop leaves as it was.
pub record IsNumbered (rounds : ℕ) (text : List ℕ) (ctx ctx' : Machine) : Type 0 where
  pub code : IsTextOf ctx'.asm_code (text ++ number_lines rounds ctx.iptr)
  pub reached : ctx'.iptr ≡ rounds + ctx.iptr
  pub operand : ctx'.pl_operand_raw ≡ ctx.pl_operand_raw

pub number_loop-IsNumbered :
    (rounds : ℕ) (ctx : Machine) (text : List ℕ)
    → IsTextOf ctx.asm_code text
    → length text + 30 * rounds ≤ 2 ^ 62
    → (ctx' : Machine) × (number_loop rounds ctx ≡ some ctx') × IsNumbered rounds text ctx ctx'
unfolding number_loop Option.bind
number_loop-IsNumbered zero ctx text i fits = (
  ctx,
  refl,
  record {
    code = subst (IsTextOf ctx.asm_code) (sym (append-nil text)) i;
    reached = omega arith;
    operand = refl;
  },
)
number_loop-IsNumbered (suc rounds) ctx text i fits =
    let (asm_code, e, j) = number_line-Gives ctx.iptr ctx.asm_code text i (omega (arith, fits)) in
    let (ctx', f, n) =
      number_loop-IsNumbered rounds (record ctx { asm_code = asm_code; iptr = suc ctx.iptr })
        (text ++ number_text ctx.iptr) j
        (omega
          (arith, length-append text (number_text ctx.iptr), length-number_text ctx.iptr, fits)) in
    (
      ctx',
      rw (e) f,
      record {
        code =
            subst (IsTextOf ctx'.asm_code)
              (append_assoc text (number_text ctx.iptr) (number_lines rounds (suc ctx.iptr)))
              n.code;
        reached = omega (arith, n.reached);
        operand = n.operand;
      },
    )

pub length-label_lines :
    (label : DBlock) (labels : List DBlock)
    → length (label_lines (label ∷ labels))
      ≡ length (content (header_of label)) + (2 + length (label_lines labels))
length-label_lines label labels =
    length-append (content (header_of label)) (colon ++ label_lines labels)
    ∙ ap (λ (n : ℕ). length (content (header_of label)) + n)
        {x = length (colon ++ label_lines labels)} (omega arith)

pub put_labels-Gives :
    (labels : List DBlock) (asm_code : Block) (text : List ℕ)
    → IsTextOf asm_code text
    → length text + length (label_lines labels) ≤ 2 ^ 62
    → Gives (put_labels labels asm_code) (text ++ label_lines labels)
unfolding put_labels Option.bind
put_labels-Gives [] asm_code text i fits =
    (asm_code, refl, subst (IsTextOf asm_code) (sym (append-nil text)) i)
put_labels-Gives (label ∷ labels) asm_code text i fits =
    let name = content (header_of label) in
    let size = length-label_lines label labels in
    let (a, e, j) =
      append_block-Gives asm_code (header_of label) text i (omega (arith, size, fits)) in
    let (b, f, k) =
      append-Gives a (text ++ name) colon j (omega (arith, length-append text name, size, fits)) in
    let (c, g, l) =
      put_labels-Gives labels b ((text ++ name) ++ colon) k
        (omega (arith, length-append (text ++ name) colon, length-append text name, size, fits)) in
    (
      c,
      rw (e, f) g,
      subst (IsTextOf c)
          (append_assoc (text ++ name) colon (label_lines labels)
            ∙ append_assoc text name (colon ++ label_lines labels))
          l,
    )
