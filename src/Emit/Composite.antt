-- ===== src/Emit/Composite.antt =====
-- tactyk_emit__Composite, libtactyk/tactyk_emit.c: the code of a repeated subroutine in fragments, which
-- may be freed of duplicates and put in random order.
-- A result `none` is as in the operators, or a write past the end of `code_fragments`.
pub mod Ordered
mod Tests
use mathlib.Core.Option
use tactyk.Base.{
  ℕ, zero, suc, Bool, true, false, ◌&&◌, ◌||◌, not, List, [], ◌∷◌, ◌++◌, Option, none, some, leb,
  ltb, ◌==◌, if◌then◌else◌, length, get_elem?, set,
}
use tactyk.Dblock.Block.{Block, DBlock, null, node}
use tactyk.Dblock.Export.{equals_c_string}
use tactyk.Dblock.Hash.{equals}
use tactyk.Dblock.Number.{try_parseuint}
use tactyk.Dblock.Text.{new, append, clear}
use tactyk.Emit.Machine.{Visa, Machine}
use tactyk.Emit.Operators.{Call, exec_subroutine, set_template}
use tactyk.Pl.Walk.{is_there}
use tactyk.Util.Random.{rand_range}

-- the parameters
pub record Settings : Type 0 where
  pub permute : Bool
  pub remove_duplicates : Bool
  pub max_ops : ℕ

abbrev pub setting : Bool → Block → Settings → Settings
setting use_extra_permutations param s = elim (try_parseuint param) [
  | some max_ops ↦ record s { max_ops = max_ops }
  | none ↦
      if use_extra_permutations
        && equals_c_string param
            (b'p' ∷ b'e' ∷ b'r' ∷ b'm' ∷ b'u' ∷ b't' ∷ b'e' ∷ b'-' ∷ b'c' ∷ b'o' ∷ b'd' ∷ b'e' ∷ [])
      then record s { permute = true }
      else if equals_c_string param (
          b'n' ∷ b'o' ∷ b'-' ∷ b'd' ∷ b'u' ∷ b'p' ∷ b'l' ∷ b'i' ∷ b'c' ∷ b'a' ∷ b't' ∷ b'e' ∷ b's'
          ∷ [])
      then record s { remove_duplicates = true }
      else s
]

unfoldable pub settings : Bool → DBlock → Settings → Settings
settings use_extra_permutations null s = s
settings use_extra_permutations (node b sl next child token store) s =
    settings use_extra_permutations next (setting use_extra_permutations b s)

-- A fragment that is equal to a later one is cleared.
unfoldable pub equals_any : Block → List Block → Bool
equals_any fragment [] = false
equals_any fragment (later ∷ fragments) = equals fragment later || equals_any fragment fragments

unfoldable pub clear_duplicates : List Block → Option (List Block)
clear_duplicates [] = some []
clear_duplicates (fragment ∷ fragments) =
    let cleared = if equals_any fragment fragments then clear fragment else some fragment in
    Option.bind cleared (λ f. Option.map (λ fs. f ∷ fs) (clear_duplicates fragments))

-- from `if (cfrag->length > 0)` on: the new fragment is kept, where there is one
unfoldable pub keep_fragment : Settings → List Block → Machine → Option (List Block × Machine)
keep_fragment s fragments ctx =
    let kept =
      if leb s.max_ops (length fragments)
      then none
      else some (fragments ++ ctx.asm_code ∷ [], record ctx { asm_code = new 4096 }) in
    if ctx.asm_code.length == 0 then some (fragments, ctx) else kept

unfoldable pub finish_round : Settings → List Block → Machine → Option (List Block × Machine)
finish_round s fragments ctx = Option.bind (keep_fragment s fragments ctx) (λ (fs, c).
    Option.bind (clear c.code_template) (λ template. Option.bind (set_template template c) (λ c'.
      Option.map (λ kept. (kept, c'))
        (if s.remove_duplicates then clear_duplicates fs else some fs))))

-- the `while` loop
unfoldable pub composite_loop :
    Visa → Call → Settings → DBlock → ℕ → List Block → Machine → Option (List Block × Machine)
composite_loop visa call s line zero fragments ctx = none
composite_loop visa call s line (suc rounds) fragments ctx =
    let go = Option.bind (exec_subroutine visa call line ctx) (λ (c, result).
      let next =
        Option.bind (finish_round s fragments c)
          (λ (fs, c'). composite_loop visa call s line rounds fs c') in
      let stopped = if is_there c.pl_operand_raw then none else some (fragments, c) in
      if result then next else stopped) in
    if is_there ctx.pl_operand_raw || ltb (length fragments) s.max_ops
    then go
    else some (fragments, ctx)

-- the fragments behind the code so far, in order
unfoldable pub append_all : List Block → Block → Option Block
append_all [] main_cb = some main_cb
append_all (fragment ∷ fragments) main_cb =
    Option.bind (append main_cb fragment) (append_all fragments)

-- `if (cfrag->length > 0)`
unfoldable pub append_some : Block → Block → Option Block
append_some main_cb fragment =
    let more = append main_cb fragment in if fragment.length == 0 then some main_cb else more

-- in random order: the last of the `left` fragments takes the place of the one drawn
unfoldable pub append_permuted : ℕ → List Block → List ℕ → Block → Option (Block × List ℕ)
append_permuted zero fragments draws main_cb = some (main_cb, draws)
append_permuted (suc left) fragments draws main_cb =
    Option.bind (rand_range (suc left) draws) (λ (randpos, rest).
      Option.bind (get_elem? fragments randpos) (λ cfrag.
        Option.bind (get_elem? fragments left) (λ last.
          Option.bind (append_some main_cb cfrag)
            (append_permuted left (set fragments randpos last) rest))))

unfoldable pub write_fragments : Settings → List Block → Block → Machine → Option Machine
write_fragments s fragments main_cb ctx =
    let permuted =
      Option.map (λ (code, rest). record ctx { asm_code = code; draws = rest })
        (append_permuted (length fragments) fragments ctx.draws main_cb) in
    let in_order =
      Option.map (λ code. record ctx { asm_code = code }) (append_all fragments main_cb) in
    if s.permute then permuted else in_order

unfoldable pub composite : Visa → Call → DBlock → Machine → Option (Machine × Bool)
composite visa call null ctx = none
composite visa call (node b sl next child token store) ctx =
    let s =
      settings visa.use_extra_permutations token
        (record { permute = false; remove_duplicates = false; max_ops = 16 }) in
    Option.bind (clear ctx.code_template) (λ template.
      Option.bind (set_template template (record ctx { asm_code = new 4096 })) (λ c.
        Option.bind (composite_loop visa call s (node b sl next child token store) visa.rounds [] c)
          (λ (fragments, c').
            Option.map (λ done. (done, true)) (write_fragments s fragments ctx.asm_code c'))))
