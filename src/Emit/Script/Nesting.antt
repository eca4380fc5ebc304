-- ===== src/Emit/Script/Nesting.antt =====
-- Codeblocks are closed as often as they are opened, and no label is lost.
use mathlib.Core.Option
use mathlib.Core.Option.{none-ne-some, some-injective}
use mathlib.Core.Bool.{true≢false}
use tactyk.Base.{
  ℕ, suc, ◌+◌, ◌*◌, ◌≡◌, refl, sym, Bool, true, false, List, [], ◌∷◌, ◌++◌, Option, none, some,
  if◌then◌else◌, length,
}
use tactyk.Dblock.Block.{Block, DBlock}
use tactyk.Dblock.Table.{Table}
use tactyk.Emit.Script.{Script, ScriptCommand, add_script_command, new_codeblock, set_child}

-- The labels of the commands, in order.
unfoldable pub command_labels : List ScriptCommand → List DBlock
command_labels [] = []
command_labels (cmd ∷ commands) = cmd.labels ++ command_labels commands

-- All labels: those of the commands, then those that wait for one.
abbrev pub labels_of : Script → List DBlock
labels_of ctx = command_labels ctx.script_commands ++ ctx.active_labels

-- How many labels were made: one for each identifier of a label, and two for each codeblock.
abbrev pub made : Script → ℕ
made ctx = 2 * ctx.next_codeblock_id + length ctx.functions.identifiers

-- The codeblocks are as before, an active command stays, and labels are only added, at the end, as
-- many as were made.
pub record Leads (s s' : Script) : Type 0 where
  pub balanced : s'.codeblocks ≡ s.codeblocks
  pub active : s'.active_command ≡ none → s.active_command ≡ none
  pub added :
      (more : List DBlock) × (labels_of s' ≡ labels_of s ++ more) × (length more + made s ≡ made s')

-- What a call that returned was made of.
pub bound {ℓ κ} :
    {A : Type ℓ} {B : Type κ} (o : Option A) (f : A → Option B) (b : B)
    → Option.bind o f ≡ some b
    → (a : A) × (o ≡ some a) × (f a ≡ some b)
unfolding Option.bind
bound none f b e = absurd (none-ne-some _ e)
bound (some a) f b e = (a, refl, e)

pub mapped {ℓ κ} :
    {A : Type ℓ} {B : Type κ} (o : Option A) (f : A → B) (b : B)
    → Option.map f o ≡ some b
    → (a : A) × (o ≡ some a) × (f a ≡ b)
mapped none f b e = absurd (none-ne-some _ e)
mapped (some a) f b e = (a, refl, some-injective _ _ e)

pub taken_if {ℓ} : {A : Type ℓ} (b : Bool) (x y z : A) → b ≡ true → (if b then x else y) ≡ z → x ≡ z
taken_if true x y z h e = e
taken_if false x y z h e = absurd (true≢false (sym h))

pub left_if {ℓ} : {A : Type ℓ} (b : Bool) (x y z : A) → b ≡ false → (if b then x else y) ≡ z → y ≡ z
left_if true x y z h e = absurd (true≢false h)
left_if false x y z h e = e

-- A codeblock is open only if a command is active.
abbrev pub IsNested : Script → Type 0
IsNested s = s.active_command ≡ none → s.codeblocks ≡ []

-- the script with a codeblock opened below a command
abbrev opened : ℕ → Script → Script
opened k s =
    let codeblock = new_codeblock s.next_codeblock_id in
    record s {
      script_commands = set_child s.script_commands k codeblock;
      active_labels = s.active_labels ++ codeblock.first_label ∷ [];
      next_codeblock_id = suc s.next_codeblock_id;
      codeblocks = codeblock ∷ s.codeblocks;
    }

-- A script after any number of commands were added.
pub data Commanded : Script → Script → Type 0 where
  ready : {s : Script} → Commanded s s
  command_added :
      {s t u : Script} (token line : DBlock)
      → add_script_command token line s ≡ some t
      → Commanded t u
      → Commanded s u

module _ (directive : ℕ → Script → DBlock → Option (Script × Bool)) (tkpl_funcs : Table) where
  -- Of the operations on the script, the directives call tactyk_emit__add_script_command only.
  abbrev pub Commanding : Type 0
  Commanding =
      (func : ℕ) (line : DBlock) (s s' : Script) (escape : Bool)
      → directive func s line ≡ some (s', escape)
      → Commanded s s'
