-- ===== src/Dblock/Interpolate/Filled.antt =====
-- interpolate gives the expansion of the pattern.
use mathlib.Core.Option
use tactyk.Base.{
  ℕ, ◌+◌, ◌≤◌, ◌^◌, ◌≡◌, ◌⊎◌, refl, ap, ◌∙◌, arith, List, [], ◌++◌, Option, some, length,
  length-append, length-replicate,
}
use tactyk.Dblock.Block.{Block, DBlock, empty, block}
use tactyk.Dblock.Hash.{update_hash}
use tactyk.Dblock.Table.{Table, c_string, header_of}
use tactyk.Dblock.Text.{new, append_bytes, content}
use tactyk.Dblock.Text.Append.{append_bytes-IsAppended, append_bytes-managed}
use tactyk.Dblock.Interpolate.{varvalue}
use tactyk.Dblock.Interpolate.Expansion.{IsTextOf}

-- What the tables hold under the names: a text, or nothing, where the name itself stays.
abbrev pub Resolves : Table → Option Table → (List ℕ → List ℕ) → Type 0
Resolves main_vars alt_vars lookup =
    (name : List ℕ)
    → ((varvalue main_vars alt_vars (c_string name) ≡ empty) × (lookup name ≡ name))
      ⊎ ((d : DBlock) × (varvalue main_vars alt_vars (c_string name) ≡ block d)
          × (lookup name ≡ content (header_of d)))

-- A call that returns a text.
abbrev pub Gives : Option Block → List ℕ → Type 0
Gives r text = (b : Block) × (r ≡ some b) × IsTextOf b text

pub append_bytes-Gives :
    (v : Block) (text source : List ℕ)
    → IsTextOf v text
    → length text + length source ≤ 2 ^ 63
    → Gives (append_bytes v source) (text ++ source)
append_bytes-Gives v text source i bound =
    let (b, e, a) = append_bytes-IsAppended i.text source (omega (arith, i.length_lem)) in
    (
      b,
      e,
      record {
        text = a.text;
        content_lem = a.content_lem ∙ ap (λ l. l ++ source) i.content_lem;
        length_lem = omega (arith, a.length_lem, i.length_lem, length-append text source);
        managed = append_bytes-managed i.text source (omega (arith, i.length_lem)) e;
        hashed = a.hashed;
      },
    )

pub new-IsTextOf : (capacity : ℕ) → IsTextOf (new capacity) []
unfolding new update_hash
new-IsTextOf capacity = record {
  text = record {
    within = omega arith;
    fits = omega arith;
    owned = λ m. length-replicate capacity 0;
    mutable = refl;
  };
  content_lem = refl;
  length_lem = refl;
  managed = refl;
  hashed = refl;
}
