-- ===== src/Dblock/Interpolate/Expansion.antt =====
-- The expansion of a pattern on plain lists, and what the scan of a name finds.
use mathlib.Core.Option
use mathlib.Core.List.{append-nil}
use tactyk.Base.{
  ℕ, ◌+◌, ◌≤◌, ◌^◌, ◌≡◌, inl, inr, refl, sym, ap, ◌∙◌, arith, Bool, true, List, [], ◌∷◌, ◌++◌,
  Option, none, some, ◌==◌, if◌then◌else◌, length, Bool-cases, length-append,
}
use tactyk.Dblock.Block.{Block}
use tactyk.Dblock.Hash.{hash_bytes}
use tactyk.Dblock.Text.{append_char, content}
use tactyk.Dblock.Text.Grow.{IsText}
use tactyk.Dblock.Text.Append.{append_bytes-IsAppended, append_bytes-managed}
use tactyk.Dblock.Interpolate.{name_loop}

module _ (indicator : ℕ) (identifier : ℕ → Bool) (lookup : List ℕ → List ℕ) where
  -- What stands for a text: outside of a name, or behind the start of one.
  abbrev pub expansion : Option (List ℕ) → List ℕ → List ℕ
  expansion none [] = []
  expansion (some name) [] = lookup name
  expansion none (c ∷ cs) =
      if c == indicator then expansion (some (c ∷ [])) cs else c ∷ expansion none cs
  expansion (some name) (c ∷ cs) =
      if identifier c
      then expansion (some (name ++ c ∷ [])) cs
      else lookup name
        ++ (if c == indicator then expansion (some (c ∷ [])) cs else c ∷ expansion none cs)

-- A text in its own memory, with a right hash code.
pub record IsTextOf (v : Block) (name : List ℕ) : Type 0 where
  pub text : IsText v
  pub content_lem : content v ≡ name
  pub length_lem : v.length ≡ length name
  pub managed : v.self_managed ≡ true
  pub hashed : v.hashcode ≡ hash_bytes v.length v.bytes

pub append_char-IsTextOf :
    (v : Block) (name : List ℕ) (c : ℕ)
    → IsText v
    → content v ≡ name
    → v.length ≡ length name
    → length name + 1 ≤ 2 ^ 63
    → (v' : Block) × (append_char v c ≡ some v') × IsTextOf v' (name ++ c ∷ [])
unfolding append_char
append_char-IsTextOf v name c t same count bound =
    let (v', e, a) = append_bytes-IsAppended t (c ∷ []) (omega (arith, count)) in
    (
      v',
      e,
      record {
        text = a.text;
        content_lem = a.content_lem ∙ ap (λ l. l ++ c ∷ []) same;
        length_lem = omega (arith, a.length_lem, count, length-append name (c ∷ []));
        managed = append_bytes-managed t (c ∷ []) (omega (arith, count)) e;
        hashed = a.hashed;
      },
    )

-- The scan stops behind the name, and what is left is expanded on its own.
pub name_loop-expansion :
    (indicator : ℕ) (identifier : ℕ → Bool) (lookup : List ℕ → List ℕ) (text : List ℕ) (v : Block)
    (name : List ℕ)
    → IsTextOf v name
    → length name + length text ≤ 2 ^ 63
    → (v' : Block) × (rest name' : List ℕ) × (name_loop identifier text v ≡ some (v', rest))
      × IsTextOf v' name'
      × (length rest ≤ length text)
      × (expansion indicator identifier lookup (some name) text
          ≡ lookup name' ++ expansion indicator identifier lookup none rest)
unfolding name_loop Option.bind
name_loop-expansion indicator identifier lookup [] v name i bound =
    (v, [], name, refl, i, omega arith, sym (append-nil (lookup name)))
name_loop-expansion indicator identifier lookup (c ∷ text) v name i bound =
    elim (Bool-cases (identifier c)) [
      | inl more ↦
          let (v', e, j) =
            append_char-IsTextOf v name c i.text i.content_lem i.length_lem (omega arith) in
          let (w, rest, name', f, k, le, same) =
            name_loop-expansion indicator identifier lookup text v' (name ++ c ∷ []) j
              (omega (arith, length-append name (c ∷ []))) in
          (w, rest, name', rw (more, e) f, k, omega arith, rw (more) same)
      | inr last ↦ (v, c ∷ text, name, rw (last) refl, i, omega arith, rw (last) refl)
    ]
