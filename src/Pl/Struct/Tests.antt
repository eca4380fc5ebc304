-- ===== src/Pl/Struct/Tests.antt =====
-- A small struct: "struct pt" with the lines "8 x" and ". 4 lo".
use mathlib.Core.Option
use tactyk.Base.{◌≤◌, ℕ, zero, suc, ◌<◌, ◌≡◌, ◌≢◌, refl, arith, List, [], ◌∷◌, some, true}
use tactyk.Dblock.Block.{DBlock, null, node, nil}
use tactyk.Dblock.Hash.{byte_at, update_hash}
use tactyk.Dblock.Links.{count_tokens, count_peers}
use tactyk.Dblock.Number.{try_parseuint, parse_from, parse_digits, digit_step, digit_of, radix_at}
use tactyk.Dblock.Table.{Table, new_table}
use tactyk.Dblock.Table.Map.{new_table-Inv}
use tactyk.Dblock.Text.{new}
use tactyk.Pl.Struct.{
  StructTable, Struct, struct, parse_field, read_field, place_field, start_cursor,
}
use tactyk.Pl.Struct.Constants.{HasRoom}
use tactyk.Pl.Struct.Layout.{NamedField}
use tactyk.Pl.Struct.Laid.{IsIdentifier, AreFields}
use tactyk.Pl.Struct.Whole.{IsStruct, IsListed, struct-IsStruct}
use tactyk.Util.Pow2.{next_pow2}

-- a token of one byte or of two
abbrev letter : ℕ → DBlock → DBlock
letter c next =
    node (record (new 0) { length = 1; bytes = c ∷ []; fixed = true }) nil next null null null

abbrev pair_name : ℕ → ℕ → DBlock
pair_name c d =
    node (record (new 2) { length = 2; bytes = c ∷ d ∷ []; fixed = true }) nil null null null null

abbrev line_of : DBlock → DBlock → DBlock
line_of tokens next = node (new 0) nil next null tokens null

abbrev pt_lines : DBlock
pt_lines =
    line_of (letter b'8' (letter b'x' null))
      (line_of (letter b'.' (letter b'4' (pair_name b'l' b'o'))) null)

abbrev pt_fields : List NamedField
pt_fields =
    record {
      field = record { directive = b' '; p_width = 8; p_name = letter b'x' null };
      prop_name = b'x' ∷ [];
    }
    ∷ record {
      field = record { directive = b'.'; p_width = 4; p_name = pair_name b'l' b'o' };
      prop_name = b'l' ∷ b'o' ∷ [];
    }
    ∷ []

letter-IsIdentifier : (c : ℕ) → c ≢ 0 → IsIdentifier (letter c null) (c ∷ [])
unfolding new update_hash
letter-IsIdentifier c h = (no_nul, omega arith, omega arith, refl)
  where
    no_nul : (j : ℕ) → j < 1 → byte_at (c ∷ []) j ≢ 0
    no_nul zero lt = h
    no_nul (suc j) lt = absurd (omega arith)

pair-IsIdentifier : (c d : ℕ) → c ≢ 0 → d ≢ 0 → IsIdentifier (pair_name c d) (c ∷ d ∷ [])
unfolding new update_hash
pair-IsIdentifier c d h k = (no_nul, omega arith, omega arith, refl)
  where
    no_nul : (j : ℕ) → j < 2 → byte_at (c ∷ d ∷ []) j ≢ 0
    no_nul zero lt = h
    no_nul (suc zero) lt = k
    no_nul (suc (suc j)) lt = absurd (omega arith)

pt_lines-AreFields : AreFields pt_lines pt_fields
unfolding parse_field read_field count_tokens count_peers Option.bind try_parseuint parse_from
    parse_digits digit_step digit_of radix_at new update_hash
pt_lines-AreFields = (
  refl,
  letter-IsIdentifier b'x' (λ e. omega (arith, e)),
  (refl, pair-IsIdentifier b'l' b'o' (λ e. omega (arith, e)) (λ e. omega (arith, e)), tt),
)

four-HasRoom : (n : ℕ) → n ≤ 500 → HasRoom (new_table 4) 1000 n
unfolding new_table next_pow2
four-HasRoom n le = record {
  inv = (new_table-Inv 4 (omega arith) (omega arith)).0;
  room = omega arith;
  capacity = omega arith;
  small = omega arith;
}

abbrev no_structs : StructTable
no_structs = record { names = new_table 4; structs = []; structs_data = 4096; element_capacity = 4 }

struct-IsStruct_example :
    (l' : StructTable) × (t' : Table) × (st : Struct) × (struct no_structs
        (node (new 0) nil null pt_lines (letter b's' (pair_name b'p' b't')) null)
        (new_table 4)
      ≡ some (l', t'))
    × IsListed no_structs (pair_name b'p' b't') st l'
    × IsStruct (b'p' ∷ b't' ∷ []) pt_fields (new_table 4) st t'
unfolding Option.bind new update_hash
struct-IsStruct_example =
    struct-IsStruct no_structs (new 0) nil null pt_lines (letter b's' (pair_name b'p' b't')) null
      (pair_name b'p' b't') (b'p' ∷ b't' ∷ []) pt_fields (new_table 4) 1000 refl (omega arith)
      (pair-IsIdentifier b'p' b't' (λ e. omega (arith, e)) (λ e. omega (arith, e)))
      pt_lines-AreFields (omega arith) (four-HasRoom 1 (omega arith)) (omega arith)
      (four-HasRoom 3 (omega arith))

-- A field of 4 bytes at the start again, behind 8 bytes, makes a stride of 12.
restart_stride : (place_field b'>' 4 (place_field b' ' 8 start_cursor).1).1.stride ≡ 12
unfolding place_field
restart_stride = refl
