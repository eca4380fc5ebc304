-- ===== src/Pl/Memory/Tests.antt =====
-- The declaration "mem b 9" in a loader without blocks.
use mathlib.Core.Option
use tactyk.Base.{ℕ, ◌-◌, ◌^◌, ◌≡◌, refl, arith, true, [], ◌∷◌, none, some}
use tactyk.Dblock.Block.{DBlock, null, node, nil, empty}
use tactyk.Dblock.Hash.{update_hash}
use tactyk.Dblock.Links.{count_tokens, count_peers}
use tactyk.Dblock.Number.{try_parseuint, parse_from, parse_digits, digit_step, digit_of, radix_at}
use tactyk.Dblock.Table.{Key, get, new_table}
use tactyk.Dblock.Table.Map.{new_table-Inv}
use tactyk.Dblock.Text.{new}
use tactyk.Pl.Struct.Constants.{HasRoom}
use tactyk.Pl.Memory.{
  Loader, Request, default_mem_layout, request, request_scaled, layout_of, fallback, lowlevel_block,
  mem,
}
use tactyk.Pl.Memory.Defined.{HasSpace, IsMem, mem-IsMem}
use tactyk.Util.Pow2.{next_pow2}

abbrev letter : ℕ → DBlock → DBlock
letter c next =
    node (record (new 1) { length = 1; bytes = c ∷ []; fixed = true }) nil next null null null

abbrev mem_line : DBlock
mem_line = node (new 0) nil null null (letter b'm' (letter b'b' (letter b'9' null))) null

abbrev empty_loader : Loader
empty_loader = record {
  struct_table = new_table 4;
  struct_at = λ p. default_mem_layout;
  memspec_highlevel_table = new_table 4;
  highlevel = [];
  highlevel_data = 4096;
  memspec_lowlevel_buffer = [];
  memblock_table = new_table 4;
}

abbrev mem_request : Request
mem_request = record { mem_name = letter b'b' (letter b'9' null); layout = none; scale = 9 }

four-HasRoom : HasRoom (new_table 4) 1000 1
unfolding new_table next_pow2
four-HasRoom = record {
  inv = (new_table-Inv 4 (omega arith) (omega arith)).0;
  room = omega arith;
  capacity = omega arith;
  small = omega arith;
}

empty_loader-HasSpace : HasSpace empty_loader 1000
unfolding new_table next_pow2
empty_loader-HasSpace = record {
  names = four-HasRoom;
  ids = four-HasRoom;
  counted = refl;
  paired = refl;
  below = omega arith;
}

request-mem_line : request empty_loader mem_line ≡ some mem_request
unfolding request request_scaled count_tokens count_peers Option.bind try_parseuint parse_from
    parse_digits digit_step digit_of radix_at new update_hash
request-mem_line = refl

no_struct : get (new_table 4) (Key.dblock (letter b'b' (letter b'9' null))) ≡ empty
no_struct =
    let (inv, lo, hi, reads) = new_table-Inv 4 (omega arith) (omega arith) in
    reads (Key.dblock (letter b'b' (letter b'9' null)))

layout_of-mem_request : layout_of empty_loader mem_request ≡ some default_mem_layout
unfolding layout_of fallback
layout_of-mem_request = rw no_struct refl

mem-IsMem_example :
    (l' : Loader) × (mem empty_loader mem_line 65536 ≡ some l')
    × IsMem empty_loader mem_request default_mem_layout 65536 l'
unfolding new update_hash
mem-IsMem_example =
    mem-IsMem empty_loader mem_line mem_request default_mem_layout 65536 1000 empty_loader-HasSpace
      request-mem_line layout_of-mem_request (omega arith) (omega arith) (omega arith) (omega arith)

-- A block declared without a count has no memory, but a bound of nearly 4 GB.
unbounded : (lowlevel_block 0 0 8).array_bound ≡ 2 ^ 32 - 7
unbounded = refl
