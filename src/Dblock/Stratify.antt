-- ===== src/Dblock/Stratify.antt =====
-- tactyk_dblock__stratify, libtactyk/tactyk_dblock.c: lines that stand one after the other are linked
-- into a hierarchy by their indentation.
-- Line `i` is block `i` of the chain of `next` pointers that is handed over. The pointers that the
-- function writes are two functions of a line; all `next` pointers are cleared before they are written.
pub mod Shape
pub mod Place
pub mod Follow
pub mod Links
mod Tests
use tactyk.Base.{
  ℕ, zero, suc, ◌+◌, Bool, true, false, List, [], ◌∷◌, Option, none, some, ltb, leb, ◌==◌,
  if◌then◌else◌,
}
use tactyk.Dblock.Block.{Block}
use tactyk.Dblock.Hash.{byte_at}

-- the count of leading bytes that are `space`: `n` rounds from index `i` on
unfoldable pub indent_loop : List ℕ → ℕ → ℕ → ℕ → ℕ
indent_loop text space zero i = 0
indent_loop text space (suc n) i =
    let rest = suc (indent_loop text space n (i + 1)) in if byte_at text i == space then rest else 0

unfoldable pub indent : ℕ → Block → ℕ
indent space dblock = indent_loop dblock.bytes space dblock.length 0

-- An entry of `db_stack`, which is not initialised.
pub data Slot : Type 0 where
  unset : Slot
  null : Slot
  line : ℕ → Slot

-- db_stack, stack_index, dblock_outer, and the pointers of the lines
pub record State : Type 0 where
  pub db_stack : ℕ → Slot
  pub stack_index : ℕ
  pub outer : ℕ
  pub next : ℕ → Option ℕ
  pub child : ℕ → Option ℕ

pub data Result : Type 0 where
  ok : State → Result
  -- the message "Invalid indentation level." and the end of the program
  invalid_indentation : Result
  failed_assert : Result
  -- the read of an entry that was not set, of a NULL pointer, or past the end of the stack
  undefined : Result

abbrev pub then_do : Result → (State → Result) → Result
then_do (ok s) f = f s
then_do invalid_indentation f = invalid_indentation
then_do failed_assert f = failed_assert
then_do undefined f = undefined

abbrev pub write {ℓ} : {A : Type ℓ} → (ℕ → A) → ℕ → A → ℕ → A
write f i a j = if i == j then a else f j

-- the unwinding: the entries above `level` up to `top` become NULL
abbrev pub unwind : (ℕ → Slot) → ℕ → ℕ → ℕ → Slot
unwind stack level top j = if ltb level j then (if leb j top then null else stack j) else stack j

-- `peer->next = dblock`, where there is a peer
unfoldable pub link_peer : State → ℕ → ℕ → Slot → Result
link_peer s level this unset = undefined
link_peer s level this null = invalid_indentation
link_peer s level this (line peer) = ok (record s {
  next = write s.next peer (some this);
  db_stack = write (unwind s.db_stack level s.stack_index) level (line this);
  stack_index = level;
  outer = this;
})

abbrev pub has_child : Option ℕ → Bool
has_child none = false
has_child (some c) = true

abbrev pub is_line : Slot → ℕ → Bool
is_line unset n = false
is_line null n = false
is_line (line i) n = i == n

-- `dblock_outer->child = dblock`, after the two assertions
unfoldable pub link_child : State → ℕ → ℕ → Result
link_child s level this =
    if has_child (s.child s.outer)
    then failed_assert
    else if is_line (s.db_stack s.stack_index) s.outer
    then ok (record s {
      child = write s.child s.outer (some this);
      db_stack = write s.db_stack level (line this);
      stack_index = level;
      outer = this;
    })
    else failed_assert

-- the body of the loop for line `this`; the stack has 256 entries
unfoldable pub place : State → ℕ → ℕ → Result
place s this level =
    if leb 256 level
    then undefined
    else if leb level s.stack_index
    then link_peer s level this (s.db_stack level)
    else link_child s level this

-- the loop over the lines from `this` on, by their indentation
unfoldable pub place_all : State → ℕ → List ℕ → Result
place_all s this [] = ok s
place_all s this (level ∷ levels) =
    then_do (place s this level) (λ t. place_all t (suc this) levels)

abbrev pub levels_of : ℕ → List Block → List ℕ
levels_of space [] = []
levels_of space (b ∷ bs) = indent space b ∷ levels_of space bs

abbrev pub start : ℕ → State
start level = record {
  db_stack = write (λ j. unset) level (line 0);
  stack_index = level;
  outer = 0;
  next = λ i. none;
  child = λ i. none;
}

-- After the first line is placed the second is read with no test for NULL.
unfoldable pub stratify_levels : List ℕ → Result
stratify_levels [] = undefined
stratify_levels (level ∷ []) = undefined
stratify_levels (level ∷ second ∷ levels) =
    if leb 256 level then undefined else place_all (start level) 1 (second ∷ levels)

-- `assert(dblock->fixed == true)` on the first block; without one it is a read of NULL.
unfoldable pub stratify : List Block → ℕ → Result
stratify [] space = undefined
stratify (b ∷ bs) space =
    if b.fixed then stratify_levels (levels_of space (b ∷ bs)) else failed_assert
