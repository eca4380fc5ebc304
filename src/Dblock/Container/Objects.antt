-- ===== src/Dblock/Container/Objects.antt =====
-- Objects of a container lie in its memory, one behind the other.
use tactyk.Base.{
  ℕ, zero, suc, ◌+◌, ◌*◌, ◌%◌, ◌^◌, ◌≤◌, ◌<◌, ◌≡◌, refl, sym, ap, ◌∙◌, arith, Bool, false, ◌&&◌,
  Option, some, none, leb, ltb, if◌then◌else◌, length,
}
use tactyk.Base.Words.{add64, mul64}
use tactyk.Dblock.Block.{Block, DBlock, null, node, Slots}
use tactyk.Dblock.Container.{take_object, new_object, index}

-- As many objects as are counted, in memory for as many as the capacity says, less than 2 ^ 63 bytes.
pub record IsContainer (b : Block) : Type 0 where
  pub used : b.length ≡ b.element_count * b.stride
  pub below : b.element_count ≤ b.element_capacity
  pub room : b.element_capacity * b.stride ≤ b.capacity
  pub owned : length b.bytes ≡ b.capacity
  pub small : b.capacity < 2 ^ 63
  pub sized : 1 ≤ b.stride

mul_le : (a b c : ℕ) → a ≤ b → a * c ≤ b * c
mul_le zero b c h = omega arith
mul_le (suc a) zero c h = absurd (omega arith)
mul_le (suc a) (suc b) c h = omega (arith, mul_le a b c (omega arith), step a c, step b c)
  where
    step : (n c : ℕ) → suc n * c ≡ n * c + c
    step n c = omega arith

le_mul : (n s : ℕ) → 1 ≤ s → n ≤ n * s
le_mul n zero h = absurd (omega arith)
le_mul n (suc s) h = omega (arith, split n s)
  where
    split : (n s : ℕ) → n * suc s ≡ n * s + n
    split n s = omega arith

next_mul : (n s : ℕ) → (n + 1) * s ≡ n * s + s
next_mul n s = omega arith

no_wrap_mul : (n s : ℕ) → n * s < 2 ^ 63 → mul64 n s ≡ n * s
no_wrap_mul n s h = word (n * s) h
  where
    word : (m : ℕ) → m < 2 ^ 63 → m % 2 ^ 64 ≡ m
    word m h = omega arith

no_wrap_add : (a b : ℕ) → a + b < 2 ^ 64 → add64 a b ≡ a + b
no_wrap_add a b h = omega arith

-- The object that is found under an index, and its place.
abbrev pub Found : Block → ℕ → Type 0
Found b i =
    (s : Slots) (next child token : DBlock)
    → index (node b s next child token null) i ≡ some (b, i * b.stride)

-- The container after an object is taken.
pub record IsTaken (b b' : Block) (offset : ℕ) : Type 0 where
  pub container : IsContainer b'
  pub place : offset ≡ b.element_count * b.stride
  pub counts : b'.element_count ≡ b.element_count + 1
  pub same_bytes : b'.bytes ≡ b.bytes
  pub inside : offset + b'.stride ≤ length b'.bytes
  pub found : (i : ℕ) → i < b'.element_count → Found b' i
  pub apart : (i : ℕ) → i < b.element_count → i * b'.stride + b'.stride ≤ offset

module _ (b : Block) (c : IsContainer b) (space : b.element_count < b.element_capacity) where
  -- the memory that is used with the object
  fits : b.element_count * b.stride + b.stride ≤ b.capacity
  fits = omega (
    arith,
    next_mul b.element_count b.stride,
    mul_le (b.element_count + 1) b.element_capacity b.stride (omega arith),
    c.room,
  )

  counted : b.element_capacity < 2 ^ 63
  counted = omega (arith, le_mul b.element_capacity b.stride c.sized, c.room, c.small)

  taken : Block
  taken = record b { length = add64 b.length b.stride; element_count = add64 b.element_count 1 }

  new_length : taken.length ≡ b.element_count * b.stride + b.stride
  unfolding taken
  new_length =
      omega (arith, no_wrap_add b.length b.stride (omega (arith, c.used, fits, c.small)), c.used)

  new_count : taken.element_count ≡ b.element_count + 1
  unfolding taken
  new_count = no_wrap_add b.element_count 1 (omega (arith, counted))

  taken-IsContainer : IsContainer taken
  unfolding taken
  taken-IsContainer = record {
    used =
        new_length
        ∙ sym (next_mul b.element_count b.stride)
        ∙ ap (λ (n : ℕ). n * b.stride) (sym new_count);
    below = omega (arith, new_count);
    room = c.room;
    owned = c.owned;
    small = c.small;
    sized = c.sized;
  }

  taken-Found : (i : ℕ) → i < b.element_count + 1 → Found taken i
  unfolding taken index
  taken-Found i h s next child token =
      rw
        (
          within,
          no_wrap_mul i b.stride
              (omega (arith, mul_le i b.element_count b.stride (omega arith), fits, c.small)),
        )
        refl
    where
      not_above : (n i : ℕ) → n ≡ b.element_count + 1 → i < b.element_count + 1 → leb n i ≡ false
      not_above n i e lt = ground arith

      within : leb taken.element_count i ≡ false
      within = not_above taken.element_count i new_count h

  take_object-taken : take_object b ≡ some (taken, b.element_count * b.stride)
  unfolding taken take_object
  take_object-taken =
      rw
        (
          enough taken.length b.capacity (omega (arith, new_length, fits)),
          no_wrap_mul b.element_count b.stride (omega (arith, fits, c.small)),
        )
        refl
    where
      enough : (n m : ℕ) → n ≤ m → ltb m n ≡ false
      enough n m h = ground arith

  -- When a well-formed container has space, new_object returns the place behind the objects: the container stays
  -- well-formed and counts one more, its memory is not written, the object lies in it, every object
  -- is found under its index, and the earlier ones end before the new one.
  pub new_object-IsTaken :
      (b' : Block) × (offset : ℕ) × (new_object b ≡ some (b', offset)) × IsTaken b b' offset
  unfolding taken new_object
  new_object-IsTaken = (
    taken,
    b.element_count * b.stride,
    guards b.fixed (leb b.element_capacity b.element_count) _ _ (not_full _ _ space)
        ∙ take_object-taken,
    record {
      container = taken-IsContainer;
      place = refl;
      counts = new_count;
      same_bytes = refl;
      inside = omega (arith, fits, c.owned);
      found = λ i h. taken-Found i (omega (arith, h, new_count));
      apart = λ i h.
          omega (arith, next_mul i b.stride, mul_le (i + 1) b.element_count b.stride (omega arith));
    },
  )
    where
      not_full : (n m : ℕ) → n < m → leb m n ≡ false
      not_full n m h = ground arith

      guards :
          (f a : Bool) (x y : Option (Block × ℕ))
          → a ≡ false
          → (if f && a then none else if a then x else y) ≡ y
      guards f a x y h = ground arith
