-- ===== src/Asmvm/Bindings.antt =====
-- tactyk_asmvm__bind and unbind: address registers and memory blocks stay in step, the bounds keep
-- accesses inside the object.
use tactyk.Base.{
  ℕ, zero, suc, ◌+◌, ◌*◌, ◌%◌, ◌^◌, ◌≤◌, ◌<◌, ◌≡◌, inl, inr, refl, ap, ◌∙◌, subst, arith, false,
  some, leb, ◌==◌, ==_iff, Bool-cases,
}
use tactyk.Base.Words.{word64, add64, sub64, mul64}
use tactyk.Asmvm.{Memblock, Context, word32, write_slot, dynamic, bind}

-- Each of the four address registers has the address of its memory block.
abbrev pub Coherent : Context → Type 0
Coherent ctx = (i : ℕ) → i < 4 → ctx.addr i ≡ (ctx.active_memblocks i).base_address

pub write_slot_same {ℓ} : {A : Type ℓ} (f : ℕ → A) (i : ℕ) (a : A) → write_slot f i a i ≡ a
write_slot_same f i a = rw ((==_iff i i).1 refl) refl

pub write_slot_other {ℓ} :
    {A : Type ℓ} (f : ℕ → A) (i j : ℕ) (a : A) → (i == j) ≡ false → write_slot f i a j ≡ f j
write_slot_other f i j a h = rw h refl

-- Both arrays are written at one index: the new register has the new address.
write_both :
    (ctx : Context) (c : Coherent ctx) (i : ℕ) (mb : Memblock) (j : ℕ)
    → j < 4
    → write_slot ctx.addr i mb.base_address j
      ≡ (write_slot ctx.active_memblocks i mb j).base_address
write_both ctx c i mb j h = elim (Bool-cases (i == j)) [
  | inl same ↦ rw same refl
  | inr other ↦ rw other (c j h)
]

-- the bound of an array of `count` elements
bound_value :
    (size count : ℕ)
    → 1 ≤ count
    → 1 ≤ size
    → size * count < 2 ^ 32
    → add64 (mul64 size (sub64 count 1)) 1 % word32 + size ≡ size * count + 1
bound_value size zero p s h = absurd (omega arith)
bound_value size (suc n) p s h =
    let back : sub64 (suc n) 1 ≡ n = small n (fits size n s h) in
    let product : size * suc n ≡ size * n + size = omega arith in
    rw back (plain (size * n) size (omega (arith, product, h)) s ∙ omega (arith, product))
  where
    fits : (size n : ℕ) → 1 ≤ size → size * suc n < 2 ^ 32 → n < 2 ^ 32
    fits zero n s h = absurd (omega arith)
    fits (suc m) n s h = omega (arith, ap (λ (t : ℕ). t) (expand m n))
      where
        expand : (m n : ℕ) → suc m * suc n ≡ m * suc n + n + 1
        expand m n = omega arith

    small : (n : ℕ) → n < 2 ^ 32 → sub64 (suc n) 1 ≡ n
    small n h = omega arith

    plain : (x s : ℕ) → x + s < 2 ^ 32 → 1 ≤ s → add64 (x % word64) 1 % word32 + s ≡ x + s + 1
    plain x s h p = omega arith

-- the memory block that `bind` writes
abbrev pub bound_block : ℕ → ℕ → ℕ → Memblock
bound_block object size count = record {
  base_address = object;
  element_bound = size % word32;
  array_bound = add64 (mul64 size (sub64 count 1)) 1 % word32;
  memblock_index = dynamic;
  offset = 0;
}

pub access_inside :
    (size count start field width : ℕ)
    → 1 ≤ size
    → 1 ≤ count
    → size * count < 2 ^ 32
    → start < (bound_block 0 size count).array_bound
    → field + width ≤ size % word32
    → start + field + width ≤ size * count
access_inside size count start field width s p h a b =
    sum start field width (size % word32) size (size * count) (bound_block 0 size count).array_bound
      a b (below size) (bound_value size count p s h)
  where
    below : (n : ℕ) → n % word32 ≤ n
    below n = omega arith

    sum :
        (start field width short size all bound : ℕ)
        → start < bound
        → field + width ≤ short
        → short ≤ size
        → bound + size ≡ all + 1
        → start + field + width ≤ all
    sum start field width short size all bound a b c d = omega arith

-- What a binding of `count` elements of `size` bytes at `object` gives in slot `index`.
pub record IsBound (ctx : Context) (index object size count : ℕ) (ctx' : Context) : Type 0 where
  pub coherent : Coherent ctx'
  pub address : (ctx'.active_memblocks index).base_address ≡ object
  pub others : (j : ℕ) → (index == j) ≡ false → ctx'.active_memblocks j ≡ ctx.active_memblocks j
  -- an element that starts below `array_bound`, and a field of it that ends within
  -- `element_bound`, end within the object
  pub in_bounds :
      (start field width : ℕ)
      → start < (ctx'.active_memblocks index).array_bound
      → field + width ≤ (ctx'.active_memblocks index).element_bound
      → start + field + width ≤ size * count

-- For one of the four slots and an object of one or more elements, not empty and less than 2 ^ 32
-- bytes in all: `bind` succeeds, writes the slot and its address register and no other slot, and an
-- access that passes both bounds lies within the object.
pub bind-IsBound :
    {ctx : Context} (c : Coherent ctx) (index object size count : ℕ)
    → index < 4
    → 1 ≤ size
    → 1 ≤ count
    → size * count < 2 ^ 32
    → (ctx' : Context) × (bind ctx index object size count ≡ some ctx')
      × IsBound ctx index object size count ctx'
unfolding bind
bind-IsBound {ctx} c index object size count h s p fit =
    let mb = bound_block object size count in
    let self = write_slot_same ctx.active_memblocks index mb in
    (
      record ctx {
        active_memblocks = write_slot ctx.active_memblocks index mb;
        addr = write_slot ctx.addr index object;
      },
      rw (not_above index h) refl,
      record {
        coherent = write_both ctx c index mb;
        address = ap (λ (m : Memblock). m.base_address) self;
        others = λ j o. write_slot_other ctx.active_memblocks index j mb o;
        in_bounds = λ start field width a b.
            access_inside size count start field width s p fit
              (subst (λ (m : Memblock). start < m.array_bound) self a)
              (subst (λ (m : Memblock). field + width ≤ m.element_bound) self b);
      },
    )
  where
    not_above : (i : ℕ) → i < 4 → leb 4 i ≡ false
    not_above i h = ground arith
