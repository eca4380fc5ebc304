-- ===== src/Asmvm/Unbind.antt =====
-- tactyk_asmvm__unbind clears exactly the slots that were bound to an object by hand.
use mathlib.Core.Bool.{true≢false}
use tactyk.Base.{
  ℕ, zero, suc, ◌+◌, ◌≤◌, ◌<◌, ◌≡◌, inl, inr, refl, sym, ap, ◌∙◌, subst, arith, true, false, ◌↔◌,
  ◌==◌, ==_iff, if◌then◌else◌, Bool-cases, ◌≢◌,
}
use tactyk.Asmvm.{Memblock, Context, empty_memblock, is_bound_to, unbind_slot, unbind_loop, unbind}
use tactyk.Asmvm.Bindings.{Coherent, write_slot_same, write_slot_other}

-- the block and the register that unbinding leaves
abbrev cleared : ℕ → Memblock → Memblock
cleared object mb = if is_bound_to mb object then empty_memblock else mb

abbrev cleared_addr : ℕ → Memblock → ℕ → ℕ
cleared_addr object mb a = if is_bound_to mb object then 0 else a

-- Slot `i` of `ctx'` is as unbinding leaves the slot of `ctx`.
record IsCleared (object : ℕ) (ctx ctx' : Context) (i : ℕ) : Type 0 where
  block : ctx'.active_memblocks i ≡ cleared object (ctx.active_memblocks i)
  register : ctx'.addr i ≡ cleared_addr object (ctx.active_memblocks i) (ctx.addr i)

-- Slot `i` is the same in both.
record IsSame (ctx ctx' : Context) (i : ℕ) : Type 0 where
  block : ctx'.active_memblocks i ≡ ctx.active_memblocks i
  register : ctx'.addr i ≡ ctx.addr i

unbind_slot-IsCleared :
    (ctx : Context) (object i : ℕ) → IsCleared object ctx (unbind_slot ctx object i) i
unbind_slot-IsCleared ctx object i =
    elim (Bool-cases (is_bound_to (ctx.active_memblocks i) object)) [
      | inl bound ↦ record {
        block = rw bound (write_slot_same ctx.active_memblocks i empty_memblock);
        register = rw bound (write_slot_same ctx.addr i 0);
      }
      | inr free ↦ record { block = rw free refl; register = rw free refl }
    ]

unbind_slot-IsSame :
    (ctx : Context) (object i j : ℕ) → (i == j) ≡ false → IsSame ctx (unbind_slot ctx object i) j
unbind_slot-IsSame ctx object i j h =
    elim (Bool-cases (is_bound_to (ctx.active_memblocks i) object)) [
      | inl bound ↦ record {
        block = rw bound (write_slot_other ctx.active_memblocks i j empty_memblock h);
        register = rw bound (write_slot_other ctx.addr i j 0 h);
      }
      | inr free ↦ record { block = rw free refl; register = rw free refl }
    ]

IsSame-trans : {a b c : Context} {i : ℕ} → IsSame a b i → IsSame b c i → IsSame a c i
IsSame-trans x y = record { block = y.block ∙ x.block; register = y.register ∙ x.register }

same_before :
    {object : ℕ} {a b c : Context} {i : ℕ}
    → IsSame a b i
    → IsCleared object b c i
    → IsCleared object a c i
same_before {object} {a} {b} {i = i} x y = record {
  block = y.block ∙ ap (cleared object) x.block;
  register =
      y.register
      ∙ ap (λ (m : Memblock). cleared_addr object m (b.addr i)) x.block
      ∙ ap (cleared_addr object (a.active_memblocks i)) x.register;
}

same_after :
    {object : ℕ} {a b c : Context} {i : ℕ}
    → IsCleared object a b i
    → IsSame b c i
    → IsCleared object a c i
same_after x y = record { block = y.block ∙ x.block; register = y.register ∙ x.register }

unbind_loop-IsSame :
    (object n i : ℕ) (ctx : Context) (j : ℕ) → j < i → IsSame ctx (unbind_loop object n i ctx) j
unfolding unbind_loop
unbind_loop-IsSame object zero i ctx j h = record { block = refl; register = refl }
unbind_loop-IsSame object (suc n) i ctx j h =
    IsSame-trans (unbind_slot-IsSame ctx object i j (differ i j h))
      (unbind_loop-IsSame object n (i + 1) (unbind_slot ctx object i) j (omega arith))
  where
    differ : (i j : ℕ) → j < i → (i == j) ≡ false
    differ i j h = ground arith

unbind_loop-IsCleared :
    (object n i : ℕ) (ctx : Context) (j : ℕ)
    → i ≤ j
    → j < i + n
    → IsCleared object ctx (unbind_loop object n i ctx) j
unfolding unbind_loop
unbind_loop-IsCleared object zero i ctx j lo hi = absurd (omega arith)
unbind_loop-IsCleared object (suc n) i ctx j lo hi = elim (Bool-cases (i == j)) [
  | inl same ↦
      subst (λ (k : ℕ). IsCleared object ctx (unbind_loop object (suc n) i ctx) k)
        ((==_iff i j).0 same)
        (same_after (unbind_slot-IsCleared ctx object i)
          (unbind_loop-IsSame object n (i + 1) (unbind_slot ctx object i) i (omega arith)))
  | inr other ↦ same_before (unbind_slot-IsSame ctx object i j other) (
      unbind_loop-IsCleared object n (i + 1) (unbind_slot ctx object i) j (past i j lo other)
        (omega arith))
]
  where
    past : (i j : ℕ) → i ≤ j → (i == j) ≡ false → i + 1 ≤ j
    past i j lo h = ground arith

cleared_address :
    (object : ℕ) (mb : Memblock) (a : ℕ)
    → a ≡ mb.base_address
    → cleared_addr object mb a ≡ (cleared object mb).base_address
cleared_address object mb a e = elim (Bool-cases (is_bound_to mb object)) [
  | inl bound ↦ rw bound refl
  | inr free ↦ rw free e
]

-- A memory block at the object whose index is the one of a binding by hand.
abbrev pub HoldsByHand : Memblock → ℕ → Type 0
HoldsByHand mb object = (mb.base_address ≡ object) × (mb.memblock_index ≡ 0xffffffff)

-- The slot of `ctx'` is the empty block where the one of `ctx` holds the object by hand, and the same
-- otherwise, and so is its register.
pub record IsUnbound (object : ℕ) (ctx ctx' : Context) (i : ℕ) : Type 0 where
  pub held :
      HoldsByHand (ctx.active_memblocks i) object
      → (ctx'.active_memblocks i ≡ empty_memblock) × (ctx'.addr i ≡ 0)
  pub other :
      ¬ HoldsByHand (ctx.active_memblocks i) object
      → (ctx'.active_memblocks i ≡ ctx.active_memblocks i) × (ctx'.addr i ≡ ctx.addr i)

is_bound_to_iff :
    (mb : Memblock) (object : ℕ) → (is_bound_to mb object ≡ true) ↔ HoldsByHand mb object
is_bound_to_iff mb object = (λ e. (ground arith, ground arith), λ h. ground (arith, h.0, h.1))

IsCleared-IsUnbound :
    {object : ℕ} {ctx ctx' : Context} {i : ℕ}
    → IsCleared object ctx ctx' i
    → IsUnbound object ctx ctx' i
IsCleared-IsUnbound {object} {ctx} {i = i} c =
    let mb = ctx.active_memblocks i in
    elim (Bool-cases (is_bound_to (ctx.active_memblocks i) object)) [
      | inl bound ↦ record {
        held = λ h. (c.block ∙ rw bound refl, c.register ∙ rw bound refl);
        other = λ n. absurd (n ((is_bound_to_iff mb object).0 bound));
      }
      | inr free ↦ record {
        held = λ h. absurd (true≢false (sym ((is_bound_to_iff mb object).1 h) ∙ free));
        other = λ n. (c.block ∙ rw free refl, c.register ∙ rw free refl);
      }
    ]

-- For an object that is not NULL, `unbind` clears the memory block and the address register of each
-- of the four slots whose block is at the object and has the index 0xffffffff of a binding by hand,
-- leaves the blocks and registers of the others as they are, and keeps registers and memory blocks
-- in step.
pub unbind-exact :
    (ctx : Context) (c : Coherent ctx) (object : ℕ)
    → object ≢ 0
    → Coherent (unbind ctx object) × ((i : ℕ) → i < 4 → IsUnbound object ctx (unbind ctx object) i)
unfolding unbind
unbind-exact ctx c object h = rw (not_null object h) (
  λ i b.
      (slot i b).register
      ∙ cleared_address object (ctx.active_memblocks i) (ctx.addr i) (c i b)
      ∙ ap (λ (m : Memblock). m.base_address) (sym (slot i b).block),
  λ i b. IsCleared-IsUnbound (slot i b),
)
  where
    not_null : (a : ℕ) → a ≢ 0 → (a == 0) ≡ false
    not_null zero h = absurd (h refl)
    not_null (suc a) h = ground arith

    slot : (i : ℕ) → i < 4 → IsCleared object ctx (unbind_loop object 4 0 ctx) i
    slot i b = unbind_loop-IsCleared object 4 0 ctx i (omega arith) (omega arith)
