-- ===== src/Pl/Walk/Visits.antt =====
-- The walk with its stack is the plain recursion over the hierarchy of lines.
use mathlib.Core.Option
use tactyk.Base.{
  ℕ, zero, suc, ◌+◌, ◌-◌, ◌≤◌, ◌<◌, ◌≡◌, inl, inr, refl, sym, ap, ◌∙◌, arith, Bool, true, false,
  List, [], ◌∷◌, Option, none, some, leb, if◌then◌else◌, length, Bool-cases, Option-cases,
}
use tactyk.Dblock.Block.{Block, DBlock, null, node, Slots}
use tactyk.Dblock.Table.{Table}
use tactyk.Pl.Walk.{
  Emitter, stack_size, is_there, unwind, advance, walk, lines_of, handle_dbcode, load_dblock,
}

module _ {ℓ} {C : Type ℓ} (handle : DBlock → C → Option (C × Bool)) (push : C → Option C)
    (pop : C → C) where
  -- Every line is handled, then, unless it keeps them to itself, the lines below it between a push
  -- and a pop, then its peers. `levels` is how many levels of lines may be below.
  -- the lines below a line
  unfoldable pub visit_below : ℕ → DBlock → Bool → C → (C → Option C) → Option C
  visit_below levels child true c go = some c
  visit_below levels null false c go = some c
  visit_below zero (node b s next child token store) false c go = none
  visit_below (suc levels) (node b s next child token store) false c go =
      Option.map pop (Option.bind (push c) go)

  unfoldable pub visit : DBlock → ℕ → C → Option C
  visit null levels c = some c
  visit (node b s next child token store) levels c =
      Option.bind (handle (node b s next child token store) c) (λ r.
        Option.bind (visit_below levels child r.1 r.0 (visit child (levels - 1)))
          (visit next levels))

  abbrev peers_behind : DBlock → DBlock
  peers_behind null = null
  peers_behind (node b s next child token store) = next

  -- what is left to visit behind the lines on the stack
  abbrev finish : List DBlock → C → Option C
  finish [] c = some c
  finish (d ∷ stack) c =
      Option.bind (visit (peers_behind d) (stack_size - length stack) (pop c)) (finish stack)

  -- how many lines that is
  abbrev pending : List DBlock → ℕ
  pending [] = 0
  pending (d ∷ stack) = lines_of (peers_behind d) + pending stack

  abbrev IsStack : List DBlock → Type 0
  IsStack [] = Unit
  IsStack (null ∷ stack) = ⊥
  IsStack (node b s next child token store ∷ stack) = IsStack stack

  abbrev Agrees : ℕ → Type ℓ
  Agrees fuel =
      (stack : List DBlock) (b : Block) (s : Slots) (next child token store : DBlock) (c : C)
      → IsStack stack
      → length stack ≤ stack_size
      → suc (lines_of child + lines_of next) + pending stack < fuel
      → walk handle push pop fuel stack (node b s next child token store) c
        ≡ Option.bind (visit (node b s next child token store) (stack_size - length stack) c)
            (finish stack)

  unwind-finish :
      (fuel : ℕ)
      → Agrees fuel
      → (stack : List DBlock) (c : C) → IsStack stack
      → length stack ≤ stack_size
      → pending stack < fuel
      → unwind handle push pop (walk handle push pop fuel) stack c ≡ finish stack c
  unfolding unwind visit Option.bind
  unwind-finish fuel agrees [] c h fits enough = refl
  unwind-finish fuel agrees (null ∷ stack) c h fits enough = absurd h
  unwind-finish fuel agrees (node b s null child token store ∷ stack) c h fits enough =
      unwind-finish fuel agrees stack (pop c) h (omega arith) (omega arith)
  unwind-finish fuel agrees (node b s (node b' s' n' c' t' st') child token store ∷ stack) c h fits
        enough =
      agrees stack b' s' n' c' t' st' (pop c) h (omega arith) (omega arith)

  -- onward, or back where there is no next line
  onward-visit :
      (fuel : ℕ)
      → Agrees fuel
      → (stack : List DBlock) (next : DBlock) (c : C) → IsStack stack
      → length stack ≤ stack_size
      → lines_of next + pending stack < fuel
      → (if is_there next
          then walk handle push pop fuel stack next c
          else unwind handle push pop (walk handle push pop fuel) stack c)
        ≡ Option.bind (visit next (stack_size - length stack) c) (finish stack)
  unfolding visit Option.bind
  onward-visit fuel agrees stack null c h fits enough =
      unwind-finish fuel agrees stack c h fits (omega arith)
  onward-visit fuel agrees stack (node b s next child token store) c h fits enough =
      agrees stack b s next child token store c h fits (omega arith)

  pop-first :
      {B : Type ℓ} (o : Option C) (v : C → Option C) (f : C → Option B)
      → Option.bind o (λ x. Option.bind (v (pop x)) f)
        ≡ Option.bind (Option.bind (Option.map pop o) v) f
  unfolding Option.bind
  pop-first none v f = refl
  pop-first (some x) v f = refl

  -- a level down, where the codeblock could be pushed
  down-visit :
      (fuel : ℕ)
      → Agrees fuel
      → (stack : List DBlock) (b : Block) (s : Slots) (next : DBlock) (b' : Block) (s' : Slots)
        (n' c' t' st' token store : DBlock) (pushed : Option C)
      → IsStack stack
      → suc (length stack) ≤ stack_size
      → suc (lines_of c' + lines_of n') + (lines_of next + pending stack) < fuel
      → Option.bind pushed (
          walk handle push pop fuel
            (node b s next (node b' s' n' c' t' st') token store ∷ stack)
            (node b' s' n' c' t' st'))
        ≡ Option.bind
            (Option.bind
              (Option.map pop (
                Option.bind pushed
                  (visit (node b' s' n' c' t' st') (stack_size - suc (length stack)))))
              (visit next (stack_size - length stack)))
            (finish stack)
  unfolding Option.bind
  down-visit fuel agrees stack b s next b' s' n' c' t' st' token store none h fits enough = refl
  down-visit fuel agrees stack b s next b' s' n' c' t' st' token store (some c) h fits enough =
      agrees (node b s next (node b' s' n' c' t' st') token store ∷ stack) b' s' n' c' t' st' c h
        fits enough
      ∙ pop-first (visit (node b' s' n' c' t' st') (stack_size - suc (length stack)) c)
          (visit next (stack_size - length stack)) (finish stack)

  advance-visit :
      (fuel : ℕ)
      → Agrees fuel
      → (stack : List DBlock) (b : Block) (s : Slots) (next child token store : DBlock)
        (escape : Bool) (c : C)
      → IsStack stack
      → length stack ≤ stack_size
      → lines_of child + lines_of next + pending stack < fuel
      → advance handle push pop
          (walk handle push pop fuel)
          stack
          (node b s next child token store)
          (c, escape)
        ≡ Option.bind
            (Option.bind
              (visit_below
                (stack_size - length stack)
                child
                escape
                c
                (visit child (stack_size - length stack - 1)))
              (visit next (stack_size - length stack)))
            (finish stack)
  unfolding advance visit visit_below Option.bind
  advance-visit fuel agrees stack b s next child token store true c h fits enough =
      onward-visit fuel agrees stack next c h fits (omega arith)
  advance-visit fuel agrees stack b s next null token store false c h fits enough =
      onward-visit fuel agrees stack next c h fits (omega arith)
  advance-visit fuel agrees stack b s next (node b' s' n' c' t' st') token store false c h fits
        enough =
      elim (Bool-cases (leb stack_size (length stack))) [
        | inl full ↦ rw (full) (
            sym (
              ap
                (λ o.
                  Option.bind (Option.bind o (visit next (stack_size - length stack)))
                    (finish stack))
                (nothing_below _ (no_level (length stack) full))))
        | inr free ↦ rw (free) (
            down-visit fuel agrees stack b s next b' s' n' c' t' st' token store (push c) h
              (one_more (length stack) free) (omega arith)
            ∙ ap
                (λ o.
                  Option.bind (Option.bind o (visit next (stack_size - length stack)))
                    (finish stack))
                (sym (below _ _ (level (length stack) free))))
      ]
    where
      nothing_below :
          (m : ℕ)
          → m ≡ 0
          → visit_below m
              (node b' s' n' c' t' st')
              false
              c
              (visit (node b' s' n' c' t' st') (m - 1))
            ≡ none
      nothing_below m e =
          ap
            (λ (k : ℕ).
              visit_below k (node b' s' n' c' t' st') false c
                (visit (node b' s' n' c' t' st') (k - 1)))
            e

      no_level : (n : ℕ) → leb stack_size n ≡ true → stack_size - n ≡ 0
      no_level n e = ground arith

      one_more : (n : ℕ) → leb stack_size n ≡ false → suc n ≤ stack_size
      one_more n e = ground arith

      level : (n : ℕ) → leb stack_size n ≡ false → stack_size - n ≡ suc (stack_size - suc n)
      level n e = ground arith

      back : (n : ℕ) → suc n - 1 ≡ n
      back n = omega arith

      below :
          (m n : ℕ)
          → m ≡ suc n
          → visit_below m
              (node b' s' n' c' t' st')
              false
              c
              (visit (node b' s' n' c' t' st') (m - 1))
            ≡ Option.map pop (Option.bind (push c) (visit (node b' s' n' c' t' st') n))
      below m n e =
          ap
            (λ (k : ℕ).
              visit_below k (node b' s' n' c' t' st') false c
                (visit (node b' s' n' c' t' st') (k - 1)))
            e
          ∙ ap
              (λ (k : ℕ). Option.map pop (Option.bind (push c) (visit (node b' s' n' c' t' st') k)))
              (back n)

  walk-visit : (fuel : ℕ) → Agrees fuel
  unfolding walk visit Option.bind
  walk-visit zero stack b s next child token store c h fits enough = absurd (omega arith)
  walk-visit (suc fuel) stack b s next child token store c h fits enough =
      elim (Option-cases (handle (node b s next child token store) c)) [
        | inl stopped ↦ rw (stopped) refl
        | inr ((c', escape), e) ↦ rw (e) (
            advance-visit fuel (walk-visit fuel) stack b s next child token store escape c' h fits
              (omega arith))
      ]

bind-some {ℓ} : {C : Type ℓ} (o : Option C) → Option.bind o some ≡ o
unfolding Option.bind
bind-some none = refl
bind-some (some c) = refl

-- load_dblock, for any emitter, table of directives and program, is the recursion over the hierarchy
-- of lines that handles a line, then the lines below it between a push and a pop of a codeblock,
-- unless there are none or the directive keeps them, then the lines behind it; it fails where an
-- operation fails, and where lines are nested more than 256 levels below the first.
pub load_dblock-visit {ℓ} :
    {C : Type ℓ} (emit : Emitter C) (tkpl_funcs : Table) (dbcode : DBlock) (c : C)
    → load_dblock emit tkpl_funcs dbcode c
      ≡ visit
          (handle_dbcode emit tkpl_funcs)
          emit.push_codeblock
          emit.pop_codeblock
          dbcode
          stack_size
          c
unfolding load_dblock walk visit
load_dblock-visit emit tkpl_funcs null c = refl
load_dblock-visit emit tkpl_funcs (node b s next child token store) c =
    walk-visit (handle_dbcode emit tkpl_funcs) emit.push_codeblock emit.pop_codeblock
      (suc (lines_of (node b s next child token store))) [] b s next child token store c tt
      (omega arith) (omega arith)
    ∙ bind-some _
