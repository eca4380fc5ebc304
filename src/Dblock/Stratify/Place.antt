-- ===== src/Dblock/Stratify/Place.antt =====
-- Placing one line: the state after it is linked to its peer or to its parent.
use tactyk.Base.{
  ℕ, suc, ◌≤◌, ◌<◌, ◌≡◌, refl, ap, ◌∙◌, arith, Bool, true, false, none, some, leb, ltb, ◌==◌,
  ==_iff, if◌then◌else◌,
}
use tactyk.Dblock.Stratify.{
  Slot, line, State, Result, ok, write, unwind, link_peer, has_child, is_line, link_child, place,
  start,
}

-- The lines from `n` on have no pointers yet.
abbrev pub Fresh : State → ℕ → Type 0
Fresh s n = (j : ℕ) → n ≤ j → (s.next j ≡ none) × (s.child j ≡ none)

-- Line `n` was placed at level `d`.
pub record IsLast (d n : ℕ) (s : State) : Type 0 where
  pub index : s.stack_index ≡ d
  pub last : s.outer ≡ n
  pub top : s.db_stack d ≡ line n
  pub fresh : Fresh s (suc n)
  pub no_next : s.next n ≡ none
  pub no_child : s.child n ≡ none

pub distinct : (a b : ℕ) → b < a → (a == b) ≡ false
distinct a b h = ground arith

pub distinct_above : (a b : ℕ) → suc a ≤ b → (a == b) ≡ false
distinct_above a b h = ground arith

pub same_index {ℓ} : {A : Type ℓ} (f : ℕ → A) (i : ℕ) (a : A) → write f i a i ≡ a
same_index f i a = rw ((==_iff i i).1 refl) refl

pub other_index {ℓ} :
    {A : Type ℓ} (f : ℕ → A) (i j : ℕ) (a : A) → (i == j) ≡ false → write f i a j ≡ f j
other_index f i j a h = rw h refl

pub below_limit : (d : ℕ) → d < 256 → leb 256 d ≡ false
below_limit d h = ground arith

-- the state after line `n` is linked to its peer `p`
abbrev pub peer_linked : State → ℕ → ℕ → ℕ → State
peer_linked s p d n = record s {
  next = write s.next p (some n);
  db_stack = write (unwind s.db_stack d s.stack_index) d (line n);
  stack_index = d;
  outer = n;
}

pub place-peer :
    (s : State) (p d n : ℕ)
    → d < 256
    → d ≤ s.stack_index
    → s.db_stack d ≡ line p
    → place s n d ≡ ok (peer_linked s p d n)
unfolding place link_peer
place-peer s p d n h le e =
    branch (leb 256 d) (leb d s.stack_index) _ _ _ (below_limit d h) (within d s.stack_index le)
    ∙ ap (link_peer s d n) e
  where
    within : (a b : ℕ) → a ≤ b → leb a b ≡ true
    within a b h = ground arith

    branch :
        (b c : Bool) (x y z : Result)
        → b ≡ false
        → c ≡ true
        → (if b then x else if c then y else z) ≡ y
    branch b c x y z p q = rw (p, q) refl

pub peer_linked-IsLast :
    (s : State) (p d n : ℕ) → Fresh s n → p < n → IsLast d n (peer_linked s p d n)
peer_linked-IsLast s p d n fresh h = record {
  index = refl;
  last = refl;
  top = same_index (unwind s.db_stack d s.stack_index) d (line n);
  fresh = λ j k. (
    other_index s.next p j (some n) (distinct_above p j (omega arith)) ∙ (fresh j (omega arith)).0,
    (fresh j (omega arith)).1,
  );
  no_next = other_index s.next p n (some n) (distinct_above p n h) ∙ (fresh n (omega arith)).0;
  no_child = (fresh n (omega arith)).1;
}

pub unwound_below :
    (stack : ℕ → Slot) (level top j : ℕ) → j < level → unwind stack level top j ≡ stack j
unwound_below stack level top j h = rw (not_above level j h) refl
  where
    not_above : (a b : ℕ) → b < a → ltb a b ≡ false
    not_above a b h = ground arith

-- the state after line `n` is linked to its parent `p`
abbrev pub child_linked : State → ℕ → ℕ → ℕ → State
child_linked s p d n = record s {
  child = write s.child p (some n);
  db_stack = write s.db_stack d (line n);
  stack_index = d;
  outer = n;
}

pub link_child-parent :
    (s : State) (p d n : ℕ)
    → s.outer ≡ p
    → s.db_stack s.stack_index ≡ line p
    → s.child p ≡ none
    → link_child s d n ≡ ok (child_linked s p d n)
unfolding link_child
link_child-parent s p d n o e c =
    branch (has_child (s.child s.outer)) (is_line (s.db_stack s.stack_index) s.outer) _ _ _
      (ap (λ (q : ℕ). has_child (s.child q)) o ∙ ap has_child c)
      (ap (λ (q : Slot). is_line q s.outer) e ∙ ap (λ (q : ℕ). p == q) o ∙ (==_iff p p).1 refl)
    ∙ ap (λ (q : ℕ). ok (child_linked s q d n)) o
  where
    branch :
        (b c : Bool) (x y z : Result)
        → b ≡ false
        → c ≡ true
        → (if b then x else if c then y else z) ≡ y
    branch b c x y z p q = rw (p, q) refl

pub child_linked-IsLast :
    (s : State) (p d n : ℕ) → Fresh s n → p < n → IsLast d n (child_linked s p d n)
child_linked-IsLast s p d n fresh h = record {
  index = refl;
  last = refl;
  top = same_index s.db_stack d (line n);
  fresh = λ j k. (
    (fresh j (omega arith)).0,
    other_index s.child p j (some n) (distinct_above p j (omega arith)) ∙ (fresh j (omega arith)).1,
  );
  no_next = (fresh n (omega arith)).0;
  no_child = other_index s.child p n (some n) (distinct_above p n h) ∙ (fresh n (omega arith)).1;
}

pub place-child :
    (s : State) (p d n : ℕ)
    → d < 256
    → s.stack_index < d
    → s.outer ≡ p
    → s.db_stack s.stack_index ≡ line p
    → s.child p ≡ none
    → place s n d ≡ ok (child_linked s p d n)
unfolding place
place-child s p d n h lt o e c =
    branch (leb 256 d) (leb d s.stack_index) _ _ _ (below_limit d h) (outside d s.stack_index lt)
    ∙ link_child-parent s p d n o e c
  where
    outside : (a b : ℕ) → b < a → leb a b ≡ false
    outside a b h = ground arith

    branch :
        (b c : Bool) (x y z : Result)
        → b ≡ false
        → c ≡ false
        → (if b then x else if c then y else z) ≡ z
    branch b c x y z p q = rw (p, q) refl

pub start-IsLast : (d : ℕ) → IsLast d 0 (start d)
start-IsLast d = record {
  index = refl;
  last = refl;
  top = same_index (λ j. Slot.unset) d (line 0);
  fresh = λ j h. (refl, refl);
  no_next = refl;
  no_child = refl;
}
