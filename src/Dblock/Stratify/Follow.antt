-- ===== src/Dblock/Stratify/Follow.antt =====
-- What placing an outline does, and what follows a line: the entries below it, those after it.
use tactyk.Base.{
  ℕ, suc, ◌+◌, ◌≤◌, ◌<◌, ◌≡◌, refl, ap, ◌∙◌, arith, false, List, [], ◌∷◌, ◌++◌, none, ◌==◌,
}
use tactyk.Dblock.Stratify.{line, State, place_all}
use tactyk.Dblock.Stratify.Shape.{
  Outline, nil, entry, levels, size, Fits, first, Represents, Represents-frame,
}
use tactyk.Dblock.Stratify.Place.{Fresh, IsLast, distinct, distinct_above}

-- What placing the lines of `o`, indented by `d` and numbered from `n` on, does from `s` to `s'`.
pub record IsPlaced (d n : ℕ) (o : Outline) (s s' : State) : Type 0 where
  pub runs : (tail : List ℕ) → place_all s n (levels d o ++ tail) ≡ place_all s' (n + size o) tail
  pub represented : Represents s'.next s'.child n o
  pub fresh : Fresh s' (n + size o)
  pub level : (e : ℕ) → e ≤ d → e ≤ s.stack_index → e ≤ s'.stack_index
  pub below : (j : ℕ) → j < d → s'.db_stack j ≡ s.db_stack j

-- `o` comes after its peer, line `p`.
pub record AfterPeer (p d n : ℕ) (o : Outline) (s s' : State) : Type 0 where
  pub placed : IsPlaced d n o s s'
  pub linked : s'.next p ≡ first n o
  pub children : (j : ℕ) → j < n → s'.child j ≡ s.child j
  pub peers : (j : ℕ) → j < n → (p == j) ≡ false → s'.next j ≡ s.next j

-- `o` lies below line `p`.
pub record BelowParent (p d n : ℕ) (o : Outline) (s s' : State) : Type 0 where
  pub placed : IsPlaced d n o s s'
  pub linked : s'.child p ≡ first n o
  pub children : (j : ℕ) → j < n → (p == j) ≡ false → s'.child j ≡ s.child j
  pub peers : (j : ℕ) → j < n → s'.next j ≡ s.next j

abbrev pub Peers : Outline → Type 0
Peers o =
    (p d n : ℕ) (s : State)
    → Fits d o
    → Fresh s n
    → p < n
    → d ≤ s.stack_index
    → s.db_stack d ≡ line p
    → s.next p ≡ none
    → (s' : State) × AfterPeer p d n o s s'

abbrev pub Kids : Outline → Type 0
Kids o =
    (p d n : ℕ) (s : State)
    → Fits d o
    → Fresh s n
    → p < n
    → s.stack_index < d
    → s.outer ≡ p
    → s.db_stack s.stack_index ≡ line p
    → s.child p ≡ none
    → (s' : State) × BelowParent p d n o s s'

-- What follows a line that was placed: the entries below it, then those after it.
pub record IsFollowed (width d n : ℕ) (kids rest : Outline) (s s' : State) : Type 0 where
  pub runs :
      (tail : List ℕ)
      → place_all s (suc n) ((levels (d + suc width) kids ++ levels d rest) ++ tail)
        ≡ place_all s' (n + suc (size kids + size rest)) tail
  pub represented : Represents s'.next s'.child n (entry width kids rest)
  pub fresh : Fresh s' (n + suc (size kids + size rest))
  pub level : d ≤ s'.stack_index
  pub below : (j : ℕ) → j < d → s'.db_stack j ≡ s.db_stack j
  pub children : (j : ℕ) → j < n → s'.child j ≡ s.child j
  pub peers : (j : ℕ) → j < n → s'.next j ≡ s.next j

pub append_assoc : (xs ys zs : List ℕ) → (xs ++ ys) ++ zs ≡ xs ++ (ys ++ zs)
append_assoc [] ys zs = refl
append_assoc (x ∷ xs) ys zs = ap (λ l. x ∷ l) (append_assoc xs ys zs)

pub follow :
    (width d n : ℕ) (kids rest : Outline)
    → Kids kids
    → Peers rest
    → Fits (d + suc width) kids
    → Fits d rest
    → (s : State) → IsLast d n s
    → (s' : State) × IsFollowed width d n kids rest s s'
follow width d n kids rest below_it after_it fit_kids fit_rest s l =
    let (u, a) =
      below_it n (d + suc width) (suc n) s fit_kids l.fresh (omega arith) (omega (arith, l.index))
        l.last (ap s.db_stack l.index ∙ l.top) l.no_child in
    let (v, b) =
      after_it n d (suc n + size kids) u fit_rest a.placed.fresh (omega arith)
        (a.placed.level d (omega arith) (omega (arith, l.index)))
        (a.placed.below d (omega arith) ∙ l.top) (a.peers n (omega arith) ∙ l.no_next) in
    (
      v,
      record {
        runs = λ tail.
            ap (place_all s (suc n))
              (append_assoc (levels (d + suc width) kids) (levels d rest) tail)
            ∙ a.placed.runs (levels d rest ++ tail)
            ∙ b.placed.runs tail
            ∙ ap (λ (m : ℕ). place_all v m tail) (omega arith);
        represented = (
          b.children n (omega arith) ∙ a.linked,
          b.linked,
          Represents-frame u.next u.child v.next v.child (suc n) kids
              (λ j lo hi. b.peers j (omega arith) (distinct_above n j lo))
              (λ j lo hi. b.children j (omega arith)) a.placed.represented,
          b.placed.represented,
        );
        fresh = λ j h. b.placed.fresh j (omega arith);
        level =
            b.placed.level d (omega arith)
              (a.placed.level d (omega arith) (omega (arith, l.index)));
        below = λ j h. b.placed.below j h ∙ a.placed.below j (omega arith);
        children = λ j h. b.children j (omega arith) ∙ a.children j (omega arith) (distinct n j h);
        peers = λ j h. b.peers j (omega arith) (distinct n j h) ∙ a.peers j (omega arith);
      },
    )

pub nothing-IsPlaced : (d n : ℕ) (s : State) → Fresh s n → IsPlaced d n nil s s
nothing-IsPlaced d n s fresh = record {
  runs = λ tail. ap (λ (m : ℕ). place_all s m tail) (omega arith);
  represented = tt;
  fresh = λ j h. fresh j (omega arith);
  level = λ e h k. k;
  below = λ j h. refl;
}
