-- ===== src/Dblock/Stratify/Links.antt =====
-- stratify links the lines of an outline as the outline says.
use tactyk.Base.{
  ℕ, suc, ◌+◌, ◌≤◌, ◌<◌, ◌≡◌, refl, sym, ap, ◌∙◌, arith, Bool, true, List, [], ◌∷◌, ◌++◌, some,
  if◌then◌else◌, length, length-append,
}
use tactyk.Dblock.Block.{Block}
use tactyk.Dblock.Stratify.{
  line, State, Result, ok, then_do, unwind, place, place_all, start, levels_of, stratify_levels,
  stratify,
}
use tactyk.Dblock.Stratify.Shape.{
  Outline, nil, entry, levels, size, Fits, Represents, length-levels,
}
use tactyk.Dblock.Stratify.Place.{
  distinct, same_index, other_index, below_limit, peer_linked, place-peer, peer_linked-IsLast,
  unwound_below, child_linked, child_linked-IsLast, place-child, start-IsLast,
}
use tactyk.Dblock.Stratify.Follow.{Peers, Kids, follow, nothing-IsPlaced}

place_all-step :
    (s t : State) (n d : ℕ) (more : List ℕ)
    → place s n d ≡ ok t
    → place_all s n (d ∷ more) ≡ place_all t (suc n) more
unfolding place_all
place_all-step s t n d more e = ap (λ r. then_do r (λ t. place_all t (suc n) more)) e

after_peer :
    (width : ℕ) (kids rest : Outline) → Kids kids → Peers rest → Peers (entry width kids rest)
after_peer width kids rest below_it after_it p d n s (fit, fit_kids, fit_rest) fresh lt le e bare =
    let t = peer_linked s p d n in
    let (v, f) =
      follow width d n kids rest below_it after_it fit_kids fit_rest t
        (peer_linked-IsLast s p d n fresh lt) in
    (
      v,
      record {
        placed = record {
          runs = λ tail. place_all-step s t n d _ (place-peer s p d n fit le e) ∙ f.runs tail;
          represented = f.represented;
          fresh = f.fresh;
          level = λ i h k. omega (arith, f.level, h);
          below = λ j h.
              f.below j h
              ∙ other_index (unwind s.db_stack d s.stack_index) d j (line n) (distinct d j h)
              ∙ unwound_below s.db_stack d s.stack_index j h;
        };
        linked = f.peers p lt ∙ same_index s.next p (some n);
        children = f.children;
        peers = λ j h k. f.peers j h ∙ other_index s.next p j (some n) k;
      },
    )

below_parent :
    (width : ℕ) (kids rest : Outline) → Kids kids → Peers rest → Kids (entry width kids rest)
below_parent width kids rest below_it after_it p d n s (fit, fit_kids, fit_rest) fresh lt le o e
      bare =
    let t = child_linked s p d n in
    let (v, f) =
      follow width d n kids rest below_it after_it fit_kids fit_rest t
        (child_linked-IsLast s p d n fresh lt) in
    (
      v,
      record {
        placed = record {
          runs =
              λ tail. place_all-step s t n d _ (place-child s p d n fit le o e bare) ∙ f.runs tail;
          represented = f.represented;
          fresh = f.fresh;
          level = λ i h k. omega (arith, f.level, h);
          below = λ j h. f.below j h ∙ other_index s.db_stack d j (line n) (distinct d j h);
        };
        linked = f.children p lt ∙ same_index s.child p (some n);
        children = λ j h k. f.children j h ∙ other_index s.child p j (some n) k;
        peers = f.peers;
      },
    )

-- Every outline is placed, below a parent and after a peer.
outline-placed : (o : Outline) → Kids o × Peers o
outline-placed nil = (
  λ p d n s fit fresh lt le q e bare. (
    s,
    record {
      placed = nothing-IsPlaced d n s fresh;
      linked = bare;
      children = λ j h k. refl;
      peers = λ j h. refl;
    },
  ),
  λ p d n s fit fresh lt le e bare. (
    s,
    record {
      placed = nothing-IsPlaced d n s fresh;
      linked = bare;
      children = λ j h. refl;
      peers = λ j h k. refl;
    },
  ),
)
outline-placed (entry width kids rest) =
    let k = outline-placed kids in
    let r = outline-placed rest in
    (below_parent width kids rest k.0 r.1, after_peer width kids rest k.0 r.1)

stratify_levels-start :
    (d : ℕ) (ls : List ℕ)
    → d < 256
    → 1 ≤ length ls
    → stratify_levels (d ∷ ls) ≡ place_all (start d) 1 ls
unfolding stratify_levels
stratify_levels-start d [] h k = absurd (omega arith)
stratify_levels-start d (l ∷ ls) h k = rw (below_limit d h) refl

append_nil : (xs : List ℕ) → xs ++ [] ≡ xs
append_nil [] = refl
append_nil (x ∷ xs) = ap (λ l. x ∷ l) (append_nil xs)

stratify_levels-Represents :
    (width d : ℕ) (kids rest : Outline)
    → Fits d (entry width kids rest)
    → 1 ≤ size kids + size rest
    → (s : State) × (stratify_levels (levels d (entry width kids rest)) ≡ ok s)
      × Represents s.next s.child 0 (entry width kids rest)
unfolding place_all
stratify_levels-Represents width d kids rest (fit, fit_kids, fit_rest) more =
    let ls = levels (d + suc width) kids ++ levels d rest in
    let (v, f) =
      follow width d 0 kids rest (outline-placed kids).0 (outline-placed rest).1 fit_kids fit_rest
        (start d) (start-IsLast d) in
    (
      v,
      stratify_levels-start d ls fit (
            omega (
              arith,
              length-append (levels (d + suc width) kids) (levels d rest),
              length-levels (d + suc width) kids,
              length-levels d rest,
            ))
          ∙ ap (place_all (start d) 1) (sym (append_nil ls))
          ∙ f.runs [],
      f.represented,
    )

-- When the indentations of two or more lines are those of an outline, all below 256, and the first
-- block is fixed: `stratify` returns, and the pointers that it leaves represent the outline: every
-- line links to the first line below it and to the next line of its level, to NULL where there is
-- none.
pub stratify-Represents :
    (space : ℕ) (b : Block) (bs : List Block) (width d : ℕ) (kids rest : Outline)
    → b.fixed ≡ true
    → levels_of space (b ∷ bs) ≡ levels d (entry width kids rest)
    → Fits d (entry width kids rest)
    → 1 ≤ size kids + size rest
    → (s : State) × (stratify (b ∷ bs) space ≡ ok s)
      × Represents s.next s.child 0 (entry width kids rest)
unfolding stratify
stratify-Represents space b bs width d kids rest fixed same fits more =
    let (s, e, r) = stratify_levels-Represents width d kids rest fits more in
    (s, guard b.fixed _ _ fixed ∙ ap stratify_levels same ∙ e, r)
  where
    guard : (f : Bool) (x y : Result) → f ≡ true → (if f then x else y) ≡ x
    guard f x y h = rw h refl
