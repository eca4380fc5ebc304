-- ===== src/Dblock/Text/Grow.antt =====
-- tactyk_dblock__expand: the new capacity is enough and not twice too much, and the content stays.
use tactyk.Base.{
  ℕ, zero, suc, ◌*◌, ◌^◌, ◌≤◌, ◌<◌, ◌≡◌, ◌⊎◌, inl, inr, refl, ap, ◌∙◌, arith, true, false, List, [],
  ◌∷◌, some, leb, ltb, ltb→lt, ◌==◌, ◌&&◌, if◌then◌else◌, Bool-cases, take, length, replicate,
  length-replicate,
}
use native.Mathlib.Nat.{pow-suc}
use tactyk.Base.Words.{mul64}
use tactyk.Dblock.Block.{Block}
use tactyk.Dblock.Persist.{memcpy}
use tactyk.Dblock.Text.{grow, expand, content}

-- With enough rounds the loop ends, at a capacity that is enough, and that is the one at the start
-- or less than twice what is needed.
pub grow_ends :
    (fuel capacity min_length : ℕ)
    → min_length ≤ capacity * 2 ^ fuel
    → min_length ≤ 2 ^ 63
    → (r : ℕ) × (grow (suc fuel) capacity min_length ≡ some r)
      × (min_length ≤ r)
      × ((r ≡ capacity) ⊎ (r < 2 * min_length))
unfolding grow
grow_ends zero capacity min_length h b = (capacity, ground arith, omega arith, inl refl)
grow_ends (suc fuel) capacity min_length h b = elim (Bool-cases (ltb capacity min_length)) [
  | inl small ↦
      let lt : capacity < min_length = ltb→lt _ _ small in
      let twice : mul64 capacity 2 ≡ 2 * capacity = omega arith in
      let (r, e, le, d) =
        grow_ends fuel (mul64 capacity 2) min_length
          (omega (
            arith,
            twice,
            ap (λ (t : ℕ). t * 2 ^ fuel) twice,
            ap (λ (t : ℕ). capacity * t) (pow-suc 2 fuel),
          ))
          b in
      (r, rw small e, le, ground (arith, twice))
  | inr enough ↦ (capacity, rw enough refl, ground arith, inl refl)
]

-- A block that text may be appended to: its content lies in its memory, it is not fixed, and its
-- memory has the size of its capacity if it is its own.
pub record IsText (d : Block) : Type 0 where
  pub within : d.length ≤ d.capacity
  pub fits : d.length ≤ length d.bytes
  pub owned : d.self_managed ≡ true → length d.bytes ≡ d.capacity
  pub mutable : d.fixed ≡ false

pub length-memcpy : (n : ℕ) (dest source : List ℕ) → length (memcpy n dest source) ≡ length dest
unfolding memcpy
length-memcpy zero dest source = refl
length-memcpy (suc n) [] source = refl
length-memcpy (suc n) (d ∷ dest) [] = ap suc (length-memcpy n dest [])
length-memcpy (suc n) (d ∷ dest) (s ∷ source) = ap suc (length-memcpy n dest source)

pub take-memcpy :
    (n : ℕ) (dest source : List ℕ)
    → n ≤ length dest
    → n ≤ length source
    → take n (memcpy n dest source) ≡ take n source
unfolding memcpy
take-memcpy zero dest source h i = refl
take-memcpy (suc n) [] source h i = absurd (omega arith)
take-memcpy (suc n) (d ∷ dest) [] h i = absurd (omega arith)
take-memcpy (suc n) (d ∷ dest) (s ∷ source) h i =
    ap (λ l. s ∷ l) (take-memcpy n dest source (omega arith) (omega arith))

-- `d'` has the content of `d` in its own memory of at least `min_length` bytes.
pub record IsExpanded (d : Block) (min_length : ℕ) (d' : Block) : Type 0 where
  pub text : IsText d'
  pub same_length : d'.length ≡ d.length
  pub same_content : content d' ≡ content d
  pub enough : min_length ≤ d'.capacity
  pub managed : d'.self_managed ≡ true
  pub frugal :
      (d'.capacity ≡ d.capacity) ⊎ (d'.capacity < 2 * min_length) ⊎ (d'.capacity ≡ min_length)

larger-IsExpanded :
    (d : Block) (min_length r : ℕ)
    → IsText d
    → min_length ≤ r
    → d.length ≤ min_length
    → (r ≡ d.capacity) ⊎ (r < 2 * min_length) ⊎ (r ≡ min_length)
    → IsExpanded d min_length (record d {
      capacity = r;
      bytes = memcpy d.length (replicate r 0) d.bytes;
      self_managed = true;
    })
larger-IsExpanded d min_length r t le fit f =
    let size : length (memcpy d.length (replicate r 0) d.bytes) ≡ r =
      length-memcpy d.length (replicate r 0) d.bytes ∙ length-replicate r 0 in
    record {
      text = record {
        within = omega arith;
        fits = omega (arith, size);
        owned = λ e. size;
        mutable = t.mutable;
      };
      same_length = refl;
      same_content =
          take-memcpy d.length (replicate r 0) d.bytes (omega (arith, length-replicate {A = ℕ} r 0))
            t.fits;
      enough = le;
      managed = refl;
      frugal = f;
    }

start_enough :
    (capacity min_length : ℕ)
    → min_length ≤ 2 ^ 63
    → min_length ≤ (if capacity == 0 then min_length else capacity) * 2 ^ 64
start_enough capacity min_length b = ground arith

start_frugal :
    (capacity min_length r : ℕ)
    → (r ≡ (if capacity == 0 then min_length else capacity)) ⊎ (r < 2 * min_length)
    → (r ≡ capacity) ⊎ (r < 2 * min_length) ⊎ (r ≡ min_length)
start_frugal capacity min_length r (inl e) = elim (Bool-cases (capacity == 0)) [
  | inl zero_yet ↦ inr (inr (e ∙ rw zero_yet refl))
  | inr some_yet ↦ inl (e ∙ rw some_yet refl)
]
start_frugal capacity min_length r (inr lt) = inr (inl lt)

-- A length of at most 2 ^ 63 that holds the content: no assertion fails, the loop ends.
pub expand-IsExpanded :
    {d : Block} (t : IsText d) (min_length : ℕ)
    → min_length ≤ 2 ^ 63
    → d.length ≤ min_length
    → (d' : Block) × (expand d min_length ≡ some d') × IsExpanded d min_length d'
unfolding expand
expand-IsExpanded {d} t min_length b fit =
    elim (Bool-cases (d.self_managed && leb min_length d.capacity)) [
      | inl roomy ↦ (
        d,
        rw (t.mutable, roomy) refl,
        record {
          text = t;
          same_length = refl;
          same_content = refl;
          enough = ground arith;
          managed = ground arith;
          frugal = inl refl;
        },
      )
      | inr tight ↦
          let (r, e, le, f) =
            grow_ends 64 (if d.capacity == 0 then min_length else d.capacity) min_length
              (start_enough d.capacity min_length b) b in
          (
            record d {
              capacity = r;
              bytes = memcpy d.length (replicate r 0) d.bytes;
              self_managed = true;
            },
            rw (t.mutable, tight) (rw e refl),
            larger-IsExpanded d min_length r t le fit (start_frugal d.capacity min_length r f),
          )
    ]
