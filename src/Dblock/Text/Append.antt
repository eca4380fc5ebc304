-- ===== src/Dblock/Text/Append.antt =====
-- The append family: every operation puts its bytes behind the content, counts and hashes them.
use Prim.Native.Nat.{min}
use mathlib.Core.Option.{some-injective}
use tactyk.Base.{
  ℕ, zero, suc, ◌+◌, ◌-◌, ◌^◌, ◌≤◌, ◌<◌, ◌≡◌, refl, sym, ap, ◌∙◌, subst, arith, true, List, [], ◌∷◌,
  ◌++◌, some, take, drop, length,
}
use tactyk.Dblock.Block.{Block}
use tactyk.Dblock.Hash.{hash_bytes, update_hash}
use tactyk.Dblock.Persist.{memcpy}
use tactyk.Dblock.Text.{write_at, append_bytes, content, clip}
use tactyk.Dblock.Text.Grow.{IsText, IsExpanded, expand-IsExpanded, length-memcpy, take-memcpy}

pub take-length : {A : Type 0} (xs : List A) → take (length xs) xs ≡ xs
take-length [] = refl
take-length (x ∷ xs) = ap (λ l. x ∷ l) (take-length xs)

take_count : {A : Type 0} (m n : ℕ) (xs : List A) → m ≡ n → take m xs ≡ take n xs
take_count m n xs e = ap (λ (k : ℕ). take k xs) e

length-write_at :
    (dest : List ℕ) (at : ℕ) (source : List ℕ) → length (write_at dest at source) ≡ length dest
unfolding write_at
length-write_at dest zero source = length-memcpy (length source) dest source
length-write_at [] (suc at) source = refl
length-write_at (d ∷ dest) (suc at) source = ap suc (length-write_at dest at source)

take-write_at :
    (dest : List ℕ) (at : ℕ) (source : List ℕ)
    → at + length source ≤ length dest
    → take (at + length source) (write_at dest at source) ≡ take at dest ++ source
unfolding write_at
take-write_at dest zero source h =
    ap (λ (n : ℕ). take n (memcpy (length source) dest source)) (omega arith)
    ∙ take-memcpy (length source) dest source (omega (arith, h)) (omega arith)
    ∙ take-length source
take-write_at [] (suc at) source h = absurd (omega arith)
take-write_at (d ∷ dest) (suc at) source h =
    take_count (suc at + length source) (suc (at + length source)) (d ∷ write_at dest at source)
      (omega arith)
    ∙ ap (λ l. d ∷ l) (take-write_at dest at source (omega arith))

-- `d'` is `d` with `source` behind its content, and with the hash code of what it holds.
pub record IsAppended (d : Block) (source : List ℕ) (d' : Block) : Type 0 where
  pub text : IsText d'
  pub content_lem : content d' ≡ content d ++ source
  pub length_lem : d'.length ≡ d.length + length source
  pub hashed : d'.hashcode ≡ hash_bytes d'.length d'.bytes

write_at-IsAppended :
    (d e : Block) (source : List ℕ)
    → IsExpanded d (d.length + length source) e
    → IsAppended d source (
        update_hash (record e {
          bytes = write_at e.bytes e.length source;
          length = d.length + length source;
        }))
unfolding update_hash
write_at-IsAppended d e source x =
    let own : length e.bytes ≡ e.capacity = x.text.owned x.managed in
    let size = length-write_at e.bytes e.length source in
    let same = x.same_length in
    let room = x.enough in
    record {
      text = record {
        within = room;
        fits = omega (arith, size, own, room);
        owned = λ m. size ∙ own;
        mutable = x.text.mutable;
      };
      content_lem =
          ap (λ (n : ℕ). take (n + length source) (write_at e.bytes e.length source)) (sym same)
          ∙ take-write_at e.bytes e.length source (omega (arith, own, same, room))
          ∙ ap (λ (l : List ℕ). l ++ source) x.same_content;
      length_lem = refl;
      hashed = refl;
    }

pub append_bytes-IsAppended :
    {d : Block} (t : IsText d) (source : List ℕ)
    → d.length + length source ≤ 2 ^ 63
    → (d' : Block) × (append_bytes d source ≡ some d') × IsAppended d source d'
unfolding append_bytes
append_bytes-IsAppended {d} t source b =
    let (e, eq, x) = expand-IsExpanded t (d.length + length source) b (omega arith) in
    (
      update_hash (record e {
        bytes = write_at e.bytes e.length source;
        length = d.length + length source;
      }),
      rw eq refl,
      write_at-IsAppended d e source x,
    )

-- The text owns its memory from then on.
pub append_bytes-managed :
    {d : Block} (t : IsText d) (source : List ℕ)
    → d.length + length source ≤ 2 ^ 63
    → {d' : Block} → append_bytes d source ≡ some d'
    → d'.self_managed ≡ true
unfolding append_bytes update_hash
append_bytes-managed {d} t source b {d'} same =
    let (e, eq, x) = expand-IsExpanded t (d.length + length source) b (omega arith) in
    let made : append_bytes d source
        ≡ some (
            update_hash (record e {
              bytes = write_at e.bytes e.length source;
              length = d.length + length source;
            })) =
      rw eq refl in
    subst (λ (w : Block). w.self_managed ≡ true) (some-injective _ _ (sym made ∙ same)) x.managed

pub take_nil : {A : Type 0} (n : ℕ) → take {A = A} n [] ≡ []
take_nil zero = refl
take_nil (suc n) = refl

take-take : {A : Type 0} (m n : ℕ) (xs : List A) → take m (take n xs) ≡ take (min m n) xs
take-take zero n xs = take_count 0 (min 0 n) xs (omega arith)
take-take (suc m) zero xs = take_count 0 (min (suc m) 0) xs (omega arith)
take-take (suc m) (suc n) [] = sym (take_nil (min (suc m) (suc n)))
take-take (suc m) (suc n) (x ∷ xs) =
    ap (λ l. x ∷ l) (take-take m n xs)
    ∙ take_count (suc (min m n)) (min (suc m) (suc n)) (x ∷ xs) (omega arith)

drop-take : {A : Type 0} (s n : ℕ) (xs : List A) → drop s (take n xs) ≡ take (n - s) (drop s xs)
drop-take zero n xs = take_count n (n - 0) xs (omega arith)
drop-take (suc s) zero xs = take_count 0 (0 - suc s) (drop (suc s) xs) (omega arith)
drop-take (suc s) (suc n) [] = sym (take_nil (suc n - suc s))
drop-take (suc s) (suc n) (x ∷ xs) =
    drop-take s n xs ∙ take_count (n - s) (suc n - suc s) (drop s xs) (omega arith)

clip-min :
    (len start amount : ℕ)
    → start + amount < 2 ^ 64
    → clip len start amount ≡ min amount (len - start)
clip-min len start amount b = ground arith

pub part_bytes :
    (bytes : List ℕ) (len start amount : ℕ)
    → start + amount < 2 ^ 64
    → take (clip len start amount) (drop start bytes) ≡ take amount (drop start (take len bytes))
part_bytes bytes len start amount b =
    ap (λ (k : ℕ). take k (drop start bytes)) (clip-min len start amount b)
    ∙ sym (take-take amount (len - start) (drop start bytes))
    ∙ ap (λ (l : List ℕ). take amount l) (sym (drop-take start len bytes))

pub part_outside :
    (bytes : List ℕ) (len start amount : ℕ)
    → len ≤ start
    → take amount (drop start (take len bytes)) ≡ []
part_outside bytes len start amount h =
    ap (λ (l : List ℕ). take amount l)
      (drop-take start len bytes ∙ take_count (len - start) 0 (drop start bytes) (omega arith))
    ∙ take_nil amount
