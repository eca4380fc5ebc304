-- ===== src/Dblock/Text/Pieces.antt =====
-- Sequences of the append family: a text reads as the concatenation of what was put behind it.
use mathlib.Core.Option
use tactyk.Base.{
  ℕ, ◌+◌, ◌^◌, ◌≤◌, ◌<◌, ◌≡◌, inl, inr, refl, sym, ap, ◌∙◌, arith, subst, Bool, false, List, [],
  ◌∷◌, ◌++◌, Option, none, some, leb, leb→le, if◌then◌else◌, Bool-cases, take, drop, length,
  length-append, length-replicate,
}
use tactyk.Dblock.Block.{Block}
use tactyk.Dblock.Hash.{hash_bytes, update_hash}
use tactyk.Dblock.Text.{
  new, append_bytes, content, append, append_char, append_byte, append_word, append_dword,
  append_qword, bytes_of, append_substring,
}
use tactyk.Dblock.Text.Grow.{IsText}
use tactyk.Dblock.Text.Append.{IsAppended, append_bytes-IsAppended, part_bytes, part_outside}

-- What can be put behind a text: a block, a character, a number of one, two, four or eight bytes,
-- a part of a block.
pub data Piece : Type 0 where
  block : Block → Piece
  char : ℕ → Piece
  byte : ℕ → Piece
  word : ℕ → Piece
  dword : ℕ → Piece
  qword : ℕ → Piece
  part : Block → ℕ → ℕ → Piece

-- the call for a piece
unfoldable pub append_piece : Block → Piece → Option Block
append_piece d (block b) = append d b
append_piece d (char c) = append_char d c
append_piece d (byte v) = append_byte d v
append_piece d (word v) = append_word d v
append_piece d (dword v) = append_dword d v
append_piece d (qword v) = append_qword d v
append_piece d (part b start amount) = append_substring d b start amount

-- the bytes of a piece, without regard to capacities
unfoldable pub piece_bytes : Piece → List ℕ
piece_bytes (block b) = content b
piece_bytes (char c) = c ∷ []
piece_bytes (byte v) = v ∷ []
piece_bytes (word v) = bytes_of 2 v
piece_bytes (dword v) = bytes_of 4 v
piece_bytes (qword v) = bytes_of 8 v
piece_bytes (part b start amount) = take amount (drop start (content b))

-- Only the bounds of a part are limited: their sum is a 64-bit number.
unfoldable pub PieceOk : Piece → Type 0
PieceOk (block b) = 0 ≤ 0
PieceOk (char c) = 0 ≤ 0
PieceOk (byte v) = 0 ≤ 0
PieceOk (word v) = 0 ≤ 0
PieceOk (dword v) = 0 ≤ 0
PieceOk (qword v) = 0 ≤ 0
PieceOk (part b start amount) = start + amount < 2 ^ 64

unfoldable pub append_pieces : Block → List Piece → Option Block
append_pieces d [] = some d
append_pieces d (p ∷ ps) = Option.bind (append_piece d p) (λ e. append_pieces e ps)

unfoldable pub pieces_bytes : List Piece → List ℕ
pieces_bytes [] = []
pieces_bytes (p ∷ ps) = piece_bytes p ++ pieces_bytes ps

unfoldable pub PiecesOk : List Piece → Type 0
PiecesOk [] = 0 ≤ 0
PiecesOk (p ∷ ps) = PieceOk p × PiecesOk ps

append_nil : (xs : List ℕ) → xs ++ [] ≡ xs
append_nil [] = refl
append_nil (x ∷ xs) = ap (λ l. x ∷ l) (append_nil xs)

append_assoc : (xs ys zs : List ℕ) → (xs ++ ys) ++ zs ≡ xs ++ (ys ++ zs)
append_assoc [] ys zs = refl
append_assoc (x ∷ xs) ys zs = ap (λ l. x ∷ l) (append_assoc xs ys zs)

-- The hash code is the one of the content.
abbrev pub IsHashed : Block → Type 0
IsHashed d = d.hashcode ≡ hash_bytes d.length d.bytes

abbrev Appends : Block → Option Block → List ℕ → Type 0
Appends d r source = (d' : Block) × (r ≡ some d') × IsAppended d source d'

nothing-IsAppended : {d : Block} → IsText d → IsHashed d → IsAppended d [] d
nothing-IsAppended {d} t h = record {
  text = t;
  content_lem = sym (append_nil (content d));
  length_lem = omega arith;
  hashed = h;
}

past_guards :
    (f g : Bool) (x y : Option Block)
    → f ≡ false
    → g ≡ false
    → (if f then none else if g then x else y) ≡ y
past_guards f g x y p q = rw (p, q) refl

append_substring-IsAppended :
    {d : Block} (t : IsText d) (h : IsHashed d) (b : Block) (start amount : ℕ)
    → start + amount < 2 ^ 64
    → d.length + length (take amount (drop start (content b))) ≤ 2 ^ 63
    → Appends d (append_substring d b start amount) (take amount (drop start (content b)))
unfolding append_substring
append_substring-IsAppended {d} t h b start amount sum room =
    let e = part_bytes b.bytes b.length start amount sum in
    elim (Bool-cases (leb b.length start)) [
      | inl outside ↦ (
        d,
        rw (t.mutable, outside) refl,
        subst (λ (s : List ℕ). IsAppended d s d)
            (sym (part_outside b.bytes b.length start amount (leb→le _ _ outside)))
            (nothing-IsAppended t h),
      )
      | inr inside ↦
          let (d', eq, x) = append_bytes-IsAppended t (take amount (drop start (content b))) room in
          (
            d',
            past_guards d.fixed (leb b.length start) (some d) _ t.mutable inside
                ∙ ap (λ (l : List ℕ). append_bytes d l) e
                ∙ eq,
            x,
          )
    ]

append_piece-IsAppended :
    {d : Block} (t : IsText d) (h : IsHashed d) (p : Piece)
    → PieceOk p
    → d.length + length (piece_bytes p) ≤ 2 ^ 63
    → Appends d (append_piece d p) (piece_bytes p)
unfolding append_piece piece_bytes PieceOk append append_char append_byte append_word append_dword
    append_qword
append_piece-IsAppended t h (block b) ok room = append_bytes-IsAppended t (content b) room
append_piece-IsAppended t h (char c) ok room = append_bytes-IsAppended t (c ∷ []) room
append_piece-IsAppended t h (byte v) ok room = append_bytes-IsAppended t (v ∷ []) room
append_piece-IsAppended t h (word v) ok room = append_bytes-IsAppended t (bytes_of 2 v) room
append_piece-IsAppended t h (dword v) ok room = append_bytes-IsAppended t (bytes_of 4 v) room
append_piece-IsAppended t h (qword v) ok room = append_bytes-IsAppended t (bytes_of 8 v) room
append_piece-IsAppended t h (part b start amount) ok room =
    append_substring-IsAppended t h b start amount ok room

chain-IsAppended :
    {d e f : Block} {s r : List ℕ} → IsAppended d s e → IsAppended e r f → IsAppended d (s ++ r) f
chain-IsAppended {d} {s = s} {r} x y = record {
  text = y.text;
  content_lem =
      y.content_lem ∙ ap (λ (l : List ℕ). l ++ r) x.content_lem ∙ append_assoc (content d) s r;
  length_lem = omega (arith, y.length_lem, x.length_lem, length-append s r);
  hashed = y.hashed;
}

append_pieces-IsAppended :
    (ps : List Piece) {d : Block} (t : IsText d) (h : IsHashed d)
    → PiecesOk ps
    → d.length + length (pieces_bytes ps) ≤ 2 ^ 63
    → Appends d (append_pieces d ps) (pieces_bytes ps)
unfolding append_pieces pieces_bytes PiecesOk Option.bind
append_pieces-IsAppended [] {d} t h ok room = (d, refl, nothing-IsAppended t h)
append_pieces-IsAppended (p ∷ ps) {d} t h (ok, oks) room =
    let sum = length-append (piece_bytes p) (pieces_bytes ps) in
    let (e, eq, x) = append_piece-IsAppended t h p ok (omega (arith, sum, room)) in
    let (f, fq, y) =
      append_pieces-IsAppended ps x.text x.hashed oks (omega (arith, sum, room, x.length_lem)) in
    (f, rw eq fq, chain-IsAppended x y)

-- A text that is made by tactyk_dblock__new and any calls of the append family, at most 2 ^ 63 bytes
-- in all, holds the bytes of the pieces one behind the other, none lost when the memory grows, and
-- its hash code is the one of its content: every call returns.
pub append_pieces-new :
    (capacity : ℕ) (ps : List Piece)
    → PiecesOk ps
    → length (pieces_bytes ps) ≤ 2 ^ 63
    → (d : Block) × (append_pieces (new capacity) ps ≡ some d)
      × (content d ≡ pieces_bytes ps)
      × IsText d
      × IsHashed d
unfolding new update_hash
append_pieces-new capacity ps ok room =
    let t : IsText (new capacity) = record {
      within = omega arith;
      fits = omega arith;
      owned = λ e. length-replicate {A = ℕ} capacity 0;
      mutable = refl;
    } in
    let (d, eq, x) = append_pieces-IsAppended ps t refl ok (omega (arith, room)) in
    (d, eq, x.content_lem, x.text, x.hashed)
