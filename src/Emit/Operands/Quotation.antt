-- ===== src/Emit/Operands/Quotation.antt =====
-- The texts that a string operand may stand for, tactyk_emit__StringOperand of libtactyk/tactyk_emit.c,
-- and the buffer they are copied to.
use Prim.Native.Nat.{min}
use tactyk.Base.{
  length-replicate, ℕ, zero, suc, ◌-◌, ◌≤◌, ◌≡◌, ◌≢◌, inl, inr, refl, sym, ap, ◌∙◌, subst, arith,
  List, [], ◌∷◌, ◌++◌, some, leb, true, false, ◌==◌, if◌then◌else◌, length, take, drop, replicate,
  Bool-cases, length-take, length-append,
}
use tactyk.Dblock.Block.{Block, DBlock, node, Slots}
use tactyk.Dblock.Hash.{byte_at}
use tactyk.Dblock.Persist.{memcpy}
use tactyk.Emit.Operands.Bytes.{AreBytes, memcpy-zeros, AreBytes-zeros}
use tactyk.Emit.Operands.{quoted, string_length, string_buffer}

-- The characters of a raw operand: those between double quotes, or behind one that is not closed;
-- those behind a single quote, with the closing one; for a backquote, those behind the first one of
-- the operand as it was resolved.
pub data Quotation (raw : Block) (resolved : DBlock) : List ℕ → Type 0 where
  closed :
      (chars rest : List ℕ)
      → raw.bytes ≡ b'"' ∷ (chars ++ b'"' ∷ rest)
      → raw.length ≡ suc (suc (length chars))
      → Quotation raw resolved chars
  unclosed :
      (chars rest : List ℕ)
      → raw.bytes ≡ b'"' ∷ (chars ++ rest)
      → raw.length ≡ suc (length chars)
      → byte_at raw.bytes (length chars) ≢ b'"'
      → Quotation raw resolved chars
  lone : (rest : List ℕ) → raw.bytes ≡ b'"' ∷ rest → raw.length ≡ 1 → Quotation raw resolved []
  single :
      (chars rest : List ℕ)
      → raw.bytes ≡ 39 ∷ (chars ++ rest)
      → raw.length ≡ suc (length chars)
      → Quotation raw resolved chars
  backquoted :
      (chars rest behind : List ℕ) (first : ℕ) (b : Block) (s : Slots)
      (next child token store : DBlock)
      → raw.bytes ≡ b'`' ∷ behind
      → 1 ≤ raw.length
      → resolved ≡ node b s next child token store
      → b.bytes ≡ first ∷ (chars ++ rest)
      → b.length ≡ suc (length chars)
      → Quotation raw resolved chars

-- The text that is found for an operand with these characters.
pub record IsFound (raw : Block) (resolved : DBlock) (chars : List ℕ) (text : Block) : Type 0 where
  pub found : quoted raw resolved ≡ some (some text)
  pub some_byte : (raw.length == 0) ≡ false
  pub rest : List ℕ
  pub behind : drop 1 text.bytes ≡ chars ++ rest
  pub size : text.length - 1 ≡ length chars

byte_at-append : (chars rest : List ℕ) (c : ℕ) → byte_at (chars ++ c ∷ rest) (length chars) ≡ c
byte_at-append [] rest c = refl
byte_at-append (x ∷ chars) rest c = byte_at-append chars rest c

not_empty : (n k : ℕ) → n ≡ suc k → (n == 0) ≡ false
not_empty n k e = ground arith

differs : (a b : ℕ) → a ≢ b → (a == b) ≡ false
differs a b h = elim (Bool-cases (a == b)) [ inl e ↦ absurd (h (ground arith)) | inr e ↦ e ]

same : (a b : ℕ) → a ≡ b → (a == b) ≡ true
same a b e = ground arith

first_byte : (raw : Block) (c : ℕ) (l : List ℕ) → raw.bytes ≡ c ∷ l → byte_at raw.bytes 0 ≡ c
first_byte raw c l e = ap (λ bs. byte_at bs 0) e

pub Quotation-IsFound :
    (raw : Block) (resolved : DBlock) (chars : List ℕ)
    → Quotation raw resolved chars
    → (text : Block) × IsFound raw resolved chars text
unfolding quoted
Quotation-IsFound raw resolved _ (closed chars rest e l) = (
  record raw { length = raw.length - 1 },
  record {
    found = rw (first_byte raw _ _ e, same _ _ last) refl;
    some_byte = not_empty _ _ l;
    rest = b'"' ∷ rest;
    behind = ap (drop 1) e;
    size = omega (arith, l);
  },
)
  where
    last : byte_at raw.bytes (raw.length - 1) ≡ b'"'
    last =
        ap (λ bs. byte_at bs (raw.length - 1)) e
        ∙ ap (byte_at (b'"' ∷ (chars ++ b'"' ∷ rest))) {y = suc (length chars)} (omega (arith, l))
        ∙ byte_at-append chars rest b'"'
Quotation-IsFound raw resolved _ (unclosed chars rest e l other_end) = (
  raw,
  record {
    found = rw (first_byte raw _ _ e, other) refl;
    some_byte = not_empty _ _ l;
    rest = rest;
    behind = ap (drop 1) e;
    size = omega (arith, l);
  },
)
  where
    other : (byte_at raw.bytes (raw.length - 1) == b'"') ≡ false
    other =
        ap (λ (i : ℕ). byte_at raw.bytes i == b'"') {y = length chars} (omega (arith, l))
        ∙ differs _ _ other_end
Quotation-IsFound raw resolved _ (lone rest e l) = (
  record raw { length = raw.length - 1 },
  record {
    found = rw (l, first_byte raw _ _ e) refl;
    some_byte = not_empty _ _ l;
    rest = rest;
    behind = ap (drop 1) e;
    size = omega (arith, l);
  },
)
Quotation-IsFound raw resolved _ (single chars rest e l) = (
  raw,
  record {
    found = rw (first_byte raw _ _ e) refl;
    some_byte = not_empty _ _ l;
    rest = rest;
    behind = ap (drop 1) e;
    size = omega (arith, l);
  },
)
Quotation-IsFound raw resolved _
      (backquoted chars rest behind first b s next child token store e pos is f l) =
    (
      b,
      record {
        found = rw (first_byte raw _ _ e, is) refl;
        some_byte = positive _ pos;
        rest = rest;
        behind = ap (drop 1) f;
        size = omega (arith, l);
      },
    )
  where
    positive : (n : ℕ) → 1 ≤ n → (n == 0) ≡ false
    positive n h = ground arith

-- A text in front of others, cut to its first `k` bytes.
take-append :
    (k : ℕ) (chars rest : List ℕ) → take (length (take k chars)) (chars ++ rest) ≡ take k chars
take-append zero chars rest = refl
take-append (suc k) [] rest = refl
take-append (suc k) (c ∷ chars) rest = ap (λ l. c ∷ l) (take-append k chars rest)

AreBytes-take : (k : ℕ) (xs : List ℕ) → AreBytes xs → AreBytes (take k xs)
AreBytes-take zero xs h = tt
AreBytes-take (suc k) [] h = tt
AreBytes-take (suc k) (x ∷ xs) h = (h.0, AreBytes-take k xs h.1)

AreBytes-append : (xs ys : List ℕ) → AreBytes xs → AreBytes ys → AreBytes (xs ++ ys)
AreBytes-append [] ys h k = k
AreBytes-append (x ∷ xs) ys h k = (h.0, AreBytes-append xs ys h.1 k)

-- What the buffer of the operand holds.
pub record IsBuffer (chars : List ℕ) (text : Block) : Type 0 where
  pub count : string_length text ≡ length (take 16 chars)
  pub buffer : string_buffer text ≡ take 16 chars ++ replicate (16 - length (take 16 chars)) 0
  pub bytes : AreBytes (string_buffer text)
  pub size : length (string_buffer text) ≡ 16

pub IsFound-IsBuffer :
    (raw : Block) (resolved : DBlock) (chars : List ℕ) (text : Block)
    → IsFound raw resolved chars text
    → AreBytes chars
    → IsBuffer chars text
unfolding string_buffer
IsFound-IsBuffer raw resolved chars text f bytes = record {
  count = count;
  buffer = buffer;
  bytes =
      subst AreBytes (sym buffer)
        (AreBytes-append (take 16 chars) _ (AreBytes-take 16 chars bytes) (AreBytes-zeros _));
  size =
      ap length buffer
      ∙ length-append (take 16 chars) _
      ∙ omega
          (arith, length-replicate {A = ℕ} (16 - length (take 16 chars)) 0, length-take 16 chars);
}
  where
    cut : (n m : ℕ) → n ≡ m → (if leb n 16 then n else 16) ≡ (if leb m 16 then m else 16)
    cut n m e = rw (e) refl

    least : (m k : ℕ) → k ≡ min 16 m → (if leb m 16 then m else 16) ≡ k
    least m k e = ground arith

    count : string_length text ≡ length (take 16 chars)
    count =
        cut (text.length - 1) (length chars) f.size ∙ least (length chars) _ (length-take 16 chars)

    fits : length (take 16 chars) ≤ length (drop 1 text.bytes)
    fits = omega (arith, ap length f.behind, length-append chars f.rest, length-take 16 chars)

    buffer :
        memcpy (string_length text) (replicate 16 0) (drop 1 text.bytes)
        ≡ take 16 chars ++ replicate (16 - length (take 16 chars)) 0
    buffer =
        ap (λ (n : ℕ). memcpy n (replicate 16 0) (drop 1 text.bytes)) count
        ∙ memcpy-zeros (length (take 16 chars)) 16 (drop 1 text.bytes)
            (omega (arith, length-take 16 chars)) fits
        ∙ ap (λ l. l ++ replicate (16 - length (take 16 chars)) 0)
            (ap (take (length (take 16 chars))) f.behind ∙ take-append 16 chars f.rest)
