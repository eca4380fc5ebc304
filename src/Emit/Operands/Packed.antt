-- ===== src/Emit/Operands/Packed.antt =====
-- The two numbers of a string operand are the bytes of its text.
use mathlib.Core.Option
use mathlib.Core.Bool.{true≢false}
use tactyk.Base.{
  ℕ, suc, ◌-◌, ◌^◌, ◌≤◌, ◌<◌, ◌≡◌, inl, inr, refl, sym, ap, ◌∙◌, arith, Bool, true, false, List, [],
  ◌∷◌, ◌++◌, Option, none, some, leb, ltb, if◌then◌else◌, length, take, replicate, Bool-cases,
}
use tactyk.Dblock.Block.{Block, DBlock, node, Slots, Value, block}
use tactyk.Dblock.Hash.{
  read_le, equals, same_loop, update_hash, hash_bytes, hash_loop, hash_step, scramble,
}
use tactyk.Dblock.Hash.Equivalence.{equals_refl}
use tactyk.Dblock.Number.{from_uint}
use tactyk.Dblock.Number.RoundTrip.{try_parseint-from_uint}
use tactyk.Dblock.Persist.{memcpy, from_c_string, mark_value}
use tactyk.Dblock.Table.{Key, c_string, get, visible, key_block, header_of, from_string_or_dblock}
use tactyk.Dblock.Table.Map.{put-IsPut}
use tactyk.Pl.Struct.Constants.{HasRoom}
use tactyk.Dblock.Text.{bytes_of}
use tactyk.Emit.Machine.{Machine, kw, value_name, value_upper, put_var}
use tactyk.Emit.Operands.Bytes.{AreBytes, halves, read_le-lt}
use tactyk.Emit.Operands.Quotation.{Quotation, Quotation-IsFound, IsFound-IsBuffer}
use tactyk.Emit.Operands.{
  keyword, put_string, string_buffer, string_operand, pack, put_quoted, comprehend_int_value,
  put_keyword, int_value,
}

-- What a key reads after it was put, by a table's code.
abbrev reads_as : Machine → DBlock → Value
reads_as ctx d = visible (mark_value ctx.local_vars.header.persistence_code (block d))

-- The variables take `n` more entries.
abbrev pub HasVars : Machine → ℕ → ℕ → Type 0
HasVars ctx bound n = HasRoom ctx.local_vars bound n

-- What becomes of the variables when one is put.
record IsAssigned (ctx : Machine) (name : List ℕ) (d : DBlock) (ctx' : Machine) : Type 0 where
  code : ctx'.local_vars.header.persistence_code ≡ ctx.local_vars.header.persistence_code
  reads :
      (q : Key)
      → get ctx'.local_vars q ≡ (
          if equals (key_block (c_string name)) (key_block q)
          then reads_as ctx d
          else get ctx.local_vars q)

put_var-IsAssigned :
    (ctx : Machine) (bound n : ℕ) (name : List ℕ) (d : DBlock)
    → HasVars ctx bound (suc n)
    → (ctx' : Machine) × (put_var (c_string name) (block d) ctx ≡ some ctx')
      × HasVars ctx' bound n
      × IsAssigned ctx name d ctx'
unfolding put_var
put_var-IsAssigned ctx bound n name d h =
    let (t, e, p) =
      put-IsPut 0 h.inv (c_string name) tt (block d) (omega (arith, h.capacity, h.small)) in
    (
      record ctx { local_vars = t },
      rw (e) refl,
      record {
        inv = p.inv;
        room = omega (arith, p.counts, h.room);
        capacity = ground (arith, p.capacity, h.room, h.capacity);
        small = h.small;
      },
      record { code = p.code; reads = p.reads },
    )

abbrev pub qword : List ℕ
qword = b'q' ∷ b'w' ∷ b'o' ∷ b'r' ∷ b'd' ∷ []

-- The keyword of the least word that holds a number, and the one of 64 bits for more than 8 bytes.
pub data IsWord (count v : ℕ) : List ℕ → Type 0 where
  in_byte : count ≤ 8 → v < 2 ^ 8 → IsWord count v (b'b' ∷ b'y' ∷ b't' ∷ b'e' ∷ [])
  in_word : count ≤ 8 → 2 ^ 8 ≤ v → v < 2 ^ 16 → IsWord count v (b'w' ∷ b'o' ∷ b'r' ∷ b'd' ∷ [])
  in_dword :
      count ≤ 8 → 2 ^ 16 ≤ v → v < 2 ^ 32 → IsWord count v (b'd' ∷ b'w' ∷ b'o' ∷ b'r' ∷ b'd' ∷ [])
  in_qword : count ≤ 8 → 2 ^ 32 ≤ v → IsWord count v (b'q' ∷ b'w' ∷ b'o' ∷ b'r' ∷ b'd' ∷ [])
  over_eight : 8 < count → IsWord count v (b'q' ∷ b'w' ∷ b'o' ∷ b'r' ∷ b'd' ∷ [])

keyword-IsWord : (count v : ℕ) → count ≤ 8 → IsWord count v (keyword v)
unfolding keyword
keyword-IsWord count v h = elim (Bool-cases (leb v 255)) [
  | inl a ↦ rw a (in_byte h (at_most v 255 a))
  | inr a ↦ elim (Bool-cases (leb v 65535)) [
    | inl b ↦ rw (a, b) (in_word h (above v 255 a) (at_most v 65535 b))
    | inr b ↦ elim (Bool-cases (leb v 4294967295)) [
      | inl c ↦ rw (a, b, c) (in_dword h (above v 65535 b) (at_most v 4294967295 c))
      | inr c ↦ rw (a, b, c) (in_qword h (above v 4294967295 c))
    ]
  ]
]
  where
    at_most : (v m : ℕ) → leb v m ≡ true → v < suc m
    at_most v m e = ground arith

    above : (v m : ℕ) → leb v m ≡ false → suc m ≤ v
    above v m e = ground arith

chosen_word-IsWord : (count v : ℕ) → IsWord count v (if ltb 8 count then qword else keyword v)
chosen_word-IsWord count v = elim (Bool-cases (ltb 8 count)) [
  | inl more ↦ rw more (over_eight (above count more))
  | inr few ↦ rw few (keyword-IsWord count v (at_most count few))
]
  where
    above : (n : ℕ) → ltb 8 n ≡ true → 8 < n
    above n e = ground arith

    at_most : (n : ℕ) → ltb 8 n ≡ false → n ≤ 8
    at_most n e = ground arith

-- The variables hold two numbers that are the bytes of a text in memory, with zeros behind it, and
-- the size of word that holds them.
pub record IsPacked (chars : List ℕ) (ctx ctx' : Machine) : Type 0 where
  pub lower : ℕ
  pub upper : ℕ
  pub bytes : bytes_of 8 lower ++ bytes_of 8 upper ≡ chars ++ replicate (16 - length chars) 0
  pub value_lem :
      get ctx'.local_vars (c_string (b'$' ∷ b'V' ∷ b'A' ∷ b'L' ∷ b'U' ∷ b'E' ∷ []))
      ≡ reads_as ctx (from_uint lower)
  pub upper_lem :
      get ctx'.local_vars (
        c_string
          (b'$' ∷ b'V' ∷ b'A' ∷ b'L' ∷ b'U' ∷ b'E' ∷ b'_' ∷ b'U' ∷ b'P' ∷ b'P' ∷ b'E' ∷ b'R' ∷ []))
      ≡ reads_as ctx (from_uint upper)
  pub word : List ℕ
  pub size : IsWord (length chars) lower word
  pub word_lem :
      get ctx'.local_vars (c_string (b'$' ∷ b'K' ∷ b'W' ∷ [])) ≡ reads_as ctx (from_c_string word)

int_value-from_uint : (v : ℕ) → v < 2 ^ 64 → int_value (header_of (from_uint v)) ≡ some v
unfolding int_value
int_value-from_uint v h = rw (int_value, try_parseint-from_uint v h) refl

comprehend-from_uint :
    (v : ℕ) (ctx : Machine)
    → comprehend_int_value (from_uint v) (c_string kw) ctx
      ≡ put_keyword (c_string kw) (int_value (header_of (from_uint v))) ctx
unfolding comprehend_int_value from_uint from_c_string
comprehend-from_uint v ctx = refl

-- A call that returns, and returns true.
abbrev done : Option Machine → Option (Machine × Bool)
done none = none
done (some ctx) = some (ctx, true)

done-map : (o : Option Machine) → Option.map (λ c. (c, true)) o ≡ done o
done-map none = refl
done-map (some c) = refl

comprehend-number :
    (v : ℕ) (ctx : Machine)
    → v < 2 ^ 64
    → comprehend_int_value (from_uint v) (c_string kw) ctx
      ≡ done (put_var (c_string kw) (block (from_c_string (keyword v))) ctx)
unfolding put_keyword
comprehend-number v ctx h =
    comprehend-from_uint v ctx
    ∙ ap (λ o. put_keyword (c_string kw) o ctx) (int_value-from_uint v h)
    ∙ done-map _

-- The three names are told apart.
value_is_not_kw : equals (key_block (c_string kw)) (key_block (c_string value_name)) ≡ false
unfolding equals same_loop from_string_or_dblock from_c_string update_hash hash_bytes hash_loop
    hash_step scramble memcpy
value_is_not_kw = refl

upper_is_not_kw : equals (key_block (c_string kw)) (key_block (c_string value_upper)) ≡ false
unfolding equals same_loop from_string_or_dblock from_c_string update_hash hash_bytes hash_loop
    hash_step scramble memcpy
upper_is_not_kw = refl

value_is_not_upper :
    equals (key_block (c_string value_upper)) (key_block (c_string value_name)) ≡ false
unfolding equals same_loop from_string_or_dblock from_c_string update_hash hash_bytes hash_loop
    hash_step scramble memcpy
value_is_not_upper = refl

skipped {ℓ} : {A : Type ℓ} (b : Bool) (x y : A) → b ≡ false → (if b then x else y) ≡ y
skipped true x y e = absurd (true≢false e)
skipped false x y e = refl

chosen {ℓ} : {A : Type ℓ} (b : Bool) (x y : A) → b ≡ true → (if b then x else y) ≡ x
chosen true x y e = refl
chosen false x y e = absurd (true≢false (sym e))

same_code :
    (c ctx : Machine) (d : DBlock)
    → c.local_vars.header.persistence_code ≡ ctx.local_vars.header.persistence_code
    → reads_as c d ≡ reads_as ctx d
same_code c ctx d e = ap (λ (code : ℕ). visible (mark_value code (block d))) e

-- the last of the three, wide or narrow
keyword_put :
    (lower count : ℕ) (ctx : Machine)
    → lower < 2 ^ 64
    → (if ltb 8 count
        then put_var (c_string kw) (block (from_c_string qword)) ctx
        else Option.map
            (λ (r : Machine × Bool). r.0)
            (comprehend_int_value (from_uint lower) (c_string kw) ctx))
      ≡ put_var
          (c_string kw)
          (block (from_c_string (if ltb 8 count then qword else keyword lower)))
          ctx
keyword_put lower count ctx h = elim (Bool-cases (ltb 8 count)) [
  | inl wide ↦ rw (wide) refl
  | inr narrow ↦
      rw (narrow)
        (ap (Option.map (λ (r : Machine × Bool). r.0)) (comprehend-number lower ctx h) ∙ forget _)
]
  where
    forget : (o : Option Machine) → Option.map (λ (r : Machine × Bool). r.0) (done o) ≡ o
    forget none = refl
    forget (some c) = refl

put_string-IsPacked :
    (ctx : Machine) (bound : ℕ) (chars buf : List ℕ)
    → HasVars ctx bound 3
    → AreBytes buf
    → buf ≡ chars ++ replicate (16 - length chars) 0
    → length buf ≡ 16
    → (ctx' : Machine) × (put_string (length chars) buf ctx ≡ some (ctx', true))
      × IsPacked chars ctx ctx'
unfolding put_string Option.bind
put_string-IsPacked ctx bound chars buf h bytes same size =
    let lower = read_le 8 buf 0 in
    let upper = read_le 8 buf 8 in
    let word = if ltb 8 (length chars) then qword else keyword lower in
    let (c, e, i, a) = put_var-IsAssigned ctx bound 2 value_name (from_uint lower) h in
    let (c', e', i', a') = put_var-IsAssigned c bound 1 value_upper (from_uint upper) i in
    let (c'', e'', i'', a'') = put_var-IsAssigned c' bound 0 kw (from_c_string word) i' in
    (
      c'',
      rw (e, e', keyword_put lower (length chars) c' (read_le-lt 8 buf 0 bytes), e'') refl,
      record {
        lower = lower;
        upper = upper;
        bytes = halves 8 buf bytes size ∙ same;
        value_lem =
            a''.reads (c_string value_name)
            ∙ skipped _ _ _ value_is_not_kw
            ∙ a'.reads (c_string value_name)
            ∙ skipped _ _ _ value_is_not_upper
            ∙ a.reads (c_string value_name)
            ∙ chosen _ _ _ (equals_refl (key_block (c_string value_name)));
        upper_lem =
            a''.reads (c_string value_upper)
            ∙ skipped _ _ _ upper_is_not_kw
            ∙ a'.reads (c_string value_upper)
            ∙ chosen _ _ _ (equals_refl (key_block (c_string value_upper)))
            ∙ same_code c ctx (from_uint upper) a.code;
        word = word;
        size = chosen_word-IsWord (length chars) lower;
        word_lem =
            a''.reads (c_string kw)
            ∙ chosen _ _ _ (equals_refl (key_block (c_string kw)))
            ∙ same_code c' ctx (from_c_string word) (a'.code ∙ a.code);
      },
    )

-- When the raw operand is a text in quotes, of bytes, and the variables have room: the operand is
-- taken, the two numbers put in the variables are the first 16 bytes of its characters, with zeros
-- behind them, and the size put is the least of a word that holds the first number, or 64 bits for
-- more than 8 characters. The closing quote is no character behind a double quote, and it is one
-- behind a single quote.
pub string_operand-IsPacked :
    (ctx : Machine) (raw : Block) (s : Slots) (next child token store : DBlock) (chars : List ℕ)
    (bound : ℕ)
    → ctx.pl_operand_raw ≡ node raw s next child token store
    → Quotation raw ctx.pl_operand_resolved chars
    → AreBytes chars
    → HasVars ctx bound 3
    → (ctx' : Machine) × (string_operand ctx ≡ some (ctx', true))
      × IsPacked (take 16 chars) ctx ctx'
unfolding string_operand pack put_quoted Option.bind
string_operand-IsPacked ctx raw s next child token store chars bound is_raw quotation bytes h =
    let (text, f) = Quotation-IsFound raw ctx.pl_operand_resolved chars quotation in
    let b = IsFound-IsBuffer raw ctx.pl_operand_resolved chars text f bytes in
    let (ctx', e, p) =
      put_string-IsPacked ctx bound (take 16 chars) (string_buffer text) h b.bytes b.buffer
        b.size in
    (
      ctx',
      ap (λ d. pack d ctx) is_raw
          ∙ skipped _ _ _ f.some_byte
          ∙ ap (λ o. Option.bind o (λ q. put_quoted q ctx)) f.found
          ∙ ap (λ (n : ℕ). put_string n (string_buffer text) ctx) b.count
          ∙ e,
      p,
    )
