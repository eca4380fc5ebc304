-- ===== src/Dblock/Table/Refine.antt =====
-- A client's calls on a table give what the same calls on a list of bindings give, in which the
-- newest binding of a key counts.
use mathlib.Core.Option
use tactyk.Base.{
  ℕ, suc, ◌+◌, ◌-◌, ◌*◌, ◌^◌, ◌≤◌, ◌<◌, ◌≡◌, refl, ap, ◌∙◌, arith, Option, some, List, [], ◌∷◌,
  if◌then◌else◌, length,
}
use tactyk.Dblock.Block.{Block, Value, empty}
use tactyk.Dblock.Hash.{equals}
use tactyk.Dblock.Persist.{mark_value}
use tactyk.Dblock.Table.{Table, Key, capacity_of, count_of, key_block, get, put, delete, visible}
use tactyk.Dblock.Table.Keys.{IsKey}
use tactyk.Dblock.Table.Inv.{Inv}
use tactyk.Dblock.Table.Map.{IsPut, put-IsPut}

pub data Op : Type 0 where
  put_op : Key → Value → Op
  get_op : Key → Op
  delete_op : Key → Op

abbrev pub OpOk : Op → Type 0
OpOk (put_op k v) = IsKey k
OpOk (get_op k) = Unit
OpOk (delete_op k) = IsKey k

abbrev pub AllOk : List Op → Type 0
AllOk [] = Unit
AllOk (op ∷ ops) = OpOk op × AllOk ops

-- The calls on the table in order, with what each `get` returns.
unfoldable pub run : Table → List Op → Option (List Value)
run t [] = some []
run t (put_op k v ∷ ops) = Option.bind (put 2 t k v) (λ u. run u ops)
run t (delete_op k ∷ ops) = Option.bind (delete 2 t k) (λ u. run u ops)
run t (get_op k ∷ ops) = Option.map (λ rest. get t k ∷ rest) (run t ops)

-- The bindings, newest first.
abbrev pub Bindings : Type 0
Bindings = List (Block × Value)

-- What a key reads in bindings on top of a start.
abbrev pub find : (Key → Value) → Bindings → Key → Value
find start [] q = start q
find start ((k, v) ∷ m) q = if equals k (key_block q) then visible v else find start m q

abbrev pub run_spec : (Key → Value) → ℕ → Bindings → List Op → List Value
run_spec start code m [] = []
run_spec start code m (put_op k v ∷ ops) =
    run_spec start code ((key_block k, mark_value code v) ∷ m) ops
run_spec start code m (delete_op k ∷ ops) = run_spec start code ((key_block k, empty) ∷ m) ops
run_spec start code m (get_op k ∷ ops) = find start m k ∷ run_spec start code m ops

module _ (start : Key → Value) (bound : ℕ) (small : bound < 2 ^ 58) where
  -- What the table and the bindings have in common between two calls, with `n` calls to come.
  record Sim (t : Table) (code n : ℕ) (m : Bindings) : Type 0 where
    inv : Inv t
    agree : (q : Key) → get t q ≡ find start m q
    room : count_of t + n ≤ bound
    capacity : capacity_of t ≤ 2 * bound
    marks : t.header.persistence_code ≡ code

  Sim-put :
      (t u : Table) (code n : ℕ) (m : Bindings) (k : Key) (v : Value)
      → Sim t code (suc n) m
      → IsPut t k (mark_value t.header.persistence_code v) u
      → Sim u code n ((key_block k, mark_value code v) ∷ m)
  Sim-put t u code n m k v s p = record {
    inv = p.inv;
    agree = λ q. p.reads q ∙ rw (s.agree q, s.marks) refl;
    room = omega (arith, p.counts, s.room);
    capacity = ground (arith, p.capacity, s.room, s.capacity);
    marks = p.code ∙ s.marks;
  }

  run-spec :
      (ops : List Op) (t : Table) (code : ℕ) (m : Bindings)
      → Sim t code (length ops) m
      → AllOk ops
      → run t ops ≡ some (run_spec start code m ops)
  unfolding run Option.bind delete mark_value
  run-spec [] t code m s ok = refl
  run-spec (put_op k v ∷ ops) t code m s ok =
      let (u, e, p) = put-IsPut 0 s.inv k ok.0 v (omega (arith, s.capacity)) in
      rw e (run-spec ops u code _ (Sim-put t u code (length ops) m k v s p) ok.1)
  run-spec (delete_op k ∷ ops) t code m s ok =
      let (u, e, p) = put-IsPut 0 s.inv k ok.0 empty (omega (arith, s.capacity)) in
      rw e (run-spec ops u code _ (Sim-put t u code (length ops) m k empty s p) ok.1)
  run-spec (get_op k ∷ ops) t code m s ok =
      rw
        (run-spec ops t code m
          (record {
            inv = s.inv;
            agree = s.agree;
            room = omega (arith, s.room);
            capacity = s.capacity;
            marks = s.marks;
          })
          ok.1)
        (ap some (ap (λ v. v ∷ run_spec start code m ops) (s.agree k)))

-- Any calls of put, get and delete, at most 2 ^ 58 entries in all, on a well-formed table: no
-- assertion fails and each `get` returns what the newest binding of an equal key says, and what
-- the table held at the start where there is none.
pub run_refines :
    (t : Table) (ops : List Op)
    → Inv t
    → AllOk ops
    → count_of t + length ops < 2 ^ 58
    → capacity_of t < 2 ^ 58
    → run t ops ≡ some (run_spec (get t) t.header.persistence_code [] ops)
run_refines t ops inv ok room small =
    run-spec (get t) (2 ^ 58 - 1) (omega arith) ops t t.header.persistence_code []
      (record {
        inv = inv;
        agree = λ q. refl;
        room = omega arith;
        capacity = omega arith;
        marks = refl;
      })
      ok
