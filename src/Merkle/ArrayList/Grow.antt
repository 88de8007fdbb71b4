-- ===== src/Merkle/ArrayList/Grow.antt =====
-- src/merkle/mt_array_list.c: `mt_al_add`.
use kvsev.Prelude.{
  ◌+◌, ◌*◌, ◌/◌, ◌%◌, ◌<◌, ◌≡◌, sym, ◌∙◌, true, some, List, [], ◌∷◌, ◌++◌, arith, ◌==◌, lt→ltb,
  ==_iff, ==_false, Bool-cases, inl, inr, length, length-append, get_elem?-append_end,
  get_elem?-append_ne,
}
use kvsev.Prelude.Outcome.{done}
use kvsev.Merkle.Config.{Bytes, success, u32}
use kvsev.Merkle.ArrayList.{Block, live, ArrayList, add, append, assign, mul_u32}
use kvsev.Merkle.ArrayList.Memory.{write_live, assign_self, assign_ne}
use kvsev.Merkle.ArrayList.Holds.{capacity, Fits, Holds}
use kvsev.Merkle.ArrayList.Reserve.{reserve-Reserved}

pub append-Holds :
    (a : ArrayList) (b : Block) (xs : List Bytes) (h : Bytes)
    → a.elems ≡ length xs
    → length xs < capacity
    → a.store ≡ live b
    → Fits (length xs + 1) b xs
    → (a' : ArrayList) × (append h (success, a) ≡ done (success, a')) × Holds a' (xs ++ h ∷ [])
unfolding append
append-Holds a b xs h c small p f =
    let n = length xs in
    let byte : (mul_u32 a.elems 32 ≡ n * 32) × (n * 32 / 32 ≡ n) = omega arith in
    let room = f.room in
    let covers = f.covers in
    let b' : Block = record b { slots = assign b.slots n h } in
    let len = length-append xs (h ∷ []) in
    (
      record { elems = (a.elems + 1) % u32; store = live b' },
      rw (p, byte.0, write_live b (n * 32) h (omega arith), byte.1),
      record {
        count = omega arith;
        small = omega arith;
        fits = record {
          bits = f.bits;
          covers = omega arith;
          room = f.room;
          reads = λ i q. elim (Bool-cases (i == n)) [
            | inl e ↦ let e' = (==_iff i n).0 e in rw (e', assign_self, get_elem?-append_end)
            | inr e ↦
                let ne = ==_false i n e in
                assign_ne b.slots n i h (λ z. ne (sym z))
                ∙ f.reads i (omega arith)
                ∙ sym (get_elem?-append_ne xs h i ne)
          ];
        };
      },
    )

-- `mt_al_add` with memory granted appends the hash.
pub add-Holds :
    (a : ArrayList) (xs : List Bytes) (h : Bytes)
    → Holds a xs
    → length xs < capacity
    → (a' : ArrayList) × (add true a (some h) ≡ done (success, a')) × Holds a' (xs ++ h ∷ [])
unfolding add
add-Holds a xs h holds small =
    let c = holds.count in
    let r = reserve-Reserved a xs holds small in
    let (a', run, holds') = append-Holds r.result r.block xs h (r.same ∙ c) small r.points r.fits in
    (a', rw (lt→ltb a.elems 536870912 (omega arith), r.runs) run, holds')
