-- ===== src/Merkle/ArrayList/Reserve.antt =====
-- src/merkle/mt_array_list.c: the first part of `mt_al_add`, which makes room for one more hash.
use native.Mathlib.Nat.{pow-suc}
use kvsev.Prelude.{
  ℕ, suc, ◌+◌, ◌^◌, ◌<◌, ◌≡◌, refl, ◌∙◌, ◌≢◌, true, false, none, List, arith, ◌==◌, ge→ltb, ==_iff,
  ==_ne, ==_false, Bool-cases, inl, inr, length,
}
use kvsev.Prelude.Outcome.{done}
use kvsev.Merkle.Config.{Bytes, success}
use kvsev.Merkle.ArrayList.{
  Block, live, ArrayList, reserve, malloc, keep_below, granted, mul_u32, is_power_of_two,
}
use kvsev.Merkle.ArrayList.Powers.{is_power_of_two-pow, pow_of_is_power_of_two}
use kvsev.Merkle.ArrayList.Memory.{realloc_live, keep_below_lem}
use kvsev.Merkle.ArrayList.Holds.{capacity, Fits, Holds, live_of_pos}

-- What the reservation leaves: the same elements, and room for one more.
pub record Reserved (a : ArrayList) (xs : List Bytes) : Type 0 where
  pub result : ArrayList
  pub block : Block
  pub runs : reserve true a ≡ done (success, result)
  pub same : result.elems ≡ a.elems
  pub points : result.store ≡ live block
  pub fits : Fits (length xs + 1) block xs

pub reserve-empty : (a : ArrayList) (xs : List Bytes) → Holds a xs → length xs ≡ 0 → Reserved a xs
unfolding reserve granted malloc
reserve-empty a xs h z =
    let b : Block = record { size = 32; slots = λ _. none } in
    record {
      result = record a { store = live b };
      block = b;
      runs = rw ((==_iff a.elems 0).1 (h.count ∙ z));
      same = refl;
      points = refl;
      fits = record {
        bits = 0;
        covers = omega arith;
        room = omega arith;
        reads = λ i p. absurd (omega arith);
      };
    }

pub reserve-double :
    (a : ArrayList) (xs : List Bytes)
    → Holds a xs
    → length xs < capacity
    → 0 < length xs
    → is_power_of_two a.elems ≡ true
    → Reserved a xs
unfolding reserve granted
reserve-double a xs h small pos two =
    let c = h.count in
    let (k, e) = pow_of_is_power_of_two a.elems (omega arith) two in
    let (b, s, f) = live_of_pos a.store xs h.fits pos in
    let bytes : ℕ = mul_u32 (mul_u32 a.elems 2) 32 in
    let b' : Block = record { size = bytes; slots = keep_below bytes b.slots } in
    record {
      result = record a { store = live b' };
      block = b';
      runs = rw (
        ==_ne a.elems 0 (omega arith),
        two,
        ge→ltb (mul_u32 a.elems 2) a.elems (omega arith),
        ge→ltb 536870912 (mul_u32 a.elems 2) (omega arith),
        s,
        realloc_live b bytes (omega arith),
      );
      same = refl;
      points = refl;
      fits = record {
        bits = suc k;
        covers = rw (pow-suc 2 k) (omega arith);
        room = rw (pow-suc 2 k) (omega arith);
        reads = λ i p. keep_below_lem bytes b.slots i (omega arith) ∙ f.reads i p;
      };
    }

pub reserve-keep :
    (a : ArrayList) (xs : List Bytes)
    → Holds a xs
    → length xs < capacity
    → 0 < length xs
    → is_power_of_two a.elems ≡ false
    → Reserved a xs
unfolding reserve
reserve-keep a xs h small pos odd =
    let c = h.count in
    let (b, s, f) = live_of_pos a.store xs h.fits pos in
    let ne : a.elems ≢ 2 ^ f.bits =
      λ e. (cc (is_power_of_two-pow a.elems f.bits (omega arith) e)) in
    record {
      result = a;
      block = b;
      runs = rw (==_ne a.elems 0 (omega arith), odd);
      same = refl;
      points = s;
      fits = record { bits = f.bits; covers = omega arith; room = f.room; reads = f.reads };
    }

pub reserve-Reserved :
    (a : ArrayList) (xs : List Bytes) → Holds a xs → length xs < capacity → Reserved a xs
reserve-Reserved a xs h small = elim (Bool-cases (length xs == 0)) [
  | inl e ↦ reserve-empty a xs h ((==_iff (length xs) 0).0 e)
  | inr e ↦
      let ne = ==_false (length xs) 0 e in
      elim (Bool-cases (is_power_of_two a.elems)) [
        | inl t ↦ reserve-double a xs h small (omega arith) t
        | inr t ↦ reserve-keep a xs h small (omega arith) t
      ]
]
