-- ===== src/Merkle/ArrayList/Shrink.antt =====
-- src/merkle/mt_array_list.c: `mt_al_truncate`, `mt_al_delete`, and the limits of the byte counts.
use kvsev.Prelude.{
  ℕ, ◌*◌, ◌^◌, ◌<◌, ◌≡◌, refl, sym, ◌∙◌, Bool, true, some, List, arith, ltb, ◌==◌, lt→ltb, ge→ltb,
  ==_iff, ==_ne, ==_false, Bool-cases, inl, inr, length, take, length-take, get_elem?-take,
}
use kvsev.Prelude.Outcome.{done, fault, bad_access, ◌>>=◌}
use kvsev.Merkle.Config.{Bytes, success, out_of_memory}
use kvsev.Merkle.ArrayList.{
  Block, freed, live, ArrayList, truncate, shrink, delete, free, granted, add, reserve, append,
  realloc, keep_below, mul_u32, round_next_power_two,
}
use kvsev.Merkle.ArrayList.Powers.{round_next_power_two_lem, is_power_of_two-pow}
use kvsev.Merkle.ArrayList.Memory.{realloc_live, keep_below_lem}
use kvsev.Merkle.ArrayList.Holds.{capacity, Holds, live_of_pos}

shrink-Holds :
    (a : ArrayList) (xs : List Bytes) (n : ℕ)
    → Holds a xs
    → 0 < n
    → n < length xs
    → (a' : ArrayList) × (shrink true (record a { elems = n }) ≡ done (success, a'))
      × Holds a' (take n xs)
unfolding shrink granted
shrink-Holds a xs n holds pos lt =
    let small = holds.small in
    let (b, s, f) = live_of_pos a.store xs holds.fits (omega arith) in
    let (k, e, le, bound) = round_next_power_two_lem n pos (omega arith) in
    let bytes : ℕ = mul_u32 (round_next_power_two n) 32 in
    let exact : bytes ≡ 2 ^ k * 32 = omega arith in
    let len = length-take n xs (omega arith) in
    (
      record {
        elems = n;
        store = live (record { size = bytes; slots = keep_below bytes b.slots });
      },
      rw (==_ne n 0 (omega arith), s, realloc_live b bytes (omega arith)),
      record {
        count = sym len;
        small = omega arith;
        fits = record {
          bits = k;
          covers = omega arith;
          room = omega arith;
          reads = λ i q.
              keep_below_lem bytes b.slots i (omega arith)
              ∙ f.reads i (omega arith)
              ∙ sym (get_elem?-take n xs i (omega arith));
        };
      },
    )

shrink_zero :
    (a : ArrayList) (xs : List Bytes)
    → Holds a xs
    → 0 < length xs
    → (shrink true (record a { elems = 0 }) ≡ done (success, record { elems = 0; store = freed }))
unfolding shrink free
shrink_zero a xs holds pos = let (b, s, f) = live_of_pos a.store xs holds.fits pos in rw s

-- `mt_al_truncate` keeps the first `n` hashes, for every `n` below the length.
pub truncate-Holds :
    (a : ArrayList) (xs : List Bytes) (n : ℕ)
    → Holds a xs
    → n < length xs
    → (a' : ArrayList) × (truncate true a n ≡ done (success, a')) × Holds a' (take n xs)
unfolding truncate
truncate-Holds a xs n holds lt =
    let c = holds.count in
    let small = holds.small in
    let front : (ltb a.elems 536870912 ≡ true) × (ltb n a.elems ≡ true) =
      (lt→ltb a.elems 536870912 (omega arith), lt→ltb n a.elems (omega arith)) in
    elim (Bool-cases (n == 0)) [
      | inl e ↦
          let z = (==_iff n 0).0 e in
          (
            record { elems = 0; store = freed },
            rw (front.0, front.1, z) (shrink_zero a xs holds (omega arith)),
            rw z (record { count = refl; small = omega arith; fits = refl }),
          )
      | inr e ↦
          let ne = ==_false n 0 e in
          let (a', run, holds') = shrink-Holds a xs n holds (omega arith) lt in
          (a', rw (front.0, front.1) run, holds')
    ]

-- After `mt_al_truncate` to 0 the freed pointer stays in the list, and `mt_al_delete` frees it
-- again, whatever the list held.
pub delete-truncate_zero :
    (a : ArrayList) (xs : List Bytes)
    → Holds a xs
    → 0 < length xs
    → (truncate true a 0 >>= λ r. delete r.1) ≡ fault bad_access
unfolding truncate delete free
delete-truncate_zero a xs holds pos =
    let c = holds.count in
    let small = holds.small in
    rw (
      lt→ltb a.elems 536870912 (omega arith),
      lt→ltb 0 a.elems (omega arith),
      shrink_zero a xs holds pos,
    )

-- At 2 ^ 26 hashes, an eighth of MT_AL_MAX_ELEMS, the byte count that `mt_al_add` asks for wraps to
-- 0: the call frees the block that the list still points to, and reports that memory ran out,
-- whatever the allocator has left.
pub add_wraps :
    (mem : Bool) (a : ArrayList) (b : Block) (h : Bytes)
    → a.elems ≡ capacity
    → a.store ≡ live b
    → add mem a (some h) ≡ done (out_of_memory, record a { store = freed })
unfolding add reserve append realloc granted
add_wraps mem a b h c s =
    let two = is_power_of_two-pow a.elems 26 (omega arith) c in
    let bytes : mul_u32 (mul_u32 a.elems 2) 32 ≡ 0 = omega arith in
    rw (
      lt→ltb a.elems 536870912 (omega arith),
      ==_ne a.elems 0 (omega arith),
      two,
      ge→ltb (mul_u32 a.elems 2) a.elems (omega arith),
      ge→ltb 536870912 (mul_u32 a.elems 2) (omega arith),
      s,
      bytes,
    )
