-- ===== src/Merkle/ArrayList/Change.antt =====
-- src/merkle/mt_array_list.c: the functions that write or read at an index.
use kvsev.Prelude.{
  ℕ, zero, suc, ◌*◌, ◌/◌, ◌≤◌, ◌<◌, ◌≡◌, refl, sym, ◌∙◌, ap, true, false, some, List, [], ◌∷◌, ◌++◌,
  arith, ltb, ◌==◌, lt→ltb, ltb→lt, ltb→ge, lt→leb_false, ge→ltb, le→leb, ==_iff, ==_ne, ==_false,
  Bool-cases, inl, inr, length, get_elem?, set, length-set, get_elem?-set_self, get_elem?-set_ne,
  get_elem?-some, get_elem?-none, if◌then◌else◌,
}
use kvsev.Prelude.Outcome.{done}
use kvsev.Merkle.Config.{Bytes, success}
use kvsev.Merkle.ArrayList.{
  live, ArrayList, update, update_if_exists, add_or_update, get, overwrite, assign, mul_u32,
}
use kvsev.Merkle.ArrayList.Memory.{write_live, read_live, assign_self, assign_ne}
use kvsev.Merkle.ArrayList.Holds.{capacity, Holds, live_of_pos}
use kvsev.Merkle.ArrayList.Grow.{add-Holds}

pub overwrite-Holds :
    (a : ArrayList) (xs : List Bytes) (h : Bytes) (i : ℕ)
    → Holds a xs
    → i < length xs
    → (a' : ArrayList) × (overwrite a h i ≡ done (success, a')) × Holds a' (set xs i h)
unfolding overwrite
overwrite-Holds a xs h i holds lt =
    let (b, s, f) = live_of_pos a.store xs holds.fits (omega arith) in
    let small = holds.small in
    let room = f.room in
    let covers = f.covers in
    let byte : (mul_u32 i 32 ≡ i * 32) × (i * 32 / 32 ≡ i) = omega arith in
    let len = length-set xs i h in
    (
      record a { store = live (record b { slots = assign b.slots i h }) },
      rw (s, byte.0, write_live b (i * 32) h (omega arith), byte.1),
      record {
        count = holds.count ∙ sym len;
        small = omega arith;
        fits = record {
          bits = f.bits;
          covers = omega arith;
          room = f.room;
          reads = λ j q. elim (Bool-cases (i == j)) [
            | inl e ↦
                let e' = (==_iff i j).0 e in rw (← e', assign_self, get_elem?-set_self xs i h lt)
            | inr e ↦
                let ne = ==_false i j e in
                assign_ne b.slots i j h ne
                ∙ f.reads j (omega arith)
                ∙ sym (get_elem?-set_ne xs i j h ne)
          ];
        };
      },
    )

-- `mt_al_update` replaces the hash at an index in range.
pub update-Holds :
    (a : ArrayList) (xs : List Bytes) (h : Bytes) (i : ℕ)
    → Holds a xs
    → i < length xs
    → (a' : ArrayList) × (update a (some h) i ≡ done (success, a')) × Holds a' (set xs i h)
unfolding update
update-Holds a xs h i holds lt =
    let c = holds.count in
    let small = holds.small in
    let (a', run, holds') = overwrite-Holds a xs h i holds lt in
    (a', rw (lt→ltb a.elems 536870912 (omega arith), lt→ltb i a.elems (omega arith)) run, holds')

pub set_out : {A : Type 0} (xs : List A) (i : ℕ) (v : A) → length xs ≤ i → set xs i v ≡ xs
set_out [] i v h = refl
set_out (x ∷ xs) zero v h = absurd (omega arith)
set_out (x ∷ xs) (suc i) v h = ap (λ ys. x ∷ ys) (set_out xs i v (omega arith))

-- `mt_al_update_if_exists` succeeds at every index, and out of range it changes nothing.
pub update_if_exists-Holds :
    (a : ArrayList) (xs : List Bytes) (h : Bytes) (i : ℕ)
    → Holds a xs
    → (a' : ArrayList) × (update_if_exists a (some h) i ≡ done (success, a'))
      × Holds a' (set xs i h)
unfolding update_if_exists
update_if_exists-Holds a xs h i holds =
    let c = holds.count in
    let small = holds.small in
    elim (Bool-cases (ltb i (length xs))) [
      | inl e ↦
          let lt = ltb→lt i (length xs) e in
          let (a', run, holds') = overwrite-Holds a xs h i holds lt in
          (
            a',
            rw (lt→ltb a.elems 536870912 (omega arith), lt→leb_false a.elems i (omega arith)) run,
            holds',
          )
      | inr e ↦
          let ge = ltb→ge i (length xs) e in
          (
            a,
            rw (lt→ltb a.elems 536870912 (omega arith), le→leb a.elems i (omega arith)),
            rw (set_out xs i h ge) holds,
          )
    ]

-- What `mt_al_add_or_update` does to the sequence.
abbrev pub put : List Bytes → ℕ → Bytes → List Bytes
put xs i h = if i == length xs then xs ++ h ∷ [] else set xs i h

-- `mt_al_add_or_update` appends at the end and replaces before it.
pub add_or_update-Holds :
    (a : ArrayList) (xs : List Bytes) (h : Bytes) (i : ℕ)
    → Holds a xs
    → i ≤ length xs
    → i < capacity
    → (a' : ArrayList) × (add_or_update true a (some h) i ≡ done (success, a'))
      × Holds a' (put xs i h)
unfolding add_or_update
add_or_update-Holds a xs h i holds le small =
    let c = holds.count in
    let s = holds.small in
    let front : (ltb a.elems 536870912 ≡ true) × (ltb a.elems i ≡ false) =
      (lt→ltb a.elems 536870912 (omega arith), ge→ltb a.elems i (omega arith)) in
    elim (Bool-cases (i == length xs)) [
      | inl e ↦
          let e' = (==_iff i (length xs)).0 e in
          let (a', run, holds') = add-Holds a xs h holds (omega arith) in
          (a', rw (front.0, front.1, (==_iff i a.elems).1 (omega arith)) run, rw e holds')
      | inr e ↦
          let ne = ==_false i (length xs) e in
          let (a', run, holds') = update-Holds a xs h i holds (omega arith) in
          (a', rw (front.0, front.1, ==_ne i a.elems (omega arith)) run, rw e holds')
    ]

-- `mt_al_get` returns the hash at the index, and NULL exactly where there is none.
pub get-Holds :
    (a : ArrayList) (xs : List Bytes) (i : ℕ) → Holds a xs → get a i ≡ done (get_elem? xs i)
unfolding get
get-Holds a xs i holds =
    let c = holds.count in
    let small = holds.small in
    let front : ltb a.elems 536870912 ≡ true = lt→ltb a.elems 536870912 (omega arith) in
    elim (Bool-cases (ltb i (length xs))) [
      | inl e ↦
          let lt = ltb→lt i (length xs) e in
          let (b, s, f) = live_of_pos a.store xs holds.fits (omega arith) in
          let (h, found) = get_elem?-some xs i lt in
          let byte : (mul_u32 i 32 ≡ i * 32) × (i * 32 / 32 ≡ i) = omega arith in
          let room = f.room in
          let covers = f.covers in
          rw (
            front,
            lt→ltb i a.elems (omega arith),
            s,
            byte.0,
            read_live b (i * 32) h (omega arith) (rw byte.1 (f.reads i lt ∙ found)),
            found,
          )
      | inr e ↦
          let ge = ltb→ge i (length xs) e in
          rw (front, ge→ltb i a.elems (omega arith), get_elem?-none xs i ge)
    ]
