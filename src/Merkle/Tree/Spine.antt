-- ===== src/Merkle/Tree/Spine.antt =====
-- The nodes above a leaf that is added at the end: what changes on each level.
use kvsev.Prelude.{
  ℕ, ◌+◌, ◌-◌, ◌/◌, ◌%◌, ◌≤◌, ◌≡◌, refl, sym, ◌∙◌, ◌≢◌, Option, none, some, List, [], ◌∷◌, ◌++◌,
  arith, ◌==◌, ==_iff, ==_false, Bool-cases, inl, inr, length, get_elem?, length-append,
  get_elem?-some, get_elem?-none, get_elem?-append_end, get_elem?-append_ne, get_elem?-set_self,
  get_elem?-set_ne, list_ext,
}
use kvsev.Merkle.Config.{Bytes}
use kvsev.Merkle.ArrayList.Change.{put}
use kvsev.Merkle.Tree.Spec
use kvsev.Merkle.Tree.Spec.{
  merge_pairs, full_pairs, AgreeOff, merge_pairs-AgreeOff, full_pairs-AgreeOff, merge_even,
  merge_odd, full_even, full_odd, length-merge_pairs, length-full_pairs,
}

-- `zs` has one more leaf below it than `ys`, on the path of its last node `q`, which is `d`.
pub record Spine (ys zs : List Bytes) (q : ℕ) (d : Bytes) : Type 0 where
  pub agree : AgreeOff q ys zs
  pub node : get_elem? zs q ≡ some d
  pub last : length zs ≡ q + 1
  pub older : length ys ≤ q + 1
  pub least : q ≤ length ys

pub append-Spine : (xs : List Bytes) (d : Bytes) → Spine xs (xs ++ d ∷ []) (length xs) d
append-Spine xs d = record {
  agree = λ i ne. sym (get_elem?-append_ne xs d i ne);
  node = get_elem?-append_end xs d;
  last = length-append xs (d ∷ []);
  older = omega arith;
  least = omega arith;
}

-- Reads after `put`, at an index that is not past the end.
pub put_self :
    (xs : List Bytes) (i : ℕ) (h : Bytes) → i ≤ length xs → get_elem? (put xs i h) i ≡ some h
put_self xs i h le = elim (Bool-cases (i == length xs)) [
  | inl e ↦ let z = (==_iff i (length xs)).0 e in rw (e, z) (get_elem?-append_end xs h)
  | inr e ↦ let ne = ==_false i (length xs) e in rw e (get_elem?-set_self xs i h (omega arith))
]

pub put_ne :
    (xs : List Bytes) (i j : ℕ) (h : Bytes) → j ≢ i → get_elem? (put xs i h) j ≡ get_elem? xs j
put_ne xs i j h ne = elim (Bool-cases (i == length xs)) [
  | inl e ↦
      let z = (==_iff i (length xs)).0 e in rw e (get_elem?-append_ne xs h j (λ w. ne (w ∙ sym z)))
  | inr e ↦ rw e (get_elem?-set_ne xs i j h (λ w. ne (sym w)))
]

module _ (digest : Bytes → Bytes) (ys zs : List Bytes) (q : ℕ) (d : Bytes)
    (s : Spine ys zs q d) where
  past : get_elem? zs (q + 1) ≡ none
  past = let l = s.last in get_elem?-none zs (q + 1) (omega arith)

  older_past : get_elem? ys (q + 1) ≡ none
  older_past = let l = s.older in get_elem?-none ys (q + 1) (omega arith)

  -- At a left node the level above has the same node and keeps what it had.
  pub Spine-even :
      q % 2 ≡ 0
      → Spine (merge_pairs digest ys) (merge_pairs digest zs) (q / 2) d
        × (full_pairs digest ys ≡ full_pairs digest zs)
  Spine-even e =
      let (l, o, m) : (length zs ≡ q + 1) × (length ys ≤ q + 1) × (q ≤ length ys) =
        (s.last, s.older, s.least) in
      (
        record {
          agree = merge_pairs-AgreeOff digest q ys zs s.agree;
          node = merge_even digest zs q e ∙ rw (s.node, past);
          last = omega (arith, length-merge_pairs digest zs);
          older = omega (arith, length-merge_pairs digest ys);
          least = omega (arith, length-merge_pairs digest ys);
        },
        list_ext (full_pairs digest ys) (full_pairs digest zs) (λ i.
            elim (Bool-cases (i == q / 2)) [
              | inl h ↦
                  let z = (==_iff i (q / 2)).0 h in
                  rw (z, full_even digest ys q e, full_even digest zs q e, past, older_past)
                    (no_pair (get_elem? ys q) (get_elem? zs q))
              | inr h ↦ full_pairs-AgreeOff digest q ys zs s.agree i (==_false i (q / 2) h)
            ]),
      )
    where
      no_pair : (a b : Option Bytes) → Spec.both digest a none ≡ Spec.both digest b none
      no_pair none none = refl
      no_pair none (some b) = refl
      no_pair (some a) none = refl
      no_pair (some a) (some b) = refl

  -- At a right node the level above gets the pair's digest, at its end or over the node there.
  pub Spine-odd :
      q % 2 ≡ 1
      → (left : Bytes) × (get_elem? zs (q - 1) ≡ some left)
        × Spine (merge_pairs digest ys) (merge_pairs digest zs) (q / 2) (digest (left ++ d))
        × (put (full_pairs digest ys) (q / 2) (digest (left ++ d)) ≡ full_pairs digest zs)
        × (q / 2 ≤ length (full_pairs digest ys))
  Spine-odd e =
      let (l, o, m) : (length zs ≡ q + 1) × (length ys ≤ q + 1) × (q ≤ length ys) =
        (s.last, s.older, s.least) in
      let (left, found) = get_elem?-some zs (q - 1) (omega arith) in
      let h : Bytes = digest (left ++ d) in
      let room : q / 2 ≤ length (full_pairs digest ys) =
        omega (arith, length-full_pairs digest ys) in
      (
        left,
        found,
        record {
          agree = merge_pairs-AgreeOff digest q ys zs s.agree;
          node = merge_odd digest zs q e ∙ rw (found, s.node);
          last = omega (arith, length-merge_pairs digest zs);
          older = omega (arith, length-merge_pairs digest ys);
          least = omega (arith, length-merge_pairs digest ys);
        },
        list_ext (put (full_pairs digest ys) (q / 2) h) (full_pairs digest zs) (λ i.
            elim (Bool-cases (i == q / 2)) [
              | inl t ↦
                  let z = (==_iff i (q / 2)).0 t in
                  rw z (
                    put_self (full_pairs digest ys) (q / 2) h room
                    ∙ sym (full_odd digest zs q e ∙ rw (found, s.node)))
              | inr t ↦
                  let ne = ==_false i (q / 2) t in
                  put_ne (full_pairs digest ys) (q / 2) i h ne
                  ∙ full_pairs-AgreeOff digest q ys zs s.agree i ne
            ]),
        room,
      )
