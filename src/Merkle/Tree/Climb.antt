-- ===== src/Merkle/Tree/Climb.antt =====
-- src/merkle/mt_impl.c: one round of `mt_verify` and of `mt_update`, with `findRightNeighbor` and
-- `hasNextLevelExceptRoot`.
use native.Mathlib.Nat.{pow-suc}
use kvsev.Prelude.{
  ℕ, zero, suc, ◌+◌, ◌-◌, ◌*◌, ◌/◌, ◌%◌, ◌^◌, ◌≤◌, ◌<◌, ◌≡◌, refl, sym, ◌∙◌, ap, Option, none, some,
  List, ◌++◌, arith, ltb, ◌==◌, ==_iff, ==_false, Bool-cases, Option-cases, inl, inr, length,
  get_elem?, get_elem?-lt, get_elem?-some, get_elem?-none, lt→ltb, ltb→lt, ltb→ge,
}
use kvsev.Prelude.Outcome.{done}
use kvsev.Merkle.Config.{Bytes, tree_levels, u32, ok}
use kvsev.Merkle.Hash.{Sha256, IsSha256, mt_hash, mt_hash-digest}
use kvsev.Merkle.ArrayList.{get_size}
use kvsev.Merkle.ArrayList.Powers.{pow-pos}
use kvsev.Merkle.Tree.{Tree, find_right, has_next_level, climb, join_right, get_at, mt_left}
use kvsev.Merkle.Tree.Spec.{
  AgreeOff, nodes, kept, kept-nodes, kept_below, length-kept, merge_even, merge_odd,
  get_elem?-merge_pairs, join,
}
use kvsev.Merkle.Tree.State.{LevelsAre, get_at-LevelsAre, at_level-LevelsAre}
use kvsev.Merkle.Tree.Models.{Sized, Sized-get, nodes-Sized}

-- `2 ^ l` for the levels in use.
pub pow-le : (l j : ℕ) → l + j ≡ 26 → 2 ^ l ≤ 67108864
pow-le l zero e = let z : l ≡ 26 = omega arith in rw z (omega arith)
pow-le l (suc j) e = omega (arith, pow-suc 2 l, pow-le (suc l) j (omega arith))

le_mul : (q p : ℕ) → 0 < p → q ≤ q * p
le_mul q p h = grind arith

module _ (digest : Bytes → Bytes) (t : Tree) (f : ℕ → List Bytes) (levels : LevelsAre t f) where
  -- `hasNextLevelExceptRoot` tells whether the level has two nodes.
  pub has_next_level_lem :
      (xs : List Bytes) (l : ℕ)
      → l < 27
      → f (suc l) ≡ kept digest xs (suc l)
      → has_next_level t l ≡ done (ltb 1 (length (nodes digest xs l)))
  unfolding has_next_level
  has_next_level_lem xs l h e =
      let (a, run, size, reads) = at_level-LevelsAre t f (suc l) levels (omega arith) in
      let up : l + 1 ≡ suc l = omega arith in
      let n = length-kept digest xs l in
      let width : get_size a ≡ length (nodes digest xs l) / 2 = size ∙ ap length e ∙ n in
      rw (up, run, width, lt→ltb (suc l) 29 (omega arith))
        (ap done (halves (length (nodes digest xs l))))
    where
      halves : (n : ℕ) → ltb 0 (n / 2) ≡ ltb 1 n
      halves n = ground arith

  -- `findRightNeighbor` reads the node of the full level, also where the code does not keep it.
  pub find_right_lem :
      (xs : List Bytes) (l q : ℕ)
      → l < tree_levels
      → q * 2 ^ l < u32
      → ((m : ℕ) → m ≤ l → f m ≡ kept digest xs m)
      → find_right t q l ≡ done (get_elem? (nodes digest xs l) q)
  unfolding find_right nodes kept
  find_right_lem xs zero q p b same =
      let (a, run, size, reads) = at_level-LevelsAre t f 0 levels p in
      let w = same 0 (omega arith) in
      elim (Bool-cases (ltb q (length xs))) [
        | inl e ↦ rw (run, size, w, e, reads q, w)
        | inr e ↦ rw (run, size, w, e, get_elem?-none xs q (ltb→ge q (length xs) e))
      ]
  find_right_lem xs (suc l) q p b same =
      let (a, run, size, reads) = at_level-LevelsAre t f (suc l) levels p in
      let w = same (suc l) (omega arith) in
      let pos = pow-pos l in
      let b' : q * (2 ^ l * 2) < u32 = rw (pow-suc 2 l) at b in
      let double : q * 2 * 2 ^ l < u32 = omega arith in
      let exact : q * 2 % u32 ≡ q * 2 = omega (arith, le_mul q (2 ^ l) pos) in
      let below = find_right_lem xs l (q * 2) (omega arith) double (λ m h. same m (omega arith)) in
      elim (Bool-cases (ltb q (length (kept digest xs (suc l))))) [
        | inl e ↦
            let lt = ltb→lt q (length (kept digest xs (suc l))) e in
            rw (run, size, w, e, reads q, w) (ap done (kept_below digest xs (suc l) q lt))
        | inr e ↦
            let ge = ltb→ge q (length (kept digest xs (suc l))) e in
            rw (run, size, w, e, exact, below)
              (ap done (
                sym (
                  get_elem?-merge_pairs digest (nodes digest xs l) q
                  ∙ lonely q (omega (arith, length-kept digest xs l)))))
      ]
    where
      lonely :
          (i : ℕ)
          → length (nodes digest xs l) ≤ 2 * i + 1
          → join digest
              (get_elem? (nodes digest xs l) (2 * i))
              (get_elem? (nodes digest xs l) (2 * i + 1))
            ≡ get_elem? (nodes digest xs l) (i * 2)
      lonely i h =
          let z : 2 * i ≡ i * 2 = omega arith in
          rw (get_elem?-none (nodes digest xs l) (2 * i + 1) h, z)
            (alone (get_elem? (nodes digest xs l) (i * 2)))
        where
          alone : (o : Option Bytes) → join digest o none ≡ o
          alone none = refl
          alone (some a) = refl

module _ {sha : Sha256} (digest : Bytes → Bytes) (works : IsSha256 sha digest) (t : Tree)
    (f : ℕ → List Bytes) (levels : LevelsAre t f) (xs ys : List Bytes) (sized : Sized ys) where
  -- One round reads the neighbour from the tree over `xs`, and computes the node of the level above
  -- over `ys`, when the two agree off the path.
  pub climb_lem :
      (l q : ℕ) (d : Bytes)
      → l < tree_levels
      → (q + 1) * 2 ^ l < u32
      → ((m : ℕ) → m ≤ l → f m ≡ kept digest xs m)
      → AgreeOff q (nodes digest xs l) (nodes digest ys l)
      → length (nodes digest xs l) ≡ length (nodes digest ys l)
      → get_elem? (nodes digest ys l) q ≡ some d
      → (d' : Bytes) × (climb sha t q l d ≡ done (ok d'))
        × (get_elem? (nodes digest ys (suc l)) (q / 2) ≡ some d')
  unfolding climb mt_left nodes join_right
  climb_lem l q d p b same agree len node = elim (Bool-cases (q % 2 == 1)) [
    | inl odd ↦
        let o = (==_iff (q % 2) 1).0 odd in
        let inside = get_elem?-lt (nodes digest ys l) q node in
        let (left, found) = get_elem?-some (nodes digest ys l) (q - 1) (omega arith) in
        let read : get_at t l (q - 1) ≡ done (some left) =
          get_at-LevelsAre t f l (q - 1) levels p
          ∙ ap done (
              ap (λ zs. get_elem? zs (q - 1)) (same l (omega arith))
              ∙ kept-nodes digest xs l (q - 1) (omega arith)
              ∙ agree (q - 1) (omega arith)
              ∙ found) in
        (
          digest (left ++ d),
          rw (odd, read, hashed left d (q - 1) q found node),
          merge_odd digest (nodes digest ys l) q o ∙ rw (found, node),
        )
    | inr even ↦
        let o = ==_false (q % 2) 1 even in
        let above = merge_even digest (nodes digest ys l) q (omega arith) in
        let read : find_right t (q + 1) l ≡ done (get_elem? (nodes digest ys l) (q + 1)) =
          find_right_lem digest t f levels xs l (q + 1) p b same
          ∙ ap done (agree (q + 1) (omega arith)) in
        elim (Option-cases (get_elem? (nodes digest ys l) (q + 1))) [
          | inl e ↦ (d, rw (even, read, e), above ∙ rw (node, e))
          | inr (r, e) ↦ (
            digest (d ++ r),
            rw (even, read, e, hashed d r q (q + 1) node e),
            above ∙ rw (node, e),
          )
        ]
  ]
    where
      hashed :
          (a b : Bytes) (i j : ℕ)
          → get_elem? (nodes digest ys l) i ≡ some a
          → get_elem? (nodes digest ys l) j ≡ some b
          → mt_hash sha (some a) (some b) ≡ ok (digest (a ++ b))
      hashed a b i j p q =
          let all = nodes-Sized digest works ys l sized in
          mt_hash-digest sha works a b (Sized-get _ i a all p) (Sized-get _ j b all q)
