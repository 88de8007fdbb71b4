-- ===== src/Merkle/Tree/Forge.antt =====
-- src/merkle/mt_impl.c: what `mt_verify` accepts.
use native.Mathlib.Nat.{pow-suc}
use kvsev.Prelude.{
  ℕ, zero, suc, ◌+◌, ◌-◌, ◌/◌, ◌%◌, ◌^◌, ◌≤◌, ◌<◌, ◌≡◌, refl, sym, ◌∙◌, ap, ◌≢◌, true, Option, none,
  some, List, [], ◌∷◌, ◌++◌, arith, ◌==◌, ==_iff, ==_false, Bool-cases, inl, inr, ◌⊎◌, length,
  get_elem?, get_elem?-lt, get_elem?-some, set, get_elem?-set_self, get_elem?-set_ne,
}
use kvsev.Prelude.Bytes.{same_bytes, same_bytes_refl, same_bytes→eq, Bytes-discrete}
use kvsev.Prelude.Outcome.{done}
use kvsev.Merkle.Config.{Bytes, hash_length, tree_levels, success}
use kvsev.Merkle.Hash.{Sha256, IsSha256}
use kvsev.Merkle.ArrayList.Holds.{capacity}
use kvsev.Merkle.Tree.{Tree, verify, init_hash}
use kvsev.Merkle.Tree.Spec.{
  AgreeOff, nodes, root, length-nodes, merge_pairs-AgreeOff, merge_pairs, merge_even, merge_odd,
  join,
}
use kvsev.Merkle.Tree.Models.{Models}
use kvsev.Merkle.Tree.Verify.{verify-root}
use mathlib.Core.List.{append_cancel_left, append_cancel_right}

-- Two messages with one digest.
abbrev pub Collision : (Bytes → Bytes) → Type 0
Collision digest = (m n : Bytes) × (m ≢ n) × (digest m ≡ digest n)

set_same : (xs : List Bytes) (o : ℕ) (d : Bytes) → get_elem? xs o ≡ some d → set xs o d ≡ xs
set_same [] o d h = refl
set_same (x ∷ xs) zero d h = let e : d ≡ x = (cc) in rw e
set_same (x ∷ xs) (suc o) d h = ap (λ r. x ∷ r) (set_same xs o d h)

module _ (digest : Bytes → Bytes) where
  -- Equal digests come from equal messages, or collide.
  no_collision : (m n : Bytes) → digest m ≡ digest n → (m ≡ n) ⊎ Collision digest
  no_collision m n e = elim (Bytes-discrete m n) [ yes p ↦ inl p | no p ↦ inr (m, n, p, e) ]

  -- Two nodes with one node above them, and the same neighbour.
  join_left :
      (a b : Bytes) (right : Option Bytes)
      → join digest (some a) right ≡ join digest (some b) right
      → (a ≡ b) ⊎ Collision digest
  join_left a b none e = inl (cc)
  join_left a b (some r) e = elim (no_collision (a ++ r) (b ++ r) (cc)) [
    | inl p ↦ inl (append_cancel_right a b r p)
    | inr c ↦ inr c
  ]

  join_right :
      (left : Option Bytes) (l a b : Bytes)
      → left ≡ some l
      → join digest left (some a) ≡ join digest left (some b)
      → (a ≡ b) ⊎ Collision digest
  join_right left l a b f e =
      let e' : join digest (some l) (some a) ≡ join digest (some l) (some b) = rw f at e in
      elim (no_collision (l ++ a) (l ++ b) (cc)) [
        | inl p ↦ inl (append_cancel_left l a b p)
        | inr c ↦ inr c
      ]

  -- One level down: the nodes below equal nodes are equal, or two messages collide.
  below :
      (ys zs : List Bytes) (q : ℕ) (a b : Bytes)
      → AgreeOff q ys zs
      → get_elem? ys q ≡ some a
      → get_elem? zs q ≡ some b
      → get_elem? (merge_pairs digest ys) (q / 2) ≡ get_elem? (merge_pairs digest zs) (q / 2)
      → (a ≡ b) ⊎ Collision digest
  below ys zs q a b agree ea eb e = elim (Bool-cases (q % 2 == 1)) [
    | inl odd ↦
        let o = (==_iff (q % 2) 1).0 odd in
        let (l, found) = get_elem?-some ys (q - 1) (omega (arith, get_elem?-lt ys q ea)) in
        join_right (get_elem? ys (q - 1)) l a b found (
          rw
            (
              ← ea,
              ← eb,
              ← merge_odd digest ys q o,
              agree (q - 1) (omega arith),
              ← merge_odd digest zs q o,
            )
            e)
    | inr even ↦
        let o = ==_false (q % 2) 1 even in
        join_left a b (get_elem? ys (q + 1)) (
          rw
            (
              ← ea,
              ← eb,
              ← merge_even digest ys q (omega arith),
              agree (q + 1) (omega arith),
              ← merge_even digest zs q (omega arith),
            )
            e)
  ]

  -- Down the path from one root: the nodes on each level are equal, or two messages collide.
  descend :
      (xs ys : List Bytes) (k l q : ℕ) (a b : Bytes)
      → l + k ≡ tree_levels
      → q < 2 ^ k
      → AgreeOff q (nodes digest xs l) (nodes digest ys l)
      → get_elem? (nodes digest xs l) q ≡ some a
      → get_elem? (nodes digest ys l) q ≡ some b
      → root digest xs ≡ root digest ys
      → (a ≡ b) ⊎ Collision digest
  unfolding root nodes
  descend xs ys zero l q a b e p agree ea eb same =
      let z : (l ≡ tree_levels) × (q ≡ 0) = (omega arith, omega arith) in
      let ea' = rw (z.0, z.1) at ea in let eb' = rw (z.0, z.1) at eb in inl (cc)
  descend xs ys (suc k) l q a b e p agree ea eb same =
      let (a', fa) =
        get_elem?-some (nodes digest xs (suc l)) (q / 2)
          (omega (arith, length-nodes digest xs l, get_elem?-lt _ q ea)) in
      let (b', fb) =
        get_elem?-some (nodes digest ys (suc l)) (q / 2)
          (omega (arith, length-nodes digest ys l, get_elem?-lt _ q eb)) in
      elim (descend xs ys k (suc l) (q / 2) a' b' (omega arith) (omega (arith, pow-suc 2 k))
        (merge_pairs-AgreeOff digest q _ _ agree) fa fb same) [
          | inl up ↦ below _ _ q a b agree ea eb (fa ∙ ap some up ∙ sym fb)
          | inr c ↦ inr c
        ]

  -- Leaves with one root: replacing a leaf by another digest takes a collision.
  pub root_binds :
      (xs : List Bytes) (o : ℕ) (d : Bytes)
      → length xs ≤ capacity
      → o < length xs
      → root digest xs ≡ root digest (set xs o d)
      → (get_elem? xs o ≡ some d) ⊎ Collision digest
  root_binds xs o d small lt same =
      let (a, ea) = get_elem?-some xs o lt in
      elim (descend xs (set xs o d) 30 0 o a d refl (omega arith)
        (unfold nodes in λ i ne. sym (get_elem?-set_ne xs o i d (λ w. ne (sym w))))
        (unfold nodes in ea) (unfold nodes in get_elem?-set_self xs o d lt) same) [
          | inl p ↦ inl (ea ∙ ap some p)
          | inr c ↦ inr c
        ]

-- If `mt_verify` accepts a tag at the index of a leaf, the leaf is the padded tag, or two messages
-- with one SHA-256 digest are at hand.
pub verify_sound :
    (sha : Sha256) (digest : Bytes → Bytes) (t : Tree) (xs : List Bytes) (tag : Bytes) (o : ℕ)
    → IsSha256 sha digest
    → Models digest t xs
    → o < length xs
    → length tag ≤ hash_length
    → verify sha (some t) (some tag) o ≡ done success
    → (get_elem? xs o ≡ some (init_hash tag)) ⊎ Collision digest
verify_sound sha digest t xs tag o works models lt fits accepted =
    let (stored, given, r, g, answer) = verify-root sha digest t xs tag o works models lt fits in
    let small = models.small in
    let same : same_bytes given stored ≡ true = ground (arith, answer, accepted) in
    let e = same_bytes→eq given stored same in
    root_binds digest xs o (init_hash tag) small lt (r ∙ ap some (sym e) ∙ sym g)

-- `mt_verify` accepts the tag of the leaf at its index.
pub verify_complete :
    (sha : Sha256) (digest : Bytes → Bytes) (t : Tree) (xs : List Bytes) (tag : Bytes) (o : ℕ)
    → IsSha256 sha digest
    → Models digest t xs
    → length tag ≤ hash_length
    → get_elem? xs o ≡ some (init_hash tag)
    → verify sha (some t) (some tag) o ≡ done success
verify_complete sha digest t xs tag o works models fits leaf =
    let lt = get_elem?-lt xs o leaf in
    let (stored, given, r, g, answer) = verify-root sha digest t xs tag o works models lt fits in
    let unchanged : set xs o (init_hash tag) ≡ xs = set_same xs o (init_hash tag) leaf in
    let e : given ≡ stored = let g' = rw unchanged at g in (cc) in
    answer ∙ rw (e, same_bytes_refl stored)
