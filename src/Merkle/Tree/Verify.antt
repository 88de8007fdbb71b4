-- ===== src/Merkle/Tree/Verify.antt =====
-- src/merkle/mt_impl.c: `mt_verify` compares the root over the presented tag with the stored root.
use native.Mathlib.Nat.{pow-suc}
use kvsev.Prelude.{
  ℕ, zero, suc, ◌+◌, ◌*◌, ◌/◌, ◌^◌, ◌≤◌, ◌<◌, ◌≡◌, refl, sym, ◌∙◌, some, List, arith, ltb,
  Bool-cases, inl, inr, length, get_elem?, get_elem?-lt, get_elem?-some, if◌then◌else◌, lt→ltb,
  ge→ltb, ltb→lt, ltb→ge, le→leb, set, length-set, get_elem?-set_self, get_elem?-set_ne,
}
use kvsev.Prelude.Bytes.{same_bytes}
use kvsev.Prelude.Outcome.{Outcome, done}
use kvsev.Merkle.Config.{Bytes, hash_length, u32, MtError, success, root_mismatch}
use kvsev.Merkle.Hash.{Sha256, IsSha256}
use kvsev.Merkle.ArrayList.Holds.{capacity}
use kvsev.Merkle.Tree.{Tree, verify, verify_loop, compare_at, compare_root, on_climb, init_hash}
use kvsev.Merkle.Tree.Spec.{
  AgreeOff, nodes, kept, root, kept_below, length-kept, length-nodes, merge_pairs-AgreeOff,
  root_of_single,
}
use kvsev.Merkle.Tree.State.{LevelsAre, get_at-LevelsAre}
use kvsev.Merkle.Tree.Models.{Models, Sized, Sized-set, length-init_hash}
use kvsev.Merkle.Tree.Climb.{pow-le, has_next_level_lem, climb_lem}

mul_mono : (a b p : ℕ) → a ≤ b → a * p ≤ b * p
mul_mono a b p h = grind arith

-- The path of index `q` on level `l` of two trees of one shape.
pub record OnPath (digest : Bytes → Bytes) (xs ys : List Bytes) (l j q : ℕ) (d : Bytes)
    : Type 0 where
  pub rest : l + j ≡ 26
  pub width : length (nodes digest xs l) ≤ 2 ^ j
  pub place : q * 2 ^ l < capacity
  pub agree : AgreeOff q (nodes digest xs l) (nodes digest ys l)
  pub same : length (nodes digest xs l) ≡ length (nodes digest ys l)
  pub node : get_elem? (nodes digest ys l) q ≡ some d
  pub first : get_elem? (kept digest xs l) 0 ≡ get_elem? (nodes digest xs l) 0
  pub first' : get_elem? (kept digest ys l) 0 ≡ get_elem? (nodes digest ys l) 0

module _ (digest : Bytes → Bytes) (xs ys : List Bytes) where
  pub OnPath-bound : {l j q : ℕ} {d : Bytes} → OnPath digest xs ys l j q d → (q + 1) * 2 ^ l < u32
  OnPath-bound {l} {j} {q} h = let p = h.place in omega (arith, pow-le l j h.rest)

  -- One level up.
  pub OnPath-suc :
      {l j q : ℕ} {d : Bytes} (d' : Bytes)
      → OnPath digest xs ys l (suc j) q d
      → 1 < length (nodes digest xs l)
      → get_elem? (nodes digest ys (suc l)) (q / 2) ≡ some d'
      → OnPath digest xs ys (suc l) j (q / 2) d'
  unfolding nodes
  OnPath-suc {l} {j} {q} d' h two node =
      let (r, w, p, s) : (l + suc j ≡ 26)
          × (length (nodes digest xs l) ≤ 2 ^ suc j)
          × (q * 2 ^ l < capacity)
          × (length (nodes digest xs l) ≡ length (nodes digest ys l)) =
        (h.rest, h.width, h.place, h.same) in
      record {
        rest = omega arith;
        width = omega (arith, length-nodes digest xs l, pow-suc 2 j);
        place = rw (pow-suc 2 l) (halved q (2 ^ l) p);
        agree = merge_pairs-AgreeOff digest q _ _ h.agree;
        same = omega (arith, length-nodes digest xs l, length-nodes digest ys l);
        node = node;
        first = kept_below digest xs (suc l) 0 (omega (arith, length-kept digest xs l));
        first' = kept_below digest ys (suc l) 0 (omega (arith, length-kept digest ys l));
      }
    where
      halved : (q p : ℕ) → q * p < capacity → q / 2 * (p * 2) < capacity
      halved q p h = omega (arith, mul_mono (q / 2 * 2) q p (omega arith))

  -- On a level of one node the path has reached the root.
  pub OnPath-end :
      {l j q : ℕ} {d : Bytes}
      → OnPath digest xs ys l j q d
      → length (nodes digest xs l) ≤ 1
      → (q ≡ 0)
        × (root digest ys ≡ some d)
        × (get_elem? (kept digest ys l) 0 ≡ some d)
        × (r : Bytes) × (root digest xs ≡ some r)
        × (get_elem? (kept digest xs l) 0 ≡ some r)
  OnPath-end {l} {j} {q} {d} h one =
      let s = h.same in
      let e = h.rest in
      let inside = get_elem?-lt (nodes digest ys l) q h.node in
      let z : q ≡ 0 = omega arith in
      let node : get_elem? (nodes digest ys l) 0 ≡ some d = rw z at h.node in
      let (r, found) = get_elem?-some (nodes digest xs l) 0 (omega arith) in
      (
        z,
        root_of_single digest (j + 4) l ys (omega arith) (omega arith) ∙ node,
        h.first' ∙ node,
        r,
        root_of_single digest (j + 4) l xs (omega arith) (omega arith) ∙ found,
        h.first ∙ found,
      )

  -- A leaf replaced.
  pub OnPath-start :
      (o : ℕ) (d : Bytes)
      → length xs ≤ capacity
      → o < length xs
      → ys ≡ set xs o d
      → OnPath digest xs ys 0 26 o d
  unfolding nodes kept
  OnPath-start o d small lt e = record {
    rest = refl;
    width = small;
    place = omega arith;
    agree = λ i ne. rw e (sym (get_elem?-set_ne xs o i d (λ w. ne (sym w))));
    same = rw e (sym (length-set xs o d));
    node = rw e (get_elem?-set_self xs o d lt);
    first = refl;
    first' = refl;
  }

module _ {sha : Sha256} (digest : Bytes → Bytes) (works : IsSha256 sha digest) (t : Tree)
    (xs ys : List Bytes) (levels : LevelsAre t (kept digest xs)) (sized : Sized ys) where
  -- What the loop of `mt_verify` answers.
  record Answers (r : Outcome MtError) : Type 0 where
    pub stored : Bytes
    pub given : Bytes
    pub stored_root : root digest xs ≡ some stored
    pub given_root : root digest ys ≡ some given
    pub answer : r ≡ done (if same_bytes given stored then success else root_mismatch)

  answer_at_end :
      (l j q : ℕ) (d : Bytes)
      → OnPath digest xs ys l j q d
      → length (nodes digest xs l) ≤ 1
      → Answers (compare_at t l q d)
  unfolding compare_at compare_root
  answer_at_end l j q d h one =
      let e = h.rest in
      let (z, given, _, r, stored, top) = OnPath-end digest xs ys h one in
      record {
        stored = r;
        given = d;
        stored_root = stored;
        given_root = given;
        answer = rw (z, get_at-LevelsAre t (kept digest xs) l 0 levels (omega arith), top);
      }

  verify_loop_lem :
      (n j l q : ℕ) (d : Bytes)
      → j < n
      → OnPath digest xs ys l j q d
      → Answers (verify_loop sha n q l d t)
  unfolding verify_loop on_climb
  verify_loop_lem zero j l q d p h = elim p [ ]
  verify_loop_lem (suc n) zero l q d p h =
      let e = h.rest in
      let one = h.width in
      let next = has_next_level_lem digest t (kept digest xs) levels xs l (omega arith) refl in
      rw (next, ge→ltb 1 (length (nodes digest xs l)) one) (answer_at_end l zero q d h one)
  verify_loop_lem (suc n) (suc j) l q d p h =
      let e = h.rest in
      let next = has_next_level_lem digest t (kept digest xs) levels xs l (omega arith) refl in
      elim (Bool-cases (ltb 1 (length (nodes digest xs l)))) [
        | inl more ↦
            let (d', run, node) =
              climb_lem digest works t (kept digest xs) levels xs ys sized l q d (omega arith)
                (OnPath-bound digest xs ys h) (λ m _. refl) h.agree h.same h.node in
            let h' =
              OnPath-suc digest xs ys d' h (ltb→lt 1 (length (nodes digest xs l)) more) node in
            rw (next, more, run) (verify_loop_lem n j (suc l) (q / 2) d' (omega arith) h')
        | inr stop ↦
            rw (next, stop)
              (answer_at_end l (suc j) q d h (ltb→ge 1 (length (nodes digest xs l)) stop))
      ]

-- `mt_verify` of a tag at the index of a leaf reads no memory out of bounds, and returns
-- MT_SUCCESS if the root of the leaves with the padded tag at that index is the root of the leaves,
-- and MT_ERR_ROOT_MISMATCH otherwise.
pub verify-root :
    (sha : Sha256) (digest : Bytes → Bytes) (t : Tree) (xs : List Bytes) (tag : Bytes) (o : ℕ)
    → IsSha256 sha digest
    → Models digest t xs
    → o < length xs
    → length tag ≤ hash_length
    → (stored given : Bytes) × (root digest xs ≡ some stored)
      × (root digest (set xs o (init_hash tag)) ≡ some given)
      × (verify sha (some t) (some tag) o
          ≡ done (if same_bytes given stored then success else root_mismatch))
unfolding verify
verify-root sha digest t xs tag o works models lt fits =
    let d : Bytes = init_hash tag in
    let count = models.count in
    let sized = Sized-set xs o d models.sized (length-init_hash tag fits) in
    let start = OnPath-start digest xs (set xs o d) o d models.small lt refl in
    let a =
      verify_loop_lem digest works t xs (set xs o d) models.levels sized 30 26 0 o d (omega arith)
        start in
    (
      a.stored,
      a.given,
      a.stored_root,
      a.given_root,
      rw (le→leb _ _ fits, lt→ltb o t.elems (omega arith)) a.answer,
    )
