-- ===== src/Merkle/Tree/Add.antt =====
-- src/merkle/mt_impl.c: `mt_add` extends the leaves by one.
use native.Mathlib.Nat.{pow-suc}
use kvsev.Prelude.{
  ℕ, zero, suc, ◌+◌, ◌-◌, ◌/◌, ◌%◌, ◌^◌, ◌≤◌, ◌<◌, ◌≡◌, refl, sym, ◌∙◌, ap, ◌≢◌, Bool, true, false,
  some, List, [], ◌∷◌, ◌++◌, arith, ltb, ◌==◌, ==_iff, ==_ne, ==_false, Bool-cases, inl, inr,
  length, get_elem?, if◌then◌else◌, length-append, le→leb, ltb→lt, ltb→ge, get_elem?-append_end,
}
use kvsev.Prelude.Outcome.{Outcome, done, ◌>>=◌}
use kvsev.Merkle.Config.{Bytes, hash_length, tree_levels, success, ok}
use kvsev.Merkle.Hash.{Sha256, IsSha256, mt_hash, mt_hash-digest}
use kvsev.Merkle.ArrayList
use kvsev.Merkle.ArrayList.{ArrayList, add_u32}
use kvsev.Merkle.ArrayList.Holds.{capacity}
use kvsev.Merkle.ArrayList.Grow.{add-Holds}
use kvsev.Merkle.ArrayList.Change.{add_or_update-Holds}
use kvsev.Merkle.Tree.{
  Tree, add, add_tag, add_above, add_loop, add_round, get_at, confirm_at, check, on_hash, guarded,
  init_hash, mt_right, Status,
}
use kvsev.Merkle.Tree.Spec.{nodes, kept, kept-nodes}
use kvsev.Merkle.Tree.State.{
  LevelsAre, change, LevelsAre-congr, get_at-LevelsAre, on_level-LevelsAre, confirm_at-LevelsAre,
}
use kvsev.Merkle.Tree.Spine.{Spine, append-Spine, Spine-even, Spine-odd, put_self}
use kvsev.Merkle.Tree.Models.{Models, Sized, Sized-get, Sized-append, nodes-Sized, length-init_hash}

round_left :
    (sha : Sha256) (mem : ℕ → Bool) (q l : ℕ) (d : Bytes) (t : Tree)
    (next : Bytes → Tree → Outcome Status)
    → (q % 2 == 1) ≡ false
    → add_round sha mem q l d t next ≡ next d t
unfolding add_round mt_right
round_left sha mem q l d t next e = rw e

module _ {sha : Sha256} (digest : Bytes → Bytes) (works : IsSha256 sha digest) (mem : ℕ → Bool)
    (granted : (l : ℕ) → mem l ≡ true) (xs ys : List Bytes) (sized : Sized ys) where
  -- Above the last node, the levels are already what they will be.
  settled :
      (k l m : ℕ) (d : Bytes)
      → m ≡ l + suc k
      → Spine (nodes digest xs l) (nodes digest ys l) 0 d
      → kept digest xs m ≡ kept digest ys m
  unfolding nodes kept
  settled zero l m d e s =
      let z : m ≡ suc l = omega arith in rw z (Spine-even digest _ _ 0 d s refl).1
  settled (suc k) l m d e s =
      settled k (suc l) m d (omega arith) (Spine-even digest _ _ 0 d s refl).0

  -- What holds at the head of the loop of `mt_add`.
  record AtHead (l q : ℕ) (d : Bytes) (t : Tree) : Type 0 where
    held : ℕ → List Bytes
    levels : LevelsAre t held
    done_below : (m : ℕ) → m ≤ l → held m ≡ kept digest ys m
    same_above : (m : ℕ) → l < m → held m ≡ kept digest xs m
    spine : Spine (nodes digest xs l) (nodes digest ys l) q d
    top : q ≡ 0 → get_elem? (held l) 0 ≡ some d

  -- What holds when the loop has returned.
  record Returned (t : Tree) (r : Outcome Status) : Type 0 where
    tree : Tree
    runs : r ≡ done (success, tree)
    same : tree.elems ≡ t.elems
    levels : LevelsAre tree (kept digest ys)

  final_levels : (l : ℕ) (d : Bytes) (t : Tree) → AtHead l 0 d t → LevelsAre t (kept digest ys)
  final_levels l d t h =
      LevelsAre-congr t h.held (kept digest ys)
        (λ m. elim (Bool-cases (ltb l m)) [
          | inl e ↦
              let lt = ltb→lt l m e in
              h.same_above m lt ∙ settled (m - l - 1) l m d (omega arith) h.spine
          | inr e ↦ h.done_below m (ltb→ge l m e)
        ])
        h.levels

  at_end :
      (l : ℕ) (d : Bytes) (t : Tree)
      → l < tree_levels
      → AtHead l 0 d t
      → Returned t (confirm_at t l 0 d)
  at_end l d t p h = record {
    tree = t;
    runs = confirm_at-LevelsAre t h.held l 0 d h.levels p (h.top refl);
    same = refl;
    levels = final_levels l d t h;
  }

  -- A left node: nothing is stored.
  at_left :
      (l q : ℕ) (d : Bytes) (t : Tree)
      → q % 2 ≡ 0
      → q ≢ 0
      → AtHead l q d t
      → AtHead (suc l) (q / 2) d t
  unfolding nodes kept
  at_left l q d t e ne h =
      let (s, same) = Spine-even digest _ _ q d h.spine e in
      record {
        held = h.held;
        levels = h.levels;
        done_below = λ m p. elim (Bool-cases (m == suc l)) [
          | inl eq ↦
              let z = (==_iff m (suc l)).0 eq in rw z (h.same_above (suc l) (omega arith) ∙ same)
          | inr o ↦ let w = ==_false m (suc l) o in h.done_below m (omega arith)
        ];
        same_above = λ m p. h.same_above m (omega arith);
        spine = s;
        top = λ z. absurd (omega arith);
      }

  -- A right node: the pair's digest goes to the level above.
  at_right :
      (l q : ℕ) (d : Bytes) (t : Tree)
      → suc l < tree_levels
      → q < capacity
      → q % 2 ≡ 1
      → AtHead l q d t
      → (d' : Bytes) × (t' : Tree) × (t'.elems ≡ t.elems)
        × AtHead (suc l) (q / 2) d' t'
        × ((next : Bytes → Tree → Outcome Status) → add_round sha mem q l d t next ≡ next d' t')
  unfolding nodes kept add_round mt_right on_hash check
  at_right l q d t p small e h =
      let (left, found, s, stored, room) = Spine-odd digest _ _ q d h.spine e in
      let last = h.spine.last in
      let d' : Bytes = digest (left ++ d) in
      let read : get_at t l (q - 1) ≡ done (some left) =
        get_at-LevelsAre t h.held l (q - 1) h.levels (omega arith)
        ∙ ap done (
            ap (λ zs. get_elem? zs (q - 1)) (h.done_below l (omega arith))
            ∙ kept-nodes digest ys l (q - 1) (omega arith)
            ∙ found) in
      let all = nodes-Sized digest works ys l sized in
      let hashed : mt_hash sha (some left) (some d) ≡ ok d' =
        mt_hash-digest sha works left d (Sized-get _ (q - 1) left all found)
          (Sized-get _ q d all h.spine.node) in
      let above : h.held (suc l) ≡ kept digest xs (suc l) = h.same_above (suc l) (omega arith) in
      let (t', run, same, levels) =
        on_level-LevelsAre t h.held (suc l) (λ a. ArrayList.add_or_update true a (some d') (q / 2))
          (kept digest ys (suc l)) h.levels p
          (λ a holds. rw stored at (
            add_or_update-Holds a (kept digest xs (suc l)) d' (q / 2) (rw above at holds) room
              (omega arith))) in
      let next_level : l + 1 ≡ suc l = omega arith in
      (
        d',
        t',
        same,
        record {
          held = change h.held (suc l) (kept digest ys (suc l));
          levels = levels;
          done_below = λ m pm. elim (Bool-cases (m == suc l)) [
            | inl eq ↦ rw (eq, (==_iff m (suc l)).0 eq)
            | inr o ↦ let w = ==_false m (suc l) o in rw o (h.done_below m (omega arith))
          ];
          same_above = λ m pm. rw (==_ne m (suc l) (omega arith)) (h.same_above m (omega arith));
          spine = s;
          top = λ z.
              rw ((==_iff (suc l) (suc l)).1 refl)
                (rw z at (rw stored at (put_self (kept digest xs (suc l)) (q / 2) d' room)));
        },
        λ next. rw ((==_iff (q % 2) 1).1 e, read, hashed, next_level, granted (suc l), run),
      )

  -- The loop ends, with every level brought up to date: 26 more rounds than levels above are enough.
  add_loop_lem :
      (j l q : ℕ) (d : Bytes) (t : Tree)
      → l + j ≡ 26
      → q < 2 ^ j
      → q < capacity
      → AtHead l q d t
      → Returned t (add_loop sha mem (suc (suc (suc (suc j)))) q l d t)
  unfolding add_loop
  add_loop_lem zero l q d t e p small h =
      let z : q ≡ 0 = omega arith in rw z (at_end l d t (omega arith) (rw z at h))
  add_loop_lem (suc j) l q d t e p small h = elim (Bool-cases (q == 0)) [
    | inl z ↦ let z' = (==_iff q 0).0 z in rw z' (at_end l d t (omega arith) (rw z' at h))
    | inr nz ↦
        let ne = ==_false q 0 nz in
        let half : q / 2 < 2 ^ j = omega (arith, pow-suc 2 j) in
        elim (Bool-cases (q % 2 == 1)) [
          | inl odd ↦
              let (d', t', same, h', run) =
                at_right l q d t (omega arith) small ((==_iff (q % 2) 1).0 odd) h in
              let r = add_loop_lem j (suc l) (q / 2) d' t' (omega arith) half (omega arith) h' in
              record {
                tree = r.tree;
                runs = rw (nz, add_loop, run) r.runs;
                same = r.same ∙ same;
                levels = r.levels;
              }
          | inr even ↦
              let w = ==_false (q % 2) 1 even in
              let h' = at_left l q d t (omega arith) ne h in
              let r = add_loop_lem j (suc l) (q / 2) d t (omega arith) half (omega arith) h' in
              record {
                tree = r.tree;
                runs = rw (nz, add_loop, round_left sha mem q l d t _ even) r.runs;
                same = r.same;
                levels = r.levels;
              }
        ]
  ]

-- The leaf stored, the loop starts.
module _ {sha : Sha256} (digest : Bytes → Bytes) (works : IsSha256 sha digest) (mem : ℕ → Bool)
    (granted : (l : ℕ) → mem l ≡ true) (xs : List Bytes) (d : Bytes)
    (sized : Sized (xs ++ d ∷ [])) where
  at_start :
      (t : Tree)
      → LevelsAre t (change (kept digest xs) 0 (xs ++ d ∷ []))
      → AtHead digest works mem granted xs (xs ++ d ∷ []) sized 0 (length xs) d t
  unfolding kept nodes
  at_start t levels = record {
    held = change (kept digest xs) 0 (xs ++ d ∷ []);
    levels = levels;
    done_below = λ m p. let z : m ≡ 0 = omega arith in rw z;
    same_above = λ m p. rw (==_ne m 0 (omega arith));
    spine = append-Spine xs d;
    top = λ z. rw z at (get_elem?-append_end xs d);
  }

  after_start :
      (t : Tree)
      → length xs < capacity
      → t.elems ≡ suc (length xs)
      → LevelsAre t (change (kept digest xs) 0 (xs ++ d ∷ []))
      → (t' : Tree) × ((if t.elems == 1
            then done (success, t)
            else add_loop sha mem tree_levels (t.elems - 1) 0 d t)
          ≡ done (success, t'))
        × Models digest t' (xs ++ d ∷ [])
  after_start t small count levels =
      let head = at_start t levels in
      let len : length (xs ++ d ∷ []) ≡ suc (length xs) =
        omega (arith, length-append xs (d ∷ [])) in
      let back : t.elems - 1 ≡ length xs = omega arith in
      elim (Bool-cases (length xs == 0)) [
        | inl e ↦
            let z = (==_iff (length xs) 0).0 e in
            let final =
              final_levels digest works mem granted xs (xs ++ d ∷ []) sized 0 d t (rw z at head) in
            (
              t,
              rw ((==_iff t.elems 1).1 (omega arith)),
              record {
                count = count ∙ sym len;
                small = omega arith;
                sized = sized;
                levels = final;
              },
            )
        | inr e ↦
            let ne = ==_false (length xs) 0 e in
            let r =
              add_loop_lem digest works mem granted xs (xs ++ d ∷ []) sized 26 0 (length xs) d t
                refl small small head in
            (
              r.tree,
              rw (==_ne t.elems 1 (omega arith), back) r.runs,
              record {
                count = r.same ∙ count ∙ sym len;
                small = omega arith;
                sized = sized;
                levels = r.levels;
              },
            )
      ]

-- `mt_add` on a tree of fewer than 2 ^ 26 leaves, with memory granted and a tag of at most 32
-- bytes, returns MT_SUCCESS, fails no assertion, and leaves the tree of the leaves with the padded
-- tag behind them.
pub add-Models :
    (sha : Sha256) (digest : Bytes → Bytes) (mem : ℕ → Bool) (t : Tree) (xs : List Bytes)
    (tag : Bytes)
    → IsSha256 sha digest
    → ((l : ℕ) → mem l ≡ true)
    → Models digest t xs
    → length xs < capacity
    → length tag ≤ hash_length
    → (t' : Tree) × (add sha mem (some t) (some tag) ≡ done (success, some t'))
      × Models digest t' (xs ++ init_hash tag ∷ [])
unfolding add guarded add_tag check add_above kept
add-Models sha digest mem t xs tag works granted models small fits =
    let d : Bytes = init_hash tag in
    let count = models.count in
    let sized = Sized-append xs d models.sized (length-init_hash tag fits) in
    let (t₁, run, same, levels) =
      on_level-LevelsAre t (kept digest xs) 0 (λ a. ArrayList.add true a (some d)) (xs ++ d ∷ [])
        models.levels (omega arith) (λ a holds. add-Holds a xs d holds small) in
    let one_more : add_u32 t₁.elems 1 ≡ suc (length xs) = omega arith in
    let (t', run', models') =
      after_start digest works mem granted xs d sized (record t₁ { elems = add_u32 t₁.elems 1 })
        small one_more (record { count = levels.count; holds = levels.holds }) in
    (t', rw (le→leb _ _ fits, granted 0, run, ◌>>=◌, run'), models')
