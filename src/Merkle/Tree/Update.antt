-- ===== src/Merkle/Tree/Update.antt =====
-- src/merkle/mt_impl.c: `mt_update` replaces a leaf.
use kvsev.Prelude.{
  ℕ, zero, suc, ◌+◌, ◌-◌, ◌/◌, ◌≤◌, ◌<◌, ◌≡◌, refl, sym, ◌∙◌, ap, some, List, [], ◌∷◌, arith, ltb,
  ◌==◌, ==_iff, ==_ne, ==_false, Bool-cases, inl, inr, length, get_elem?, get_elem?-none, lt→ltb,
  ge→ltb, ltb→lt, ltb→ge, le→leb, set, length-set, get_elem?-set_self, get_elem?-set_ne, list_ext,
}
use kvsev.Prelude.Outcome.{Outcome, done, ◌>>=◌}
use kvsev.Merkle.Config.{Bytes, hash_length, tree_levels, success}
use kvsev.Merkle.Hash.{Sha256, IsSha256}
use kvsev.Merkle.ArrayList
use kvsev.Merkle.ArrayList.Change.{update-Holds, update_if_exists-Holds}
use kvsev.Merkle.Tree.{
  Tree, init_hash, update, update_tag, update_loop, guarded, check, on_hash, on_level, confirm_at,
  Status,
}
use kvsev.Merkle.Tree.Spec.{
  AgreeOff, nodes, kept, kept_below, length-kept, length-nodes, full_pairs-AgreeOff,
}
use kvsev.Merkle.Tree.State.{
  LevelsAre, change, LevelsAre-congr, on_level-LevelsAre, confirm_at-LevelsAre,
}
use kvsev.Merkle.Tree.Models.{Models, Sized, Sized-set, length-init_hash}
use kvsev.Merkle.Tree.Climb.{has_next_level_lem, climb_lem}
use kvsev.Merkle.Tree.Verify.{OnPath, OnPath-bound, OnPath-suc, OnPath-end, OnPath-start}

module _ {sha : Sha256} (digest : Bytes → Bytes) (works : IsSha256 sha digest) (xs ys : List Bytes)
    (sized : Sized ys) where
  -- Over a single node nothing is kept.
  nothing_above :
      (zs : List Bytes) (k l : ℕ)
      → length (nodes digest zs l) ≤ 1
      → length (kept digest zs (suc (k + l))) ≡ 0
  nothing_above zs zero l h =
      let z : suc (0 + l) ≡ suc l = omega arith in rw z (omega (arith, length-kept digest zs l))
  nothing_above zs (suc k) l h =
      let z : suc (suc k + l) ≡ suc (k + suc l) = omega arith in
      rw z (nothing_above zs k (suc l) (omega (arith, length-nodes digest zs l)))

  empty_list : (as' bs : List Bytes) → length as' ≡ 0 → length bs ≡ 0 → as' ≡ bs
  empty_list [] [] p q = refl
  empty_list [] (b ∷ bs) p q = absurd (omega arith)
  empty_list (a ∷ as') bs p q = absurd (omega arith)

  same_above_single :
      (l m : ℕ)
      → l < m
      → length (nodes digest xs l) ≤ 1
      → length (nodes digest ys l) ≤ 1
      → kept digest xs m ≡ kept digest ys m
  same_above_single l m lt hx hy =
      let z : m ≡ suc (m - l - 1 + l) = omega arith in
      rw z (empty_list _ _ (nothing_above xs (m - l - 1) l hx) (nothing_above ys (m - l - 1) l hy))

  -- The levels in the middle of `mt_update`: those up to `l` are brought up to date.
  record Halfway (t : Tree) (l : ℕ) : Type 0 where
    held : ℕ → List Bytes
    levels : LevelsAre t held
    new_below : (m : ℕ) → m ≤ l → held m ≡ kept digest ys m
    old_above : (m : ℕ) → l < m → held m ≡ kept digest xs m

  record Updated (t : Tree) (r : Outcome Status) : Type 0 where
    tree : Tree
    runs : r ≡ done (success, tree)
    same : tree.elems ≡ t.elems
    levels : LevelsAre tree (kept digest ys)

  update_at_end :
      (l j q : ℕ) (d : Bytes) (t : Tree)
      → OnPath digest xs ys l j q d
      → Halfway t l
      → length (nodes digest xs l) ≤ 1
      → Updated t (confirm_at t l q d)
  update_at_end l j q d t h w one =
      let e = h.rest in
      let s = h.same in
      let (z, new_root, top, old, old_root, first) = OnPath-end digest xs ys h one in
      record {
        tree = t;
        runs = rw z (
            confirm_at-LevelsAre t w.held l 0 d w.levels (omega arith)
              (ap (λ zs. get_elem? zs 0) (w.new_below l (omega arith)) ∙ top));
        same = refl;
        levels =
            LevelsAre-congr t w.held (kept digest ys)
              (λ m. elim (Bool-cases (ltb l m)) [
                | inl lt ↦
                    let p = ltb→lt l m lt in
                    w.old_above m p ∙ same_above_single l m p one (omega arith)
                | inr ge ↦ w.new_below m (ltb→ge l m ge)
              ])
              w.levels;
      }

  -- Writing the node, where the level has it, makes the level that of the new leaves.
  set_above :
      (l j q : ℕ) (d d' : Bytes)
      → OnPath digest xs ys l j q d
      → get_elem? (nodes digest ys (suc l)) (q / 2) ≡ some d'
      → set (kept digest xs (suc l)) (q / 2) d' ≡ kept digest ys (suc l)
  set_above l j q d d' h node =
      let s = h.same in
      let agree : AgreeOff (q / 2) (kept digest xs (suc l)) (kept digest ys (suc l)) =
        unfold kept in full_pairs-AgreeOff digest q _ _ h.agree in
      let width : length (kept digest xs (suc l)) ≡ length (kept digest ys (suc l)) =
        omega (arith, length-kept digest xs l, length-kept digest ys l) in
      list_ext (set (kept digest xs (suc l)) (q / 2) d') (kept digest ys (suc l)) (λ i.
        elim (Bool-cases (i == q / 2)) [
          | inl e ↦
              let z = (==_iff i (q / 2)).0 e in
              elim (Bool-cases (ltb (q / 2) (length (kept digest xs (suc l))))) [
                | inl lt ↦
                    let p = ltb→lt (q / 2) (length (kept digest xs (suc l))) lt in
                    rw z (
                      get_elem?-set_self _ (q / 2) d' p
                      ∙ sym (kept_below digest ys (suc l) (q / 2) (omega arith) ∙ node))
                | inr ge ↦
                    let p = ltb→ge (q / 2) (length (kept digest xs (suc l))) ge in
                    let len = length-set (kept digest xs (suc l)) (q / 2) d' in
                    rw z (
                      get_elem?-none _ (q / 2) (omega arith)
                      ∙ sym (get_elem?-none _ (q / 2) (omega arith)))
              ]
          | inr e ↦
              let ne = ==_false i (q / 2) e in
              get_elem?-set_ne _ (q / 2) i d' (λ w. ne (sym w)) ∙ agree i ne
        ])

  write_above :
      (l j q : ℕ) (d d' : Bytes) (t : Tree)
      → OnPath digest xs ys l j q d
      → Halfway t l
      → suc l < tree_levels
      → get_elem? (nodes digest ys (suc l)) (q / 2) ≡ some d'
      → (t' : Tree) × (on_level t (suc l) (λ a. ArrayList.update_if_exists a (some d') (q / 2))
          ≡ done (success, t'))
        × (t'.elems ≡ t.elems)
        × Halfway t' (suc l)
  write_above l j q d d' t h w p node =
      let above = w.old_above (suc l) (omega arith) in
      let written = set_above l j q d d' h node in
      let (t', run, same, levels) =
        on_level-LevelsAre t w.held (suc l) (λ a. ArrayList.update_if_exists a (some d') (q / 2))
          (kept digest ys (suc l)) w.levels p
          (λ a holds.
            rw written at
              (update_if_exists-Holds a (kept digest xs (suc l)) d' (q / 2) (rw above at holds))) in
      (
        t',
        run,
        same,
        record {
          held = change w.held (suc l) (kept digest ys (suc l));
          levels = levels;
          new_below = λ m pm. elim (Bool-cases (m == suc l)) [
            | inl e ↦ rw (e, (==_iff m (suc l)).0 e)
            | inr o ↦ let ne = ==_false m (suc l) o in rw o (w.new_below m (omega arith))
          ];
          old_above = λ m pm. rw (==_ne m (suc l) (omega arith)) (w.old_above m (omega arith));
        },
      )

  update_loop_lem :
      (n j l q : ℕ) (d : Bytes) (t : Tree)
      → j < n
      → OnPath digest xs ys l j q d
      → Halfway t l
      → Updated t (update_loop sha n q l d t)
  unfolding update_loop on_hash check
  update_loop_lem zero j l q d t p h w = elim p [ ]
  update_loop_lem (suc n) zero l q d t p h w =
      let e = h.rest in
      let one = h.width in
      let next =
        has_next_level_lem digest t w.held w.levels xs l (omega arith)
          (w.old_above (suc l) (omega arith)) in
      rw (next, ge→ltb 1 (length (nodes digest xs l)) one) (update_at_end l zero q d t h w one)
  update_loop_lem (suc n) (suc j) l q d t p h w =
      let e = h.rest in
      let next =
        has_next_level_lem digest t w.held w.levels xs l (omega arith)
          (w.old_above (suc l) (omega arith)) in
      elim (Bool-cases (ltb 1 (length (nodes digest xs l)))) [
        | inl more ↦
            let (d', run, node) =
              climb_lem digest works t w.held w.levels ys ys sized l q d (omega arith)
                (OnPath-bound digest xs ys h) w.new_below (λ i ne. refl) refl h.node in
            let (t', wrote, same, w') = write_above l (suc j) q d d' t h w (omega arith) node in
            let h' =
              OnPath-suc digest xs ys d' h (ltb→lt 1 (length (nodes digest xs l)) more) node in
            let r = update_loop_lem n j (suc l) (q / 2) d' t' (omega arith) h' w' in
            record {
              tree = r.tree;
              runs = rw (next, more, run, wrote) r.runs;
              same = r.same ∙ same;
              levels = r.levels;
            }
        | inr stop ↦
            rw (next, stop)
              (update_at_end l (suc j) q d t h w (ltb→ge 1 (length (nodes digest xs l)) stop))
      ]

-- `mt_update` with a tag of at most 32 bytes at the index of a leaf returns MT_SUCCESS, fails no
-- assertion, and leaves the tree of the leaves with the padded tag at that index.
pub update-Models :
    (sha : Sha256) (digest : Bytes → Bytes) (t : Tree) (xs : List Bytes) (tag : Bytes) (o : ℕ)
    → IsSha256 sha digest
    → Models digest t xs
    → o < length xs
    → length tag ≤ hash_length
    → (t' : Tree) × (update sha (some t) (some tag) o ≡ done (success, some t'))
      × Models digest t' (set xs o (init_hash tag))
unfolding update update_tag guarded check kept
update-Models sha digest t xs tag o works models lt fits =
    let d : Bytes = init_hash tag in
    let count = models.count in
    let small = models.small in
    let sized = Sized-set xs o d models.sized (length-init_hash tag fits) in
    let (t₁, run, same, levels) =
      on_level-LevelsAre t (kept digest xs) 0 (λ a. ArrayList.update a (some d) o) (set xs o d)
        models.levels (omega arith) (λ a holds. update-Holds a xs d o holds lt) in
    let start : Halfway digest works xs (set xs o d) sized t₁ 0 = record {
      held = change (kept digest xs) 0 (set xs o d);
      levels = levels;
      new_below = λ m p. let z : m ≡ 0 = omega arith in rw z;
      old_above = λ m p. rw (==_ne m 0 (omega arith));
    } in
    let r =
      update_loop_lem digest works xs (set xs o d) sized 30 26 0 o d t₁ (omega arith)
        (OnPath-start digest xs (set xs o d) o d small lt refl) start in
    let len = length-set xs o d in
    (
      r.tree,
      rw (le→leb _ _ fits, lt→ltb o t.elems (omega arith), run, ◌>>=◌, r.runs),
      record {
        count = r.same ∙ same ∙ count ∙ sym len;
        small = omega arith;
        sized = sized;
        levels = r.levels;
      },
    )
