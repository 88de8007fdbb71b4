-- ===== src/Merkle/Tree/Root.antt =====
-- src/merkle/mt_impl.c: `mt_get_root`, `mt_exists` and `mt_get_size`.
use native.Mathlib.Nat.{pow-suc}
use kvsev.Prelude.{
  ℕ, zero, suc, ◌+◌, ◌^◌, ◌≤◌, ◌<◌, ◌≡◌, refl, sym, ◌∙◌, Bool, true, false, some, List, [], arith,
  ltb, Bool-cases, inl, inr, length, get_elem?, get_elem?-some, if◌then◌else◌, ge→ltb, ltb→lt,
  ltb→ge, get_elem?-none, ap,
}
use kvsev.Prelude.Outcome.{done, fault, bad_access}
use kvsev.Merkle.Config.{Bytes, tree_levels, illegal_param, ok}
use kvsev.Merkle.Tree.{Tree, exists, get_size, status_u32, get_root, root_level, copied}
use kvsev.Merkle.Tree.Spec.{
  nodes, kept, root, kept_below, length-kept, length-nodes, root_of_single,
}
use kvsev.Merkle.Tree.State.{LevelsAre, get_at-LevelsAre, at_level-LevelsAre}
use kvsev.Merkle.Tree.Models.{Models}
use kvsev.Merkle.Tree.Climb.{has_next_level_lem}

root-some :
    (digest : Bytes → Bytes) (xs : List Bytes) (k l : ℕ)
    → l + k ≡ tree_levels
    → 0 < length (nodes digest xs l)
    → (r : Bytes) × (root digest xs ≡ some r)
unfolding root
root-some digest xs zero l e pos =
    let z : l ≡ tree_levels = omega arith in
    get_elem?-some (nodes digest xs tree_levels) 0 (rw z at pos)
root-some digest xs (suc k) l e pos =
    root-some digest xs k (suc l) (omega arith) (omega (arith, length-nodes digest xs l))

root_level_lem :
    (digest : Bytes → Bytes) (t : Tree) (xs : List Bytes) (n j l : ℕ)
    → LevelsAre t (kept digest xs)
    → 0 < length (nodes digest xs l)
    → l + j ≡ 26
    → length (nodes digest xs l) ≤ 2 ^ j
    → get_elem? (kept digest xs l) 0 ≡ get_elem? (nodes digest xs l) 0
    → j < n
    → (m : ℕ) × (root_level n l t ≡ done m)
      × (m < tree_levels)
      × (get_elem? (kept digest xs m) 0 ≡ root digest xs)
unfolding root_level
root_level_lem digest t xs zero j l levels pos e w first p = elim p [ ]
root_level_lem digest t xs (suc n) zero l levels pos e w first p =
    let next = has_next_level_lem digest t (kept digest xs) levels xs l (omega arith) refl in
    (
      l,
      rw (next, ge→ltb 1 (length (nodes digest xs l)) w),
      omega arith,
      first ∙ sym (root_of_single digest 4 l xs (omega arith) (omega arith)),
    )
root_level_lem digest t xs (suc n) (suc j) l levels pos e w first p =
    let next = has_next_level_lem digest t (kept digest xs) levels xs l (omega arith) refl in
    elim (Bool-cases (ltb 1 (length (nodes digest xs l)))) [
      | inl more ↦
          let two = ltb→lt 1 (length (nodes digest xs l)) more in
          let up = length-nodes digest xs l in
          let (m, run, small, top) =
            root_level_lem digest t xs n j (suc l) levels (omega arith) (omega arith)
              (omega (arith, pow-suc 2 j))
              (kept_below digest xs (suc l) 0 (omega (arith, length-kept digest xs l)))
              (omega arith) in
          (m, rw (next, more) run, small, top)
      | inr stop ↦
          let one = ltb→ge 1 (length (nodes digest xs l)) stop in
          (
            l,
            rw (next, stop),
            omega arith,
            first ∙ sym (root_of_single digest (suc j + 4) l xs (omega arith) (omega arith)),
          )
    ]

-- `mt_get_root` writes the root of the leaves, when there is a leaf.
pub get_root-root :
    (digest : Bytes → Bytes) (t : Tree) (xs : List Bytes)
    → Models digest t xs
    → 0 < length xs
    → (r : Bytes) × (root digest xs ≡ some r) × (get_root (some t) ≡ done (ok r))
unfolding get_root copied nodes kept
get_root-root digest t xs models pos =
    let small = models.small in
    let (m, run, bound, top) =
      root_level_lem digest t xs 30 26 0 models.levels pos refl small refl (omega arith) in
    let (r, e) = root-some digest xs 30 0 refl pos in
    (r, e, rw (run, get_at-LevelsAre t (kept digest xs) m 0 models.levels bound, top, e))

-- On a tree with no leaf `mt_get_root` copies from NULL.
pub get_root-empty :
    (digest : Bytes → Bytes) (t : Tree) → Models digest t [] → get_root (some t) ≡ fault bad_access
unfolding get_root copied root_level nodes kept
get_root-empty digest t models =
    let next = has_next_level_lem digest t (kept digest []) models.levels [] 0 (omega arith) refl in
    rw (next, get_at-LevelsAre t (kept digest []) 0 0 models.levels (omega arith))

-- `mt_exists` answers 1 below the number of leaves and 0 from there to MT_AL_MAX_ELEMS; above that
-- it answers the status -2, which a caller's test takes for true. `mt_get_size` answers the number.
pub exists_lem :
    (digest : Bytes → Bytes) (t : Tree) (xs : List Bytes) (o : ℕ)
    → Models digest t xs
    → (exists (some t) o
        ≡ done (
            if ltb 536870912 o
            then status_u32 illegal_param
            else if ltb o (length xs)
            then 1
            else 0))
      × (get_size (some t) ≡ done (length xs))
unfolding exists get_size kept
exists_lem digest t xs o models =
    let levels = models.levels in
    let (a, run, size, reads) = at_level-LevelsAre t (kept digest xs) 0 levels (omega arith) in
    let read = get_at-LevelsAre t (kept digest xs) 0 o levels (omega arith) in
    (
      rw read (elim (Bool-cases (ltb o (length xs))) [
        | inl e ↦
            let (d, found) = get_elem?-some xs o (ltb→lt o (length xs) e) in
            rw (e, found) (either (ltb 536870912 o) _ _)
        | inr e ↦
            rw (e, get_elem?-none xs o (ltb→ge o (length xs) e)) (either (ltb 536870912 o) _ _)
      ]),
      rw run (ap done size),
    )
  where
    either : (b : Bool) (x y : ℕ) → (if b then done x else done y) ≡ done (if b then x else y)
    either true x y = refl
    either false x y = refl
