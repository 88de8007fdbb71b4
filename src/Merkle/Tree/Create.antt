-- ===== src/Merkle/Tree/Create.antt =====
-- src/merkle/mt_impl.c: `mt_create`.
use kvsev.Prelude.{
  ℕ, zero, suc, ◌+◌, ◌≤◌, ◌<◌, ◌≡◌, refl, ◌∙◌, Bool, true, false, none, some, Option, List, [], ◌∷◌,
  ◌++◌, arith, ◌==◌, ==_iff, ==_false, Bool-cases, inl, inr, replicate, get_elem?-replicate,
  if◌then◌else◌,
}
use kvsev.Merkle.Config.{Bytes}
use kvsev.Merkle.ArrayList
use kvsev.Merkle.ArrayList.{ArrayList}
use kvsev.Merkle.ArrayList.Holds.{empty-Holds}
use mathlib.Core.List.{append-nil, append_assoc}
use kvsev.Merkle.Tree.{Tree, create, create_levels}
use kvsev.Merkle.Tree.Spec.{nodes, kept, merge_pairs, full_pairs}
use kvsev.Merkle.Tree.Models.{Models}

create_levels_granted :
    (mem : ℕ → Bool) (n i : ℕ) (made : List ArrayList)
    → ((k : ℕ) → i < k → k ≤ i + n → mem k ≡ true)
    → create_levels mem n i made ≡ some (made ++ replicate n ArrayList.empty)
unfolding create_levels ArrayList.create
create_levels_granted mem zero i made granted = rw append-nil
create_levels_granted mem (suc n) i made granted =
    rw (granted (i + 1) (omega arith) (omega arith), create_levels)
      (create_levels_granted mem n (i + 1) (made ++ ArrayList.empty ∷ [])
          (λ k p q. granted k (omega arith) (omega arith))
        ∙ rw (append_assoc made (ArrayList.empty ∷ []) (replicate n ArrayList.empty)))

create_levels_refused :
    (mem : ℕ → Bool) (n i k : ℕ) (made : List ArrayList)
    → i < k
    → k ≤ i + n
    → mem k ≡ false
    → create_levels mem n i made ≡ none
unfolding create_levels ArrayList.create
create_levels_refused mem zero i k made p q e = absurd (omega arith)
create_levels_refused mem (suc n) i k made p q e = elim (Bool-cases (k == i + 1)) [
  | inl z ↦
      let refused : mem (i + 1) ≡ false = rw ((==_iff k (i + 1)).0 z) at e in
      rw (refused, create_levels)
  | inr nz ↦
      let ne = ==_false k (i + 1) nz in
      elim (Bool-cases (mem (i + 1))) [
        | inl t ↦
            rw (t, create_levels)
              (create_levels_refused mem n (i + 1) k (made ++ ArrayList.empty ∷ []) (omega arith)
                (omega arith) e)
        | inr f ↦ rw (f, create_levels)
      ]
]

kept-empty : (digest : Bytes → Bytes) (l : ℕ) → (nodes digest [] l ≡ []) × (kept digest [] l ≡ [])
unfolding nodes kept merge_pairs full_pairs
kept-empty digest zero = (refl, refl)
kept-empty digest (suc l) = let (n, k) = kept-empty digest l in (rw n, rw n)

-- The tree of no leaf.
abbrev pub empty_tree : Tree
empty_tree = record { elems = 0; level = replicate 30 ArrayList.empty }

pub empty_tree-Models : (digest : Bytes → Bytes) → Models digest empty_tree []
empty_tree-Models digest = record {
  count = refl;
  small = omega arith;
  sized = tt;
  levels = record {
    count = refl;
    holds = λ l p. (
      ArrayList.empty,
      get_elem?-replicate 30 ArrayList.empty l p,
      rw ((kept-empty digest l).1) empty-Holds,
    );
  };
}

-- `mt_create` with memory granted makes the tree of no leaf, and returns NULL if any of the 31
-- requests for memory is refused.
pub create_lem :
    (mem : ℕ → Bool)
    → (((k : ℕ) → k < 31 → mem k ≡ true) → create mem ≡ some empty_tree)
      × ((k : ℕ) → k < 31 → mem k ≡ false → create mem ≡ none)
unfolding create
create_lem mem = (
  λ granted. rw (
    granted 0 (omega arith),
    create_levels_granted mem 30 0 [] (λ k p q. granted k (omega arith)),
  ),
  λ k p e. elim (Bool-cases (k == 0)) [
    | inl z ↦ let refused : mem 0 ≡ false = rw ((==_iff k 0).0 z) at e in rw refused
    | inr nz ↦
        let ne = ==_false k 0 nz in
        rw (create_levels_refused mem 30 0 k [] (omega arith) (omega arith) e) (neither (mem 0))
  ],
)
  where
    neither : (b : Bool) → ◌≡◌ {A = Option Tree} (if b then none else none) none
    neither true = refl
    neither false = refl
