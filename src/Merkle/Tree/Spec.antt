-- ===== src/Merkle/Tree/Spec.antt =====
-- The Merkle tree of a sequence of leaves, independent of src/merkle: each level joins the level
-- below in pairs, and a last node with no partner goes up as it is.
use kvsev.Prelude.{
  ℕ, zero, suc, ◌+◌, ◌-◌, ◌*◌, ◌/◌, ◌%◌, ◌<◌, ◌≡◌, refl, ◌∙◌, ◌≢◌, Option, none, some, List, [],
  ◌∷◌, ◌++◌, arith, length, get_elem?, get_elem?-none,
}
use kvsev.Merkle.Config.{Bytes, tree_levels}

-- Lists that agree but at one index.
abbrev pub AgreeOff : ℕ → List Bytes → List Bytes → Type 0
AgreeOff q ys zs = (i : ℕ) → i ≢ q → get_elem? ys i ≡ get_elem? zs i

module _ (digest : Bytes → Bytes) where
  abbrev pub join : Option Bytes → Option Bytes → Option Bytes
  join none b = none
  join (some a) none = some a
  join (some a) (some b) = some (digest (a ++ b))

  abbrev pub both : Option Bytes → Option Bytes → Option Bytes
  both none b = none
  both (some a) none = none
  both (some a) (some b) = some (digest (a ++ b))

  -- The next level up.
  unfoldable pub merge_pairs : List Bytes → List Bytes
  merge_pairs [] = []
  merge_pairs (a ∷ []) = a ∷ []
  merge_pairs (a ∷ b ∷ rest) = digest (a ++ b) ∷ merge_pairs rest

  -- The part of it that comes from pairs.
  unfoldable pub full_pairs : List Bytes → List Bytes
  full_pairs [] = []
  full_pairs (a ∷ []) = []
  full_pairs (a ∷ b ∷ rest) = digest (a ++ b) ∷ full_pairs rest

  -- The nodes of level l over the leaves `xs`, and those of them that the code keeps.
  unfoldable pub nodes : List Bytes → ℕ → List Bytes
  nodes xs zero = xs
  nodes xs (suc l) = merge_pairs (nodes xs l)

  unfoldable pub kept : List Bytes → ℕ → List Bytes
  kept xs zero = xs
  kept xs (suc l) = full_pairs (nodes xs l)

  -- The root: there is none over no leaf.
  unfoldable pub root : List Bytes → Option Bytes
  root xs = get_elem? (nodes xs tree_levels) 0

  pub get_elem?-merge_pairs :
      (ys : List Bytes) (i : ℕ)
      → get_elem? (merge_pairs ys) i ≡ join (get_elem? ys (2 * i)) (get_elem? ys (2 * i + 1))
  unfolding merge_pairs
  get_elem?-merge_pairs [] i = refl
  get_elem?-merge_pairs (a ∷ []) zero = refl
  get_elem?-merge_pairs (a ∷ []) (suc i) =
      let e : 2 * suc i ≡ suc (suc (2 * i)) = omega arith in rw e
  get_elem?-merge_pairs (a ∷ b ∷ rest) zero = refl
  get_elem?-merge_pairs (a ∷ b ∷ rest) (suc i) =
      let e : 2 * suc i ≡ suc (suc (2 * i)) = omega arith in
      let e' : suc (suc (2 * i)) + 1 ≡ suc (suc (2 * i + 1)) = omega arith in
      rw (e, e') (get_elem?-merge_pairs rest i)

  pub get_elem?-full_pairs :
      (ys : List Bytes) (i : ℕ)
      → get_elem? (full_pairs ys) i ≡ both (get_elem? ys (2 * i)) (get_elem? ys (2 * i + 1))
  unfolding full_pairs
  get_elem?-full_pairs [] i = refl
  get_elem?-full_pairs (a ∷ []) zero = refl
  get_elem?-full_pairs (a ∷ []) (suc i) =
      let e : 2 * suc i ≡ suc (suc (2 * i)) = omega arith in rw e
  get_elem?-full_pairs (a ∷ b ∷ rest) zero = refl
  get_elem?-full_pairs (a ∷ b ∷ rest) (suc i) =
      let e : 2 * suc i ≡ suc (suc (2 * i)) = omega arith in
      let e' : suc (suc (2 * i)) + 1 ≡ suc (suc (2 * i + 1)) = omega arith in
      rw (e, e') (get_elem?-full_pairs rest i)

  pub length-merge_pairs : (ys : List Bytes) → length (merge_pairs ys) ≡ (length ys + 1) / 2
  unfolding merge_pairs
  length-merge_pairs [] = omega arith
  length-merge_pairs (a ∷ []) = omega arith
  length-merge_pairs (a ∷ b ∷ rest) = omega (arith, length-merge_pairs rest)

  pub length-full_pairs : (ys : List Bytes) → length (full_pairs ys) ≡ length ys / 2
  unfolding full_pairs
  length-full_pairs [] = omega arith
  length-full_pairs (a ∷ []) = omega arith
  length-full_pairs (a ∷ b ∷ rest) = omega (arith, length-full_pairs rest)

  full-eq-merge :
      (ys : List Bytes) (i : ℕ)
      → suc i < length (merge_pairs ys)
      → get_elem? (full_pairs ys) i ≡ get_elem? (merge_pairs ys) i
  unfolding merge_pairs full_pairs
  full-eq-merge [] i h = refl
  full-eq-merge (a ∷ []) i h = absurd (omega arith)
  full-eq-merge (a ∷ b ∷ rest) zero h = refl
  full-eq-merge (a ∷ b ∷ rest) (suc i) h = full-eq-merge rest i (omega arith)

  -- Of each level the code keeps all nodes but perhaps the last.
  pub kept-nodes :
      (xs : List Bytes) (l i : ℕ)
      → suc i < length (nodes xs l)
      → get_elem? (kept xs l) i ≡ get_elem? (nodes xs l) i
  unfolding nodes kept
  kept-nodes xs zero i h = refl
  kept-nodes xs (suc l) i h = full-eq-merge (nodes xs l) i h

  -- Lists that agree off one node give levels that agree off the node above it.
  pub merge_pairs-AgreeOff :
      (q : ℕ) (ys zs : List Bytes)
      → AgreeOff q ys zs
      → AgreeOff (q / 2) (merge_pairs ys) (merge_pairs zs)
  merge_pairs-AgreeOff q ys zs h i ne = rw (
    get_elem?-merge_pairs ys i,
    get_elem?-merge_pairs zs i,
    h (2 * i) (omega arith),
    h (2 * i + 1) (omega arith),
  )

  pub full_pairs-AgreeOff :
      (q : ℕ) (ys zs : List Bytes)
      → AgreeOff q ys zs
      → AgreeOff (q / 2) (full_pairs ys) (full_pairs zs)
  full_pairs-AgreeOff q ys zs h i ne = rw (
    get_elem?-full_pairs ys i,
    get_elem?-full_pairs zs i,
    h (2 * i) (omega arith),
    h (2 * i + 1) (omega arith),
  )

  -- What the node above is made of.
  pub merge_even :
      (ys : List Bytes) (q : ℕ)
      → q % 2 ≡ 0
      → get_elem? (merge_pairs ys) (q / 2) ≡ join (get_elem? ys q) (get_elem? ys (q + 1))
  merge_even ys q e =
      let double : 2 * (q / 2) ≡ q = omega arith in get_elem?-merge_pairs ys (q / 2) ∙ rw double

  pub full_even :
      (ys : List Bytes) (q : ℕ)
      → q % 2 ≡ 0
      → get_elem? (full_pairs ys) (q / 2) ≡ both (get_elem? ys q) (get_elem? ys (q + 1))
  full_even ys q e =
      let double : 2 * (q / 2) ≡ q = omega arith in get_elem?-full_pairs ys (q / 2) ∙ rw double

  pub merge_odd :
      (ys : List Bytes) (q : ℕ)
      → q % 2 ≡ 1
      → get_elem? (merge_pairs ys) (q / 2) ≡ join (get_elem? ys (q - 1)) (get_elem? ys q)
  merge_odd ys q e =
      let double : (2 * (q / 2) ≡ q - 1) × (q - 1 + 1 ≡ q) = omega arith in
      get_elem?-merge_pairs ys (q / 2) ∙ rw (double.0, double.1)

  pub full_odd :
      (ys : List Bytes) (q : ℕ)
      → q % 2 ≡ 1
      → get_elem? (full_pairs ys) (q / 2) ≡ both (get_elem? ys (q - 1)) (get_elem? ys q)
  full_odd ys q e =
      let double : (2 * (q / 2) ≡ q - 1) × (q - 1 + 1 ≡ q) = omega arith in
      get_elem?-full_pairs ys (q / 2) ∙ rw (double.0, double.1)

  full_below :
      (ys : List Bytes) (i : ℕ)
      → i < length (full_pairs ys)
      → get_elem? (full_pairs ys) i ≡ get_elem? (merge_pairs ys) i
  unfolding merge_pairs full_pairs
  full_below [] i h = refl
  full_below (a ∷ []) i h = absurd (omega arith)
  full_below (a ∷ b ∷ rest) zero h = refl
  full_below (a ∷ b ∷ rest) (suc i) h = full_below rest i (omega arith)

  -- What the code keeps is a beginning of the level.
  pub kept_below :
      (xs : List Bytes) (l i : ℕ)
      → i < length (kept xs l)
      → get_elem? (kept xs l) i ≡ get_elem? (nodes xs l) i
  unfolding nodes kept
  kept_below xs zero i h = refl
  kept_below xs (suc l) i h = full_below (nodes xs l) i h

  pub length-kept : (xs : List Bytes) (l : ℕ) → length (kept xs (suc l)) ≡ length (nodes xs l) / 2
  unfolding kept
  length-kept xs l = length-full_pairs (nodes xs l)

  pub length-nodes :
      (xs : List Bytes) (l : ℕ) → length (nodes xs (suc l)) ≡ (length (nodes xs l) + 1) / 2
  unfolding nodes
  length-nodes xs l = length-merge_pairs (nodes xs l)

  -- A single node is the root.
  pub root_of_single :
      (k l : ℕ) (xs : List Bytes)
      → l + k ≡ tree_levels
      → length (nodes xs l) ≡ 1
      → root xs ≡ get_elem? (nodes xs l) 0
  unfolding root nodes
  root_of_single zero l xs e h = let z : l ≡ tree_levels = omega arith in rw z
  root_of_single (suc k) l xs e h =
      root_of_single k (suc l) xs (omega arith) (omega (arith, length-merge_pairs (nodes xs l)))
      ∙ get_elem?-merge_pairs (nodes xs l) 0
      ∙ rw (get_elem?-none (nodes xs l) 1 (omega arith)) (alone (get_elem? (nodes xs l) 0))
    where
      alone : (o : Option Bytes) → join o none ≡ o
      alone none = refl
      alone (some a) = refl
