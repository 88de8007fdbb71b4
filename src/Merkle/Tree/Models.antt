-- ===== src/Merkle/Tree/Models.antt =====
-- src/merkle/mt_impl.c: when a tree stands for a sequence of leaves.
use kvsev.Prelude.{
  ℕ, zero, suc, ◌-◌, ◌≤◌, ◌≡◌, some, List, [], ◌∷◌, ◌++◌, arith, length, get_elem?, set, replicate,
  length-append, length-replicate,
}
use kvsev.Merkle.Config.{Bytes, hash_length}
use kvsev.Merkle.Hash.{Sha256, IsSha256}
use kvsev.Merkle.ArrayList.Holds.{capacity}
use kvsev.Merkle.Tree.{Tree, init_hash}
use kvsev.Merkle.Tree.Spec.{merge_pairs, nodes, kept}
use kvsev.Merkle.Tree.State.{LevelsAre}

-- Every hash has 32 bytes.
abbrev pub Sized : List Bytes → Type 0
Sized [] = Unit {0}
Sized (a ∷ rest) = (length a ≡ hash_length) × Sized rest

pub Sized-get :
    (xs : List Bytes) (i : ℕ) (a : Bytes)
    → Sized xs
    → get_elem? xs i ≡ some a
    → length a ≡ hash_length
Sized-get [] i a s e = cc
Sized-get (x ∷ xs) zero a s e = ground (arith, s)
Sized-get (x ∷ xs) (suc i) a s e = Sized-get xs i a s.1 e

pub Sized-append :
    (xs : List Bytes) (a : Bytes) → Sized xs → length a ≡ hash_length → Sized (xs ++ a ∷ [])
Sized-append [] a s h = (h, tt)
Sized-append (x ∷ xs) a s h = (s.0, Sized-append xs a s.1 h)

pub Sized-set :
    (xs : List Bytes) (i : ℕ) (a : Bytes) → Sized xs → length a ≡ hash_length → Sized (set xs i a)
Sized-set [] i a s h = tt
Sized-set (x ∷ xs) zero a s h = (h, s.1)
Sized-set (x ∷ xs) (suc i) a s h = (s.0, Sized-set xs i a s.1 h)

module _ {sha : Sha256} (digest : Bytes → Bytes) (works : IsSha256 sha digest) where
  merge_pairs-Sized : (ys : List Bytes) → Sized ys → Sized (merge_pairs digest ys)
  unfolding merge_pairs
  merge_pairs-Sized [] s = tt
  merge_pairs-Sized (a ∷ []) s = s
  merge_pairs-Sized (a ∷ b ∷ rest) s = (works.sized (a ++ b), merge_pairs-Sized rest s.1.1)

  pub nodes-Sized : (xs : List Bytes) (l : ℕ) → Sized xs → Sized (nodes digest xs l)
  unfolding nodes
  nodes-Sized xs zero s = s
  nodes-Sized xs (suc l) s = merge_pairs-Sized (nodes digest xs l) (nodes-Sized xs l s)

-- `mt_init_hash` fills 32 bytes.
pub length-init_hash :
    (tag : Bytes) → length tag ≤ hash_length → length (init_hash tag) ≡ hash_length
unfolding init_hash
length-init_hash tag h = omega (
  arith,
  length-append tag (replicate (32 - length tag) 0),
  length-replicate {A = ℕ} (32 - length tag) 0,
)

-- The tree stands for the leaves `xs`.
pub record Models (digest : Bytes → Bytes) (t : Tree) (xs : List Bytes) : Type 0 where
  pub count : t.elems ≡ length xs
  pub small : length xs ≤ capacity
  pub sized : Sized xs
  pub levels : LevelsAre t (kept digest xs)
