-- ===== src/Merkle/ArrayList/Holds.antt =====
-- src/merkle/mt_array_list.c: when an array list holds a sequence of hashes, and what each
-- operation needs of its block.
use kvsev.Prelude.{ℕ, ◌*◌, ◌^◌, ◌≤◌, ◌<◌, ◌≡◌, refl, List, [], arith, length, get_elem?}
use kvsev.Merkle.Config.{Bytes}
use kvsev.Merkle.ArrayList.{Block, Store, null, freed, live, ArrayList, empty}

-- The most hashes that fit: from here on the byte counts of the code wrap round 2 ^ 32.
abbrev pub capacity : ℕ
capacity = 67108864

-- The block has room for `n` hashes, a power of two of slots at least, and begins with `xs`.
pub record Fits (n : ℕ) (b : Block) (xs : List Bytes) : Type 0 where
  pub bits : ℕ
  pub covers : n ≤ 2 ^ bits
  pub room : 32 * 2 ^ bits ≤ b.size
  pub reads : (i : ℕ) → i < length xs → b.slots i ≡ get_elem? xs i

abbrev pub StoreFits : Store → List Bytes → Type 0
StoreFits null xs = length xs ≡ 0
StoreFits freed xs = length xs ≡ 0
StoreFits (live b) xs = Fits (length xs) b xs

pub record Holds (a : ArrayList) (xs : List Bytes) : Type 0 where
  pub count : a.elems ≡ length xs
  pub small : length xs ≤ capacity
  pub fits : StoreFits a.store xs

pub empty-Holds : Holds empty []
empty-Holds = record { count = refl; small = omega arith; fits = refl }

-- A list that is not empty has a live block.
pub live_of_pos :
    (s : Store) (xs : List Bytes)
    → StoreFits s xs
    → 0 < length xs
    → (b : Block) × (s ≡ live b) × Fits (length xs) b xs
live_of_pos null xs f p = absurd (omega arith)
live_of_pos freed xs f p = absurd (omega arith)
live_of_pos (live b) xs f p = (b, refl, f)
