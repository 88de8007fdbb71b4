-- ===== src/Merkle/Tests.antt =====
-- src/merkle: tests on small trees, and the theorems at concrete inputs.
use kvsev.Prelude.{
  ℕ, ◌^◌, ◌≡◌, ◌⊎◌, refl, Bool, true, Option, none, some, List, [], ◌∷◌, ◌++◌, arith, get_elem?,
  replicate, if◌then◌else◌, ◌≤◌, ◌<◌,
}
use kvsev.Prelude.Bytes.{same_bytes}
use kvsev.Prelude.Outcome.{Outcome, done, ◌>>=◌}
use kvsev.Merkle.Config.{Bytes, MtError, success, out_of_memory, root_mismatch, ok}
use kvsev.Merkle.Hash.{hash_result, hash_right, hash_left, mt_hash, mt_hash-digest}
use kvsev.Merkle.Toy.{toy, toy_sha, toy_works}
use kvsev.Merkle.ArrayList
use kvsev.Merkle.ArrayList.{ArrayList, Block, freed, live, round_next_power_two}
use kvsev.Merkle.ArrayList.Powers.{round_next_power_two_lem}
use kvsev.Merkle.ArrayList.Holds.{Holds, empty-Holds}
use kvsev.Merkle.ArrayList.Grow.{add-Holds}
use kvsev.Merkle.ArrayList.Change.{add_or_update-Holds, put}
use kvsev.Merkle.ArrayList.Shrink.{truncate-Holds, add_wraps}
use kvsev.Merkle.Tree
use kvsev.Merkle.Tree.{Tree, add, verify, update, get_root, exists, get_size, create, init_hash}
use kvsev.Merkle.Tree.Spec.{root}
use kvsev.Merkle.Tree.Models.{Models}
use kvsev.Merkle.Tree.Create.{empty_tree, empty_tree-Models, create_lem}
use kvsev.Merkle.Tree.Add.{add-Models}
use kvsev.Merkle.Tree.Update.{update-Models}
use kvsev.Merkle.Tree.Verify.{verify-root}
use kvsev.Merkle.Tree.Root.{get_root-root}
use kvsev.Merkle.Tree.Forge.{Collision, verify_sound, verify_complete}

mt_hash-digest_example :
    mt_hash toy_sha (some (replicate 32 1)) (some (replicate 32 2))
    ≡ ok (toy (replicate 32 1 ++ replicate 32 2))
mt_hash-digest_example =
    mt_hash-digest toy_sha toy_works (replicate 32 1) (replicate 32 2) refl refl

round_next_power_two_lem_example :
    (k : ℕ) × (round_next_power_two 11 ≡ 2 ^ k)
    × (11 ≤ round_next_power_two 11)
    × (round_next_power_two 11 < 22)
round_next_power_two_lem_example = round_next_power_two_lem 11 (omega arith) (omega arith)

abbrev h₁ : Bytes
h₁ = replicate 32 1

add-Holds_example :
    (a : ArrayList) × (ArrayList.add true ArrayList.empty (some h₁) ≡ done (success, a))
    × Holds a (h₁ ∷ [])
add-Holds_example = add-Holds ArrayList.empty [] h₁ empty-Holds (omega arith)

-- A list of one hash.
abbrev single : ArrayList
single = add-Holds_example.0

add_or_update-Holds_example :
    (a : ArrayList) × (ArrayList.add_or_update true single (some (replicate 32 2)) 0
      ≡ done (success, a))
    × Holds a (put (h₁ ∷ []) 0 (replicate 32 2))
add_or_update-Holds_example =
    add_or_update-Holds single (h₁ ∷ []) (replicate 32 2) 0 add-Holds_example.2 (omega arith)
      (omega arith)

truncate-Holds_example :
    (a : ArrayList) × (ArrayList.truncate true single 0 ≡ done (success, a)) × Holds a []
truncate-Holds_example = truncate-Holds single (h₁ ∷ []) 0 add-Holds_example.2 (omega arith)

abbrev large_block : Block
large_block = record { size = 2147483648; slots = λ _. some h₁ }

abbrev large : ArrayList
large = record { elems = 67108864; store = live large_block }

add_wraps_example :
    ArrayList.add true large (some h₁) ≡ done (out_of_memory, record large { store = freed })
add_wraps_example = add_wraps true large large_block h₁ refl refl

create_lem_example :
    (((k : ℕ) → k < 31 → true ≡ true) → create (λ _. true) ≡ some empty_tree)
    × ((k : ℕ) → k < 31 → true ≡ Bool.false → create (λ _. true) ≡ none)
create_lem_example = create_lem (λ _. true)

-- One leaf, and a second.
add-Models_example :
    (t : Tree) × (add toy_sha (λ _. true) (some empty_tree) (some (7 ∷ 8 ∷ []))
      ≡ done (success, some t))
    × Models toy t (init_hash (7 ∷ 8 ∷ []) ∷ [])
add-Models_example =
    add-Models toy_sha toy (λ _. true) empty_tree [] (7 ∷ 8 ∷ []) toy_works (λ _. refl)
      (empty_tree-Models toy) (omega arith) (omega arith)

abbrev one_leaf : List Bytes
one_leaf = init_hash (7 ∷ 8 ∷ []) ∷ []

abbrev two_leaves : List Bytes
two_leaves = init_hash (7 ∷ 8 ∷ []) ∷ init_hash (9 ∷ []) ∷ []

second :
    (t : Tree) × (add toy_sha (λ _. true) (some add-Models_example.0) (some (9 ∷ []))
      ≡ done (success, some t))
    × Models toy t two_leaves
second =
    add-Models toy_sha toy (λ _. true) add-Models_example.0 one_leaf (9 ∷ []) toy_works (λ _. refl)
      add-Models_example.2 (omega arith) (omega arith)

abbrev two : Tree
two = second.0

update-Models_example :
    (t : Tree) × (update toy_sha (some two) (some (5 ∷ [])) 0 ≡ done (success, some t))
    × Models toy t (init_hash (5 ∷ []) ∷ init_hash (9 ∷ []) ∷ [])
update-Models_example =
    update-Models toy_sha toy two two_leaves (5 ∷ []) 0 toy_works second.2 (omega arith)
      (omega arith)

verify-root_example :
    (stored given : Bytes) × (root toy two_leaves ≡ some stored)
    × (root toy (init_hash (7 ∷ 8 ∷ []) ∷ init_hash (1 ∷ []) ∷ []) ≡ some given)
    × (verify toy_sha (some two) (some (1 ∷ [])) 1
        ≡ done (if same_bytes given stored then success else root_mismatch))
verify-root_example =
    verify-root toy_sha toy two two_leaves (1 ∷ []) 1 toy_works second.2 (omega arith) (omega arith)

verify_complete_example : verify toy_sha (some two) (some (9 ∷ [])) 1 ≡ done success
verify_complete_example =
    verify_complete toy_sha toy two two_leaves (9 ∷ []) 1 toy_works second.2 (omega arith) refl

verify_sound_example : (get_elem? two_leaves 1 ≡ some (init_hash (9 ∷ []))) ⊎ Collision toy
verify_sound_example =
    verify_sound toy_sha toy two two_leaves (9 ∷ []) 1 toy_works second.2 (omega arith)
      (omega arith) verify_complete_example

get_root-root_example :
    (r : Bytes) × (root toy two_leaves ≡ some r) × (get_root (some two) ≡ done (ok r))
get_root-root_example = get_root-root toy two two_leaves second.2 (omega arith)

-- The functions that the run computes with.
program : Unit {0}
unfolding hash_result hash_right hash_left ArrayList.smear ArrayList.round_next_power_two
    ArrayList.is_power_of_two ArrayList.keep_below ArrayList.malloc ArrayList.realloc
    ArrayList.assign ArrayList.write ArrayList.read ArrayList.create ArrayList.free ArrayList.delete
    ArrayList.granted ArrayList.reserve ArrayList.append ArrayList.add ArrayList.overwrite
    ArrayList.update ArrayList.update_if_exists ArrayList.add_or_update ArrayList.shrink
    ArrayList.truncate ArrayList.get ArrayList.has_right_neighbor ArrayList.get_size mt_hash
    Tree.create_levels Tree.create Tree.delete_levels Tree.delete Tree.at_level Tree.get_at
    Tree.stored_back Tree.on_level Tree.check Tree.mt_right Tree.mt_left Tree.init_hash same_bytes
    Tree.confirm Tree.confirm_at Tree.on_hash Tree.guarded Tree.has_next_level Tree.find_right
    Tree.compare_root Tree.compare_at Tree.on_climb Tree.add_round Tree.add_loop Tree.add_above
    Tree.add_tag Tree.add Tree.join_right Tree.climb Tree.verify_loop Tree.verify Tree.update_loop
    Tree.update_tag Tree.update Tree.root_level Tree.copied Tree.get_root Tree.status_u32
    Tree.get_size Tree.exists
program = tt

-- `mt_test_tree`: five leaves are added, each is verified, and the first is replaced.
abbrev value : ℕ → Bytes
value n = replicate 32 n

abbrev then_add : Outcome (MtError × Option Tree) → Bytes → Outcome (MtError × Option Tree)
then_add m tag = m >>= λ r. add toy_sha (λ _. true) r.1 (some tag)

abbrev five : Outcome (MtError × Option Tree)
five =
    then_add
      (then_add
        (then_add (then_add (then_add (done (success, some empty_tree)) (value 0)) (value 1))
          (value 2))
        (value 3))
      (value 4)

five_verifies :
    ((five >>= λ r. verify toy_sha r.1 (some (value 4)) 4) ≡ done success)
    × ((five >>= λ r. verify toy_sha r.1 (some (value 2)) 2) ≡ done success)
    × ((five >>= λ r. verify toy_sha r.1 (some (value 2)) 3) ≡ done root_mismatch)
    × ((five >>= λ r.
          update toy_sha r.1 (some (value 7)) 0 >>= λ u. verify toy_sha u.1 (some (value 7)) 0)
        ≡ done success)
unfolding program
five_verifies = (refl, refl, refl, refl)
