-- ===== src/Merkle/Tree.antt =====
-- src/merkle/mt_impl.c: the Merkle tree. Level 0 holds the leaves; level l + 1 holds the hashes of
-- the pairs of level l that have both parts. The callers hold `mutex` around each call.
pub mod Spec
pub mod State
pub mod Spine
pub mod Models
pub mod Add
pub mod Climb
pub mod Verify
pub mod Update
pub mod Root
pub mod Create
pub mod Forge
use kvsev.Prelude.{
  ℕ, zero, suc, ◌+◌, ◌-◌, ◌*◌, ◌/◌, ◌%◌, Bool, true, false, ◌&&◌, not, Option, none, some, List, [],
  ◌∷◌, ◌++◌, ltb, leb, ◌==◌, if◌then◌else◌, length, get_elem?, set, replicate,
}
use kvsev.Prelude.Bytes.{same_bytes}
use kvsev.Prelude.Outcome.{Outcome, done, fault, bad_access, ◌>>=◌, ◌>>◌, assert}
use kvsev.Merkle.Config.{
  Bytes, hash_length, tree_levels, mt_al_max_elems, u32, MtError, success, illegal_param,
  root_mismatch, Result, ok, err,
}
use kvsev.Merkle.ArrayList
use kvsev.Merkle.ArrayList.{ArrayList, add_u32, Reply}
use kvsev.Merkle.Hash.{Sha256, mt_hash}

-- `mt_t`, less the mutex.
pub record Tree : Type 0 where
  pub elems : ℕ
  pub level : List ArrayList

-- `mt_create`: the allocator answers request 0 for the tree, and i + 1 for level i. On a failure
-- the levels made so far are given back.
unfoldable pub create_levels : (ℕ → Bool) → ℕ → ℕ → List ArrayList → Option (List ArrayList)
create_levels mem zero i made = some made
create_levels mem (suc n) i made =
    let rest = λ (a : ArrayList). create_levels mem n (i + 1) (made ++ a ∷ []) in
    elim (ArrayList.create (mem (i + 1))) [ none ↦ none | some a ↦ rest a ]

unfoldable pub create : (ℕ → Bool) → Option Tree
create mem =
    if mem 0
    then elim (create_levels mem tree_levels 0 []) [
      | none ↦ none
      | some ls ↦ some (record { elems = 0; level = ls })
    ]
    else none

unfoldable pub delete_levels : List ArrayList → Outcome (Unit {0})
delete_levels [] = done tt
delete_levels (a ∷ rest) = ArrayList.delete a >> delete_levels rest

unfoldable pub delete : Option Tree → Outcome (Unit {0})
delete none = done tt
delete (some t) = delete_levels t.level

-- `mt->level[l]`
unfoldable pub at_level : Tree → ℕ → Outcome ArrayList
at_level t l = elim (get_elem? t.level l) [ none ↦ fault bad_access | some a ↦ done a ]

-- `mt_al_get(mt->level[l], q)`
unfoldable pub get_at : Tree → ℕ → ℕ → Outcome (Option Bytes)
get_at t l q = do a ← at_level t l; ArrayList.get a q

-- A status, and the tree that the call leaves.
abbrev pub Status : Type 0
Status = MtError × Tree

unfoldable pub stored_back : Tree → ℕ → Reply → Status
stored_back t l (e, a) = (e, record t { level = set t.level l a })

-- A call that may change `mt->level[l]`.
unfoldable pub on_level : Tree → ℕ → (ArrayList → Outcome Reply) → Outcome Status
on_level t l op = do a ← at_level t l; r ← op a; done (stored_back t l r)

-- MT_ERR_CHK: go on after success, and return any other status.
unfoldable pub check : (Tree → Outcome Status) → Status → Outcome Status
check next (success, t) = next t
check next (e, t) = done (e, t)

unfoldable pub mt_right : ℕ → Bool
mt_right offset = offset % 2 == 1

unfoldable pub mt_left : ℕ → Bool
mt_left offset = not (offset % 2 == 1)

-- `mt_init_hash`: the tag in front of zeros.
unfoldable pub init_hash : Bytes → Bytes
init_hash tag = tag ++ replicate (hash_length - length tag) 0

-- The last `assert` of `mt_add` and `mt_update`.
unfoldable pub confirm : Option Bytes → Bytes → Tree → Outcome Status
confirm none d t = fault bad_access
confirm (some h) d t = assert (same_bytes d h) >> done (success, t)

unfoldable pub confirm_at : Tree → ℕ → ℕ → Bytes → Outcome Status
confirm_at t l q d = do h ← get_at t l q; confirm h d t

-- MT_ERR_CHK on a hash.
unfoldable pub on_hash : (Bytes → Outcome Status) → Tree → Result Bytes → Outcome Status
on_hash next t (ok d) = next d
on_hash next t (err e) = done (e, t)

-- The guard at the head of a call that takes a tag.
unfoldable pub guarded :
    Option Tree → Option Bytes → (Tree → Bytes → Outcome Status) → Outcome (MtError × Option Tree)
guarded none tag run = done (illegal_param, none)
guarded (some t) none run = done (illegal_param, some t)
guarded (some t) (some tag) run =
    if leb (length tag) hash_length
    then (run t tag >>= λ r. done (r.0, some r.1))
    else done (illegal_param, some t)

-- `hasNextLevelExceptRoot`
unfoldable pub has_next_level : Tree → ℕ → Outcome Bool
has_next_level t l = do
  a ← at_level t (l + 1)
  done (ltb (l + 1) (tree_levels - 1) && ltb 0 (ArrayList.get_size a))

-- `findRightNeighbor`: the loop goes down the levels to 0, `offset <<= 1` at each.
unfoldable pub find_right : Tree → ℕ → ℕ → Outcome (Option Bytes)
find_right t offset zero = do
  a ← at_level t 0
  if ltb offset (ArrayList.get_size a) then ArrayList.get a offset else done none
find_right t offset (suc l) =
    let below = find_right t (offset * 2 % u32) l in
    at_level t (suc l) >>= λ a.
    if ltb offset (ArrayList.get_size a) then ArrayList.get a offset else below

-- The last test of `mt_verify`.
unfoldable pub compare_root : Bytes → Option Bytes → Outcome MtError
compare_root d none = fault bad_access
compare_root d (some h) = done (if same_bytes d h then success else root_mismatch)

unfoldable pub compare_at : Tree → ℕ → ℕ → Bytes → Outcome MtError
compare_at t l q d = do h ← get_at t l q; compare_root d h

unfoldable pub on_climb : (Bytes → Outcome MtError) → Result Bytes → Outcome MtError
on_climb next (ok d) = next d
on_climb next (err e) = done e

module _ (sha : Sha256) where
  -- One round of `mt_add`: at a right node the pair is hashed and stored on the level above. The
  -- allocator's answer for level l is `mem l`.
  unfoldable pub add_round :
      (ℕ → Bool) → ℕ → ℕ → Bytes → Tree → (Bytes → Tree → Outcome Status) → Outcome Status
  add_round mem q l d t next =
      if mt_right q
      then (get_at t l (q - 1) >>= λ left.
          on_hash
            (λ d'.
              on_level t (l + 1) (λ a. ArrayList.add_or_update (mem (l + 1)) a (some d') (q / 2))
              >>= check (next d'))
            t (mt_hash sha left (some d)))
      else next d t

  -- `while (q > 0 && l < TREE_LEVELS)`: the first argument is TREE_LEVELS - l.
  unfoldable pub add_loop : (ℕ → Bool) → ℕ → ℕ → ℕ → Bytes → Tree → Outcome Status
  add_loop mem zero q l d t = confirm_at t l q d
  add_loop mem (suc n) q l d t = elim (q == 0) [
    | true ↦ confirm_at t l q d
    | false ↦ add_round mem q l d t (λ d' t'. add_loop mem n (q / 2) (suc l) d' t')
  ]

  -- After the leaf is stored.
  unfoldable pub add_above : (ℕ → Bool) → Bytes → Tree → Outcome Status
  add_above mem d t =
      let t' : Tree = record t { elems = add_u32 t.elems 1 } in
      if t'.elems == 1 then done (success, t') else add_loop mem tree_levels (t'.elems - 1) 0 d t'

  unfoldable pub add_tag : (ℕ → Bool) → Tree → Bytes → Outcome Status
  add_tag mem t tag =
      on_level t 0 (λ a. ArrayList.add (mem 0) a (some (init_hash tag)))
      >>= check (add_above mem (init_hash tag))

  unfoldable pub add : (ℕ → Bool) → Option Tree → Option Bytes → Outcome (MtError × Option Tree)
  add mem mt tag = guarded mt tag (add_tag mem)

  -- The node's hash joined with its neighbour's, in a round of `mt_verify` and of `mt_update`.
  unfoldable pub join_right : Bytes → Option Bytes → Result Bytes
  join_right d none = ok d
  join_right d (some r) = mt_hash sha (some d) (some r)

  unfoldable pub climb : Tree → ℕ → ℕ → Bytes → Outcome (Result Bytes)
  climb t q l d =
      if mt_left q
      then (find_right t (q + 1) l >>= λ right. done (join_right d right))
      else (get_at t l (q - 1) >>= λ left. done (mt_hash sha left (some d)))

  -- `while (hasNextLevelExceptRoot(mt, l))`: the test fails from level 28 on, so the bound on the
  -- rounds is never met.
  unfoldable pub verify_loop : ℕ → ℕ → ℕ → Bytes → Tree → Outcome MtError
  verify_loop zero q l d t = compare_at t l q d
  verify_loop (suc n) q l d t =
      let round = climb t q l d >>= on_climb (λ d'. verify_loop n (q / 2) (suc l) d' t) in
      has_next_level t l >>= λ more. elim more [ false ↦ compare_at t l q d | true ↦ round ]

  unfoldable pub verify : Option Tree → Option Bytes → ℕ → Outcome MtError
  verify none tag offset = done illegal_param
  verify (some t) none offset = done illegal_param
  verify (some t) (some tag) offset =
      if leb (length tag) hash_length && ltb offset t.elems
      then verify_loop tree_levels offset 0 (init_hash tag) t
      else done illegal_param

  unfoldable pub update_loop : ℕ → ℕ → ℕ → Bytes → Tree → Outcome Status
  update_loop zero q l d t = confirm_at t l q d
  update_loop (suc n) q l d t =
      let round =
        climb t q l d
        >>= on_hash
            (λ d'.
              on_level t (suc l) (λ a. ArrayList.update_if_exists a (some d') (q / 2))
              >>= check (λ t'. update_loop n (q / 2) (suc l) d' t'))
            t in
      has_next_level t l >>= λ more. elim more [ false ↦ confirm_at t l q d | true ↦ round ]

  unfoldable pub update_tag : ℕ → Tree → Bytes → Outcome Status
  update_tag offset t tag =
      if ltb offset t.elems
      then (on_level t 0 (λ a. ArrayList.update a (some (init_hash tag)) offset)
          >>= check (update_loop tree_levels offset 0 (init_hash tag)))
      else done (illegal_param, t)

  unfoldable pub update : Option Tree → Option Bytes → ℕ → Outcome (MtError × Option Tree)
  update mt tag offset = guarded mt tag (update_tag offset)

-- The level of the root, by the loop of `mt_get_root`.
unfoldable pub root_level : ℕ → ℕ → Tree → Outcome ℕ
root_level zero l t = done l
root_level (suc n) l t =
    let above = root_level n (suc l) t in
    has_next_level t l >>= λ more. elim more [ false ↦ done l | true ↦ above ]

unfoldable pub copied : Option Bytes → Outcome (Result Bytes)
copied none = fault bad_access
copied (some h) = done (ok h)

-- What is written through `root` with MT_SUCCESS, or the status.
unfoldable pub get_root : Option Tree → Outcome (Result Bytes)
get_root none = done (err illegal_param)
get_root (some t) = do l ← root_level tree_levels 0 t; h ← get_at t l 0; copied h

-- A status as the number that it stands for, in 32 bits.
unfoldable pub status_u32 : MtError → ℕ
status_u32 success = 0
status_u32 MtError.out_of_memory = u32 - 1
status_u32 illegal_param = u32 - 2
status_u32 MtError.illegal_state = u32 - 3
status_u32 root_mismatch = u32 - 4
status_u32 MtError.unspecified = u32 - 5

unfoldable pub get_size : Option Tree → Outcome ℕ
get_size none = done (status_u32 illegal_param)
get_size (some t) = do a ← at_level t 0; done (ArrayList.get_size a)

-- The `int` result, in 32 bits: MT_ERR_ILLEGAL_PARAM, 0 or 1.
unfoldable pub exists : Option Tree → ℕ → Outcome ℕ
exists none offset = done (status_u32 illegal_param)
exists (some t) offset =
    if ltb mt_al_max_elems offset
    then done (status_u32 illegal_param)
    else (get_at t 0 offset >>= λ h. done (elim h [ none ↦ 0 | some _ ↦ 1 ]))
