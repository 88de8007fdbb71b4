-- ===== src/Merkle/ArrayList.antt =====
-- src/merkle/mt_array_list.c: a growing array of hashes over `malloc` and `realloc`.
-- A list is reached through a pointer that is not null: each function reads `mt_al->elems` in its
-- first `assert`, before it tests the pointer.
pub mod Powers
pub mod Memory
pub mod Holds
pub mod Reserve
pub mod Grow
pub mod Change
pub mod Shrink
use Prim.Native.Nat.{bit_and, bit_or}
use kvsev.Prelude.{
  ℕ, zero, suc, ◌+◌, ◌-◌, ◌*◌, ◌/◌, ◌%◌, Bool, true, false, ◌&&◌, ◌||◌, not, Option, none, some,
  ltb, leb, ◌==◌, if◌then◌else◌,
}
use kvsev.Prelude.Outcome.{Outcome, done, fault, bad_access, ◌>>=◌, ◌>>◌, assert}
use kvsev.Merkle.Config.{
  Bytes, hash_length, mt_al_max_elems, u32, MtError, success, out_of_memory, illegal_param,
  illegal_state,
}

-- A block from the allocator: its size in bytes, and the hashes in its slots of 32 bytes. A slot
-- that was never written holds `none`.
pub record Block : Type 0 where
  pub size : ℕ
  pub slots : ℕ → Option Bytes

-- What a pointer to a block points to.
pub data Store : Type 0 where
  null freed : Store
  live : Block → Store

pub record ArrayList : Type 0 where
  pub elems : ℕ
  pub store : Store

-- The unsigned 32-bit operations, with their wrap.
abbrev pub add_u32 : ℕ → ℕ → ℕ
add_u32 a b = (a + b) % u32

abbrev pub mul_u32 : ℕ → ℕ → ℕ
mul_u32 a b = (a * b) % u32

abbrev pub dec_u32 : ℕ → ℕ
dec_u32 v = (v + u32 - 1) % u32

-- `v |= v >> 1` to `v |= v >> 16`.
unfoldable pub smear : ℕ → ℕ
smear a =
    let b = bit_or a (a / 2) in
    let c = bit_or b (b / 4) in
    let d = bit_or c (c / 16) in let e = bit_or d (d / 256) in bit_or e (e / 65536)

unfoldable pub round_next_power_two : ℕ → ℕ
round_next_power_two v =
    let r = add_u32 (smear (dec_u32 v)) 1 in add_u32 r (if r == 0 then 1 else 0)

unfoldable pub is_power_of_two : ℕ → Bool
is_power_of_two v = not (v == 0) && (bit_and v (dec_u32 v) == 0)

-- The pieces of a block that survive at another size.
unfoldable pub keep_below : ℕ → (ℕ → Option Bytes) → ℕ → Option Bytes
keep_below size slots i = if leb (i * hash_length + hash_length) size then slots i else none

-- `malloc` and `realloc`. The first argument is the allocator's answer; the result is whether the
-- pointer returned is not null, and what the list's own pointer then points to. `realloc` to size
-- 0 frees the block and returns null, as glibc documents.
unfoldable pub malloc : Bool → Store → ℕ → Bool × Store
malloc true s n = (true, live (record { size = n; slots = λ _. none }))
malloc false s n = (false, null)

unfoldable pub realloc : Bool → Store → ℕ → Outcome (Bool × Store)
realloc mem null n = done (malloc mem null n)
realloc mem freed n = fault bad_access
realloc mem (live b) zero = done (false, freed)
realloc true (live b) (suc n) =
    done (true, live (record { size = suc n; slots = keep_below (suc n) b.slots }))
realloc false (live b) (suc n) = done (false, live b)

-- A block's slot written: `memcpy(&store[offset], hash, HASH_LENGTH)`.
unfoldable pub assign : (ℕ → Option Bytes) → ℕ → Bytes → ℕ → Option Bytes
assign slots i h j = if i == j then some h else slots j

unfoldable pub write : Store → ℕ → Bytes → Outcome Store
write null offset h = fault bad_access
write freed offset h = fault bad_access
write (live b) offset h =
    if leb (offset + hash_length) b.size
    then done (live (record b { slots = assign b.slots (offset / hash_length) h }))
    else fault bad_access

-- The hash at a pointer into the block.
unfoldable pub read : Store → ℕ → Outcome Bytes
read null offset = fault bad_access
read freed offset = fault bad_access
read (live b) offset =
    if leb (offset + hash_length) b.size
    then elim (b.slots (offset / hash_length)) [ some h ↦ done h | none ↦ fault bad_access ]
    else fault bad_access

-- `calloc` zeroes the new list.
abbrev pub empty : ArrayList
empty = record { elems = 0; store = null }

unfoldable pub create : Bool → Option ArrayList
create mem = if mem then some empty else none

-- `free(mt_al->store)`: a block is freed once.
unfoldable pub free : Store → Outcome Store
free null = done null
free freed = fault bad_access
free (live b) = done freed

unfoldable pub delete : ArrayList → Outcome (Unit {0})
delete a = free a.store >>= λ _. done tt

-- A status, and the list that the call leaves.
abbrev pub Reply : Type 0
Reply = MtError × ArrayList

-- What follows a request for memory: `if (!tmp) return MT_ERR_OUT_OF_MEMORY; mt_al->store = tmp;`
unfoldable pub granted : ArrayList → Bool × Store → Reply
granted a (true, s) = (success, record a { store = s })
granted a (false, s) = (out_of_memory, record a { store = s })

-- The first part of `mt_al_add`: room for one more hash.
unfoldable pub reserve : Bool → ArrayList → Outcome Reply
reserve mem a =
    if a.elems == 0
    then done (granted a (malloc mem a.store hash_length))
    else if is_power_of_two a.elems
    then if ltb (mul_u32 a.elems 2) a.elems || ltb mt_al_max_elems (mul_u32 a.elems 2)
      then done (illegal_state, a)
      else (realloc mem a.store (mul_u32 (mul_u32 a.elems 2) hash_length) >>= λ r.
          done (granted a r))
    else done (success, a)

-- The rest of it: the hash is copied behind the others.
unfoldable pub append : Bytes → Reply → Outcome Reply
append h (success, a) = do
  s ← write a.store (mul_u32 a.elems hash_length) h
  done (success, record { elems = add_u32 a.elems 1; store = s })
append h (e, a) = done (e, a)

unfoldable pub add : Bool → ArrayList → Option Bytes → Outcome Reply
add mem a hash = do
  assert (ltb a.elems mt_al_max_elems)
  elim hash [ none ↦ done (illegal_param, a) | some h ↦ reserve mem a >>= append h ]

-- `memcpy` over an element.
unfoldable pub overwrite : ArrayList → Bytes → ℕ → Outcome Reply
overwrite a h offset = do
  s ← write a.store (mul_u32 offset hash_length) h
  done (success, record a { store = s })

unfoldable pub update : ArrayList → Option Bytes → ℕ → Outcome Reply
update a hash offset = do
  assert (ltb a.elems mt_al_max_elems)
  elim hash [
    | none ↦ done (illegal_param, a)
    | some h ↦ if ltb offset a.elems then overwrite a h offset else done (illegal_param, a)
  ]

unfoldable pub update_if_exists : ArrayList → Option Bytes → ℕ → Outcome Reply
update_if_exists a hash offset = do
  assert (ltb a.elems mt_al_max_elems)
  elim hash [
    | none ↦ done (illegal_param, a)
    | some h ↦ if leb a.elems offset then done (success, a) else overwrite a h offset
  ]

unfoldable pub add_or_update : Bool → ArrayList → Option Bytes → ℕ → Outcome Reply
add_or_update mem a hash offset = do
  assert (ltb a.elems mt_al_max_elems)
  elim hash [
    | none ↦ done (illegal_param, a)
    | some h ↦
        if ltb a.elems offset
        then done (illegal_param, a)
        else if offset == a.elems
        then add mem a (some h)
        else update a (some h) offset
  ]

-- The rest of `mt_al_truncate`, at the new number of elements.
unfoldable pub shrink : Bool → ArrayList → Outcome Reply
shrink mem a =
    if a.elems == 0
    then (free a.store >>= λ s. done (success, record a { store = s }))
    else (realloc mem a.store (mul_u32 (round_next_power_two a.elems) hash_length) >>= λ r.
        done (granted a r))

unfoldable pub truncate : Bool → ArrayList → ℕ → Outcome Reply
truncate mem a elems = do
  assert (ltb a.elems mt_al_max_elems)
  if ltb elems a.elems then shrink mem (record a { elems = elems }) else done (illegal_param, a)

-- `NULL`, or the hash at the pointer returned.
unfoldable pub get : ArrayList → ℕ → Outcome (Option Bytes)
get a offset = do
  assert (ltb a.elems mt_al_max_elems)
  if ltb offset a.elems
      then (read a.store (mul_u32 offset hash_length) >>= λ h. done (some h))
      else done none

unfoldable pub has_right_neighbor : ArrayList → ℕ → Bool
has_right_neighbor a offset = ltb (add_u32 offset 1) a.elems

unfoldable pub get_size : ArrayList → ℕ
get_size a = a.elems
