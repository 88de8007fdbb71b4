-- ===== src/Assoc.antt =====
-- memcached/assoc.c: the hash table of the items, which grows one bucket at a time. A chain through
-- `h_next` is the list of its items; an item is in one chain at most. The hash of a key is passed in
-- by the callers, and is the parameter `hash` where the code computes it.
pub mod Chain
pub mod Buckets
pub mod Placed
pub mod Move
pub mod Grow
pub mod Migrate
pub mod Maintain
pub mod History
mod Tests
pub mod Put
pub mod Change
pub mod Iterate
use kvsev.Prelude.{
  ℕ, zero, suc, ◌+◌, ◌-◌, ◌*◌, ◌/◌, ◌%◌, ◌^◌, Bool, true, false, ◌&&◌, Option, none, some, List, [],
  ◌∷◌, ltb, leb, ◌==◌, if◌then◌else◌, length, get_or, set, replicate,
}
use kvsev.Prelude.Bytes.{same_bytes}

abbrev pub Key : Type 0
Key = List ℕ

-- What the table sees of an `item`, and its contents.
pub record Item : Type 0 where
  pub key : Key
  pub value : List ℕ

abbrev pub Chain : Type 0
Chain = List Item

-- The file's variables, with what it keeps in `stats_state`.
pub record Assoc : Type 0 where
  pub hashpower : ℕ
  pub primary : List Chain
  pub old : List Chain
  pub expanding : Bool
  pub expand_bucket : ℕ
  pub hash_power_level : ℕ
  pub hash_bytes : ℕ
  pub hash_is_expanding : Bool

-- `(ub4)1 << n`; the shift is undefined from n = 32 on.
abbrev pub hashsize : ℕ → ℕ
hashsize n = 2 ^ n

-- `hv & hashmask(n)`
abbrev pub masked : ℕ → ℕ → ℕ
masked hv n = hv % hashsize n

abbrev pub pointer_size : ℕ
pointer_size = 8

abbrev pub hashpower_max : ℕ
hashpower_max = 32

-- `assoc_init`: 0 asks for the default, 16. `none` is the exit when memory is refused.
unfoldable pub init : Bool → ℕ → Option Assoc
init mem hashtable_init =
    let power = if hashtable_init == 0 then 16 else hashtable_init in
    if mem
    then some (record {
      hashpower = power;
      primary = replicate (hashsize power) [];
      old = [];
      expanding = false;
      expand_bucket = 0;
      hash_power_level = power;
      hash_bytes = hashsize power * pointer_size;
      hash_is_expanding = false;
    })
    else none

-- The test at the head of each operation: is the key's bucket still in the old table?
unfoldable pub in_old : Assoc → ℕ → Bool
in_old s hv = s.expanding && leb s.expand_bucket (masked hv (s.hashpower - 1))

-- The chain that the operation walks, and a table with another in its place.
unfoldable pub chain_of : Assoc → ℕ → Chain
chain_of s hv =
    if in_old s hv
    then get_or s.old (masked hv (s.hashpower - 1)) []
    else get_or s.primary (masked hv s.hashpower) []

unfoldable pub put_chain : Assoc → ℕ → Chain → Assoc
put_chain s hv c =
    if in_old s hv
    then record s { old = set s.old (masked hv (s.hashpower - 1)) c }
    else record s { primary = set s.primary (masked hv s.hashpower) c }

-- `(nkey == it->nkey) && (memcmp(key, ITEM_key(it), nkey) == 0)`
unfoldable pub matches : Key → Item → Bool
matches key it = length key == length it.key && same_bytes key it.key

-- The walk of `assoc_find`.
unfoldable pub find_in : Key → Chain → Option Item
find_in key [] = none
find_in key (it ∷ rest) = if matches key it then some it else find_in key rest

-- The walk of `_hashitem_before`, and the removal of the item that it stops before.
unfoldable pub remove_in : Key → Chain → Option Chain
remove_in key [] = none
remove_in key (it ∷ rest) =
    if matches key it
    then some rest
    else elim (remove_in key rest) [ none ↦ none | some r ↦ some (it ∷ r) ]

unfoldable pub find : Assoc → Key → ℕ → Option Item
find s key hv = find_in key (chain_of s hv)

unfoldable pub insert : Assoc → Item → ℕ → Assoc
insert s it hv = put_chain s hv (it ∷ chain_of s hv)

-- `none` is the failed assertion at the end.
unfoldable pub delete : Assoc → Key → ℕ → Option Assoc
delete s key hv = elim (remove_in key (chain_of s hv)) [
  | none ↦ none
  | some c ↦ some (put_chain s hv c)
]

-- `assoc_expand`: without memory the table stays as it is.
unfoldable pub expand : Bool → Assoc → Assoc
expand true s = record s {
  old = s.primary;
  primary = replicate (hashsize (s.hashpower + 1)) [];
  hashpower = s.hashpower + 1;
  expanding = true;
  expand_bucket = 0;
  hash_power_level = s.hashpower + 1;
  hash_bytes = s.hash_bytes + hashsize (s.hashpower + 1) * pointer_size;
  hash_is_expanding = true;
}
expand false s = record s { old = s.primary }

-- `assoc_start_expand`: whether the maintenance thread is woken. `free` is the answer of trylock.
unfoldable pub start_expand : Bool → Assoc → ℕ → Bool
start_expand free s curr_items =
    free
    && (ltb (hashsize s.hashpower * 3 % 4294967296 / 2) curr_items && ltb s.hashpower hashpower_max)

module _ (hash : Key → ℕ) where
  -- The inner loop of the maintenance thread: the items of a chain go to the primary table.
  unfoldable pub move_chain : ℕ → Chain → List Chain → List Chain
  move_chain power [] primary = primary
  move_chain power (it ∷ next) primary =
      let bucket = masked (hash it.key) power in
      move_chain power next (set primary bucket (it ∷ get_or primary bucket []))

  -- One bucket moved; after the last the old table is freed.
  unfoldable pub migrate : Assoc → Assoc
  migrate s =
      let bucket = s.expand_bucket + 1 in
      let moved : Assoc = record s {
        primary = move_chain s.hashpower (get_or s.old s.expand_bucket []) s.primary;
        old = set s.old s.expand_bucket [];
        expand_bucket = bucket;
      } in
      if bucket == hashsize (s.hashpower - 1)
      then record moved {
        expanding = false;
        old = [];
        hash_bytes = s.hash_bytes - hashsize (s.hashpower - 1) * pointer_size;
        hash_is_expanding = false;
      }
      else moved

  -- The bulk loop of the maintenance thread: one answer of `item_trylock` for each round.
  unfoldable pub bulk_move : List Bool → Assoc → Assoc
  bulk_move [] s = s
  bulk_move (locked ∷ rest) s =
      let next = bulk_move rest (if locked then migrate s else s) in if s.expanding then next else s

  -- A round of the thread: the bulk loop, and then, if the table is not expanding and the thread is
  -- woken to go on, an expansion.
  unfoldable pub maintain : List Bool → Bool → Bool → Assoc → Assoc
  maintain locks go_on mem s =
      let s' = bulk_move locks s in if s'.expanding then s' else if go_on then expand mem s' else s'
