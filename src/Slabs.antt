-- ===== src/Slabs.antt =====
-- memcached/slabs.c: the slab classes, their free lists and pages, without items in chunks and with one
-- caller at a time (slabs_lock). As built with NDEBUG, without the assertions. A pointer is a number, and
-- `none` the null pointer; `malloc` and `realloc` are answered by arguments.
pub mod Classes
pub mod FreeList
pub mod Alloc
pub mod Memory
mod Tests
use kvsev.Prelude.{
  ℕ, zero, suc, ◌+◌, ◌-◌, ◌*◌, ◌%◌, Bool, true, false, ◌&&◌, ◌||◌, not, Option, none, some, List,
  [], ◌∷◌, ◌++◌, ltb, leb, ◌==◌, if◌then◌else◌, get_elem?, take,
}
use kvsev.Lru.{Node, put, is_null, set_prev, u64}

-- `slabclass_t`; `slab_list` has the `slabs` pages.
pub record SlabClass : Type 0 where
  pub size : ℕ
  pub perslab : ℕ
  pub slots : Option ℕ
  pub sl_curr : ℕ
  pub slabs : ℕ
  pub slab_list : List ℕ
  pub list_size : ℕ

-- The settings and the file's variables, and the items in memory.
pub record Slabs : Type 0 where
  pub item_size_max : ℕ
  pub slab_page_size : ℕ
  pub slab_chunk_size_max : ℕ
  pub slab_reassign : Bool
  pub slabclass : ℕ → SlabClass
  pub power_largest : ℕ
  pub mem_limit : ℕ
  pub mem_malloced : ℕ
  pub mem_limit_reached : Bool
  pub mem_base : Option ℕ
  pub mem_current : ℕ
  pub mem_avail : ℕ
  pub node : ℕ → Node

-- The loop of `slabs_clsid`, with the classes that are left.
unfoldable pub clsid_loop : Slabs → ℕ → ℕ → ℕ → ℕ
clsid_loop s size zero res = res
clsid_loop s size (suc left) res =
    let later = clsid_loop s size left (res + 1) in
    if ltb (s.slabclass res).size size
    then if res == s.power_largest then s.power_largest else later
    else res

unfoldable pub slabs_clsid : Slabs → ℕ → ℕ
slabs_clsid s size =
    if size == 0 || ltb s.item_size_max size then 0 else clsid_loop s size s.power_largest 1

-- An item that is free in class `id`.
abbrev pub free_node : ℕ → Option ℕ → Node → Node
free_node id slots it = record it {
  slabbed = true;
  is_hdr = false;
  slabs_clsid = id;
  prev = none;
  next = slots;
}

-- `do_slabs_free` of an item that is not in chunks.
unfoldable pub do_slabs_free : Slabs → ℕ → ℕ → Slabs
do_slabs_free s ptr id =
    let p = s.slabclass id in
    let freed : Slabs = record s {
      node = set_prev (put s.node ptr (free_node id p.slots (s.node ptr))) p.slots (some ptr);
      slabclass = put s.slabclass id (record p { slots = some ptr; sl_curr = p.sl_curr + 1 });
    } in
    if ltb id 1 || ltb s.power_largest id then s else freed

-- `split_slab_page_into_freelist`, with the number of items that are left.
unfoldable pub split_page : ℕ → Slabs → ℕ → ℕ → Slabs
split_page zero s ptr id = s
split_page (suc left) s ptr id =
    split_page left (do_slabs_free s ptr id) (ptr + (s.slabclass id).size) id

unfoldable pub get_page_from_global_pool : Slabs → Slabs × Option ℕ
get_page_from_global_pool s =
    let p = s.slabclass 0 in
    if ltb p.slabs 1 then (s, none) else (
      record s { slabclass = put s.slabclass 0 (record p { slabs = p.slabs - 1 }) },
      get_elem? p.slab_list (p.slabs - 1),
    )

-- `size` rounded up to CHUNK_ALIGN_BYTES
abbrev pub aligned : ℕ → ℕ
aligned size = if size % 8 == 0 then size else size + (8 - size % 8)

unfoldable pub memory_allocate : Option ℕ → Slabs → ℕ → Slabs × Option ℕ
memory_allocate malloc s size =
    let taken : Slabs = record s {
      mem_current = s.mem_current + aligned size;
      mem_avail = if ltb (aligned size) s.mem_avail then s.mem_avail - aligned size else 0;
      mem_malloced = s.mem_malloced + aligned size;
    } in
    elim s.mem_base [
      | none ↦ (record s { mem_malloced = s.mem_malloced + size }, malloc)
      | some base ↦ if ltb s.mem_avail size then (s, none) else (taken, some s.mem_current)
    ]

-- `grow_slab_list`, with the answer of `realloc`.
unfoldable pub grow_slab_list : Bool → Slabs → ℕ → Option Slabs
grow_slab_list realloc s id =
    let p = s.slabclass id in
    let new_size = if p.list_size == 0 then 16 else p.list_size * 2 in
    if p.slabs == p.list_size
    then if realloc
      then some (record s { slabclass = put s.slabclass id (record p { list_size = new_size }) })
      else none
    else some s

-- `memset(ptr, 0, len)`, as the items in the page see it.
abbrev zero_node : Node
zero_node = record {
  prev = none;
  next = none;
  slabs_clsid = 0;
  slabbed = false;
  is_hdr = false;
  ntotal = 0;
  nbytes = 0;
  refcount = 0;
}

unfoldable pub wiped : Slabs → ℕ → ℕ → Slabs
wiped s ptr len = record s {
  node = λ x. if leb ptr x && ltb x (ptr + len) then zero_node else s.node x;
}

-- The page in use: its items are free, and it is counted.
unfoldable pub use_page : Slabs → ℕ → ℕ → ℕ → Slabs
use_page s id ptr len =
    let split = split_page (s.slabclass id).perslab (wiped s ptr len) ptr id in
    let p = split.slabclass id in
    record split {
      slabclass =
          put split.slabclass id
            (record p { slabs = p.slabs + 1; slab_list = take p.slabs p.slab_list ++ ptr ∷ [] });
    }

unfoldable pub page_length : Slabs → ℕ → ℕ
page_length s id =
    let p = s.slabclass id in
    if s.slab_reassign || not (s.slab_chunk_size_max == s.slab_page_size)
    then s.slab_page_size
    else p.size * p.perslab

-- The page: from the pool, or new memory.
unfoldable pub take_page : Option ℕ → Slabs → ℕ → Slabs × Option ℕ
take_page malloc s len =
    let pooled = get_page_from_global_pool s in
    elim pooled.1 [ some ptr ↦ pooled | none ↦ memory_allocate malloc pooled.0 len ]

unfoldable pub do_slabs_newslab : Option ℕ → Bool → Slabs → ℕ → Slabs × Bool
do_slabs_newslab malloc realloc s id =
    let len = page_length s id in
    let full =
      not (s.mem_limit == 0)
      && (ltb s.mem_limit (s.mem_malloced + len)
          && (ltb 0 (s.slabclass id).slabs && (s.slabclass 0).slabs == 0)) in
    if full
    then (record s { mem_limit_reached = true }, false)
    else elim (grow_slab_list realloc s id) [
      | none ↦ (s, false)
      | some s' ↦
          let page = take_page malloc s' len in
          elim page.1 [ none ↦ (page.0, false) | some ptr ↦ (use_page page.0 id ptr len, true) ]
    ]

-- The first free item, taken off the list. A null `slots`, which the code would follow, does not come
-- with items left.
unfoldable pub pop_slot : Slabs → ℕ → Slabs × Option ℕ
pop_slot s id =
    let p = s.slabclass id in
    elim p.slots [
      | none ↦ (s, none)
      | some it ↦
          let next = (s.node it).next in
          let node = set_prev s.node next none in
          (
            record s {
              node = put node it (record (node it) { slabbed = false; refcount = 1 });
              slabclass = put s.slabclass id (record p { slots = next; sl_curr = p.sl_curr - 1 });
            },
            some it,
          )
    ]

-- `do_slabs_alloc`; `new_page` is `flags != SLABS_ALLOC_NO_NEWPAGE`.
unfoldable pub do_slabs_alloc : Option ℕ → Bool → Bool → Slabs → ℕ → Slabs × Option ℕ
do_slabs_alloc malloc realloc new_page s id =
    let grown =
      if (s.slabclass id).sl_curr == 0 && new_page
      then (do_slabs_newslab malloc realloc s id).0
      else s in
    if ltb id 1 || ltb s.power_largest id
    then (s, none)
    else if (grown.slabclass id).sl_curr == 0
    then (grown, none)
    else pop_slot grown id
