-- ===== src/Slabs/Tests.antt =====
-- memcached/slabs.c: three classes, and an item freed.
use kvsev.Prelude.{◌+◌, ◌*◌, ◌≤◌, ◌≡◌, refl, true, false, none, some, [], ◌∷◌, arith}
use kvsev.Lru.{Node}
use kvsev.Slabs.{Slabs, slabs_clsid, do_slabs_free, do_slabs_newslab, do_slabs_alloc, page_length}
use kvsev.Slabs.Classes.{Smallest, slabs_clsid_lem}
use kvsev.Slabs.FreeList.{FreeList, OtherLists, do_slabs_free_lem}
use kvsev.Slabs.Alloc.{Handed, do_slabs_alloc_lem}
use kvsev.Slabs.Memory.{do_slabs_newslab_lem}

abbrev in_use : Node
in_use = record {
  prev = none;
  next = none;
  slabs_clsid = 1;
  slabbed = false;
  is_hdr = false;
  ntotal = 80;
  nbytes = 10;
  refcount = 1;
}

-- Class `c` has items of `c` times 96 bytes, and one page in use; the pool has no pages.
abbrev base : Slabs
base = record {
  item_size_max = 1000;
  slab_page_size = 960;
  slab_chunk_size_max = 480;
  slab_reassign = true;
  slabclass = λ c. record {
    size = c * 96;
    perslab = 2;
    slots = none;
    sl_curr = 0;
    slabs = 0 + c;
    slab_list = [];
    list_size = 16;
  };
  power_largest = 3;
  mem_limit = 4000;
  mem_malloced = 2880;
  mem_limit_reached = false;
  mem_base = none;
  mem_current = 0;
  mem_avail = 0;
  node = λ x. in_use;
}

no_list : FreeList base 1 []
no_list = record { chain = tt; fresh = tt; free = tt; head = refl; count = refl }

slabs_clsid_lem_example : Smallest base 100 1 (slabs_clsid base 100)
slabs_clsid_lem_example = slabs_clsid_lem base 100 (omega arith) (omega arith) (omega arith)

-- The item on the free list.
freed : FreeList (do_slabs_free base 5 1) 1 (5 ∷ [])
freed = (do_slabs_free_lem base 5 1 [] (omega arith) (omega arith) refl no_list).0

power_largest_same : 1 ≤ (do_slabs_free base 5 1).power_largest
unfolding do_slabs_free
power_largest_same = omega arith

do_slabs_alloc_lem_example :
    (s' : Slabs) × (do_slabs_alloc none false true (do_slabs_free base 5 1) 1 ≡ (s', some 5))
    × FreeList s' 1 []
    × OtherLists (do_slabs_free base 5 1) 1 s'
    × Handed (do_slabs_free base 5 1) s' 5 1 []
do_slabs_alloc_lem_example =
    do_slabs_alloc_lem none false true (do_slabs_free base 5 1) 5 1 [] (omega arith)
      power_largest_same freed

page_length_whole : page_length base 1 ≡ 960
unfolding page_length
page_length_whole = refl

do_slabs_newslab_lem_example : (do_slabs_newslab (some 100000) true base 1).0.mem_malloced ≤ 4000
do_slabs_newslab_lem_example =
    do_slabs_newslab_lem (some 100000) true base 1 (omega arith) (omega arith) (omega arith)
      (omega arith) (omega arith) (omega (arith, page_length_whole))
