-- ===== src/Lru/Tests.antt =====
-- memcached/items.c: a queue of two items, and a third.
use kvsev.Prelude.{◌≡◌, refl, false, none, some, [], ◌∷◌, arith}
use kvsev.Prelude.Outcome.{done}
use kvsev.Lru.{Node, Lru, put, do_item_link_q, do_item_unlink_q, to_front}
use kvsev.Lru.Queue.{IsQueue, Others, do_item_link_q_lem}
use kvsev.Lru.Unlink.{do_item_unlink_q_lem, to_front_lem}

abbrev loose : Node
loose = record {
  prev = none;
  next = none;
  slabs_clsid = 1;
  slabbed = false;
  is_hdr = false;
  ntotal = 80;
  nbytes = 10;
  refcount = 1;
}

-- 5 before 7 in queue 1; 6 is in none.
abbrev two : Lru
two = record {
  node =
      put (put (λ x. loose) 5 (record loose { next = some 7 })) 7 (record loose { prev = some 5 });
  heads = put (λ c. none) 1 (some 5);
  tails = put (λ c. none) 1 (some 7);
  sizes = put (λ c. 0) 1 2;
  sizes_bytes = put (λ c. 0) 1 160;
}

two-IsQueue : IsQueue two 1 (5 ∷ 7 ∷ [])
two-IsQueue = record {
  chain = (refl, refl, (refl, refl, tt));
  fresh = ((λ e. omega (arith, e), tt), (tt, tt));
  own = (refl, (refl, tt));
  head = refl;
  tail = refl;
  size = refl;
}

do_item_link_q_lem_example :
    (q' : Lru) × (do_item_link_q two 6 ≡ done q') × IsQueue q' 1 (6 ∷ 5 ∷ 7 ∷ []) × Others two 1 q'
do_item_link_q_lem_example =
    do_item_link_q_lem two 6 1 (5 ∷ 7 ∷ []) refl refl two-IsQueue
      (λ e. omega (arith, e), (λ e. omega (arith, e), tt))

do_item_unlink_q_lem_example :
    (q' : Lru) × (do_item_unlink_q two 7 ≡ done q') × IsQueue q' 1 (5 ∷ []) × Others two 1 q'
do_item_unlink_q_lem_example = do_item_unlink_q_lem two 7 1 (5 ∷ []) [] two-IsQueue

to_front_lem_example :
    (q' : Lru) × (to_front two 7 ≡ done q') × IsQueue q' 1 (7 ∷ 5 ∷ []) × Others two 1 q'
to_front_lem_example = to_front_lem two 7 1 (5 ∷ []) [] refl two-IsQueue
