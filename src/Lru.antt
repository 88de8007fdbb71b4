-- ===== src/Lru.antt =====
-- memcached/items.c: do_item_link_q and do_item_unlink_q, the LRU queues of items linked by `prev` and `next`.
-- Items have addresses; `none` is the null pointer.
pub mod Chains
pub mod Queue
pub mod Unlink
mod Tests
use kvsev.Prelude.{
  ℕ, ◌+◌, ◌-◌, ◌%◌, ◌^◌, Bool, true, false, ◌&&◌, ◌||◌, not, Option, none, some, ◌==◌,
  if◌then◌else◌,
}
use kvsev.Prelude.Outcome.{Outcome, done, assert, ◌>>=◌, ◌>>◌}

-- The fields of an item that the queues and the free lists of slabs.c use; `slabbed` and `is_hdr` are
-- flags.
pub record Node : Type 0 where
  pub prev : Option ℕ
  pub next : Option ℕ
  pub slabs_clsid : ℕ
  pub slabbed : Bool
  pub is_hdr : Bool
  pub ntotal : ℕ
  pub nbytes : ℕ
  pub refcount : ℕ

-- The items in memory, and the queues by their id.
pub record Lru : Type 0 where
  pub node : ℕ → Node
  pub heads : ℕ → Option ℕ
  pub tails : ℕ → Option ℕ
  pub sizes : ℕ → ℕ
  pub sizes_bytes : ℕ → ℕ

-- A function with another value at one place.
abbrev pub put {ℓ} : {A : Type ℓ} → (ℕ → A) → ℕ → A → ℕ → A
put f a v = λ x. if x == a then v else f x

abbrev pub is_null : Option ℕ → Bool
is_null none = true
is_null (some a) = false

-- `p == it`
abbrev pub points_to : Option ℕ → ℕ → Bool
points_to none a = false
points_to (some b) a = b == a

-- `if (p) p->prev = v` and `if (p) p->next = v`
unfoldable pub set_prev : (ℕ → Node) → Option ℕ → Option ℕ → ℕ → Node
set_prev node none v = node
set_prev node (some b) v = put node b (record (node b) { prev = v })

unfoldable pub set_next : (ℕ → Node) → Option ℕ → Option ℕ → ℕ → Node
set_next node none v = node
set_next node (some b) v = put node b (record (node b) { next = v })

-- What an item counts for in `sizes_bytes`; `sizeof(item_hdr)` is 12.
unfoldable pub counted_bytes : Node → ℕ
counted_bytes o = if o.is_hdr then o.ntotal - o.nbytes + 12 else o.ntotal

abbrev pub u32 : ℕ
u32 = 4294967296

abbrev pub u64 : ℕ
u64 = 18446744073709551616

unfoldable pub do_item_link_q : Lru → ℕ → Outcome Lru
do_item_link_q q a =
    let it = q.node a in
    let c = it.slabs_clsid in
    let head = q.heads c in
    let tail = q.tails c in
    let linked = put q.node a (record it { prev = none; next = head }) in
    let q' : Lru = record {
      node = set_prev linked head (some a);
      heads = put q.heads c (some a);
      tails = if is_null tail then put q.tails c (some a) else q.tails;
      sizes = put q.sizes c ((q.sizes c + 1) % u32);
      sizes_bytes = put q.sizes_bytes c ((q.sizes_bytes c + counted_bytes it) % u64);
    } in
    assert (not it.slabbed)
    >> (assert (not (points_to head a))
        >> (assert ((not (is_null head) && not (is_null tail)) || (is_null head && is_null tail))
            >> done q'))

unfoldable pub do_item_unlink_q : Lru → ℕ → Outcome Lru
do_item_unlink_q q a =
    let it = q.node a in
    let c = it.slabs_clsid in
    let q' : Lru = record {
      node = set_next (set_prev q.node it.next it.prev) it.prev it.next;
      heads = if points_to (q.heads c) a then put q.heads c it.next else q.heads;
      tails = if points_to (q.tails c) a then put q.tails c it.prev else q.tails;
      sizes = put q.sizes c ((q.sizes c + (u32 - 1)) % u32);
      sizes_bytes = put q.sizes_bytes c ((q.sizes_bytes c + (u64 - counted_bytes it % u64)) % u64);
    } in
    assert (not (points_to (q.heads c) a) || is_null it.prev)
    >> (assert (not (points_to (q.tails c) a) || is_null it.next)
        >> (assert (not (points_to it.next a)) >> (assert (not (points_to it.prev a)) >> done q')))

-- The move of an item to the front of its queue, as lru_pull_tail does it.
unfoldable pub to_front : Lru → ℕ → Outcome Lru
to_front q a = do_item_unlink_q q a >>= λ q'. do_item_link_q q' a
