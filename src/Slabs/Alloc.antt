-- ===== src/Slabs/Alloc.antt =====
-- memcached/slabs.c: do_slabs_alloc while its free list has items.
use kvsev.Prelude.{
  ℕ, ◌-◌, ◌≤◌, ◌<◌, ◌≡◌, ◌≢◌, refl, sym, ap, ◌∙◌, Bool, false, Option, none, some, List, ◌∷◌, ◌==◌,
  ==_ne, length, arith, subst, ge→ltb,
}
use kvsev.Lru.{Node, put, set_prev}
use kvsev.Lru.Chains.{first_or, put_self, put_ne, Chain-put, Chain-before, set_prev_ne}
use kvsev.Lru.Queue.{Absent-first, Chain-set_prev}
use kvsev.Slabs.{Slabs, SlabClass, pop_slot, do_slabs_alloc}
use kvsev.Slabs.FreeList.{FreeList, OtherLists, Free-put, Free-set_prev, first-Free, other-Absent}

-- The store after the first item of the list is handed out.
module _ (s : Slabs) (a id : ℕ) (xs : List ℕ) (h : FreeList s id (a ∷ xs)) where
  abbrev popped : Slabs
  popped =
      let p = s.slabclass id in
      record s {
        node =
            put (set_prev s.node (first_or xs none) none) a
              (record (set_prev s.node (first_or xs none) none a) {
                slabbed = false;
                refcount = 1;
              });
        slabclass =
            put s.slabclass id (record p { slots = first_or xs none; sl_curr = p.sl_curr - 1 });
      }

  do_slabs_alloc-popped :
      (malloc : Option ℕ) (realloc new_page : Bool)
      → 0 < id
      → id ≤ s.power_largest
      → do_slabs_alloc malloc realloc new_page s id ≡ (popped, some a)
  unfolding do_slabs_alloc pop_slot
  do_slabs_alloc-popped malloc realloc new_page low high =
      let some_left : ((s.slabclass id).sl_curr == 0) ≡ false =
        ==_ne (s.slabclass id).sl_curr 0 (omega (arith, h.count)) in
      rw
        (
          ge→ltb id 1 (omega arith),
          ge→ltb s.power_largest id high,
          some_left,
          some_left,
          h.head,
          h.chain.1,
        )
        refl

  popped-FreeList : FreeList popped id xs
  popped-FreeList =
      let (back, on, chain) = h.chain in
      let (out, fresh) = h.fresh in
      let (here, class, free) = h.free in
      let v : Node = record (set_prev s.node (first_or xs none) none a) {
        slabbed = false;
        refcount = 1;
      } in
      record {
        chain =
            Chain-put (set_prev s.node (first_or xs none) none) a v none xs none out
              (Chain-before s.node (some a) none xs none fresh chain);
        fresh = fresh;
        free =
            Free-put (set_prev s.node (first_or xs none) none) a v id xs out
              (Free-set_prev s.node (first_or xs none) none id xs free);
        head = ap (λ c. c.slots) (put_self s.slabclass id _);
        count =
            ap (λ c. c.sl_curr) (put_self s.slabclass id _) ∙ ap (λ n. n - 1) h.count ∙ omega arith;
      }

  popped-Others : OtherLists s id popped
  popped-Others d ys ne k =
      let p = s.slabclass id in
      let (here, class, free) = h.free in
      let v : Node = record (set_prev s.node (first_or xs none) none a) {
        slabbed = false;
        refcount = 1;
      } in
      let out = other-Absent s.node d id ys a k.free class ne in
      let same =
        put_ne s.slabclass id (record p { slots = first_or xs none; sl_curr = p.sl_curr - 1 }) d
          (λ e. ne (sym e)) in
      record {
        chain = Chain-put (set_prev s.node (first_or xs none) none) a v none ys none out (
            Chain-set_prev s.node (first_or xs none) none none ys none
              (λ b e. other-Absent s.node d id ys b k.free (first-Free s.node id xs b free e) ne)
              k.chain);
        fresh = k.fresh;
        free =
            Free-put (set_prev s.node (first_or xs none) none) a v d ys out
              (Free-set_prev s.node (first_or xs none) none d ys k.free);
        head = ap (λ c. c.slots) same ∙ k.head;
        count = ap (λ c. c.sl_curr) same ∙ k.count;
      }

-- What an allocation of `a`, the first item of the list, writes: the list and the count of its class, the
-- flag and the references of `a`, and the `prev` of the item behind it; nothing else.
pub record Handed (s s' : Slabs) (a id : ℕ) (xs : List ℕ) : Type 0 where
  pub rest_same : s' ≡ record s { node = s'.node; slabclass = s'.slabclass }
  pub class :
      s'.slabclass id ≡ record (s.slabclass id) { slots = first_or xs none; sl_curr = length xs }
  pub classes : (d : ℕ) → d ≢ id → s'.slabclass d ≡ s.slabclass d
  pub item : s'.node a ≡ record (s.node a) { slabbed = false; refcount = 1 }
  pub behind : (b : ℕ) → first_or xs none ≡ some b → s'.node b ≡ record (s.node b) { prev = none }
  pub items : (b : ℕ) → b ≢ a → ((c : ℕ) → first_or xs none ≡ some c → b ≢ c) → s'.node b ≡ s.node b

set_prev_self :
    (node : ℕ → Node) (m v : Option ℕ) (b : ℕ)
    → m ≡ some b
    → set_prev node m v b ≡ record (node b) { prev = v }
unfolding set_prev
set_prev_self node none v b h = cc h
set_prev_self node (some c) v b h =
    let c_b : c ≡ b = cc h in
    subst (λ x. put node x (record (node x) { prev = v }) b ≡ record (node b) { prev = v })
      (sym c_b) (put_self node b (record (node b) { prev = v }))

popped-Handed :
    (s : Slabs) (a id : ℕ) (xs : List ℕ) (h : FreeList s id (a ∷ xs))
    → Handed s (popped s a id xs h) a id xs
popped-Handed s a id xs h =
    let p = s.slabclass id in
    let m = first_or xs none in
    let node = set_prev s.node m none in
    let v : Node = record (node a) { slabbed = false; refcount = 1 } in
    let c : SlabClass = record p { slots = m; sl_curr = p.sl_curr - 1 } in
    let out = h.fresh.0 in
    let left : p.sl_curr - 1 ≡ length xs = omega (arith, h.count) in
    record {
      rest_same = refl;
      class = put_self s.slabclass id c ∙ ap (λ (n : ℕ). record p { slots = m; sl_curr = n }) left;
      classes = λ d ne. put_ne s.slabclass id c d (λ e. ne (sym e));
      item =
          put_self node a v
          ∙ ap (λ (o : Node). record o { slabbed = false; refcount = 1 })
              (set_prev_ne s.node m none a (Absent-first a xs out));
      behind =
          λ b e. put_ne node a v b (Absent-first a xs out b e) ∙ set_prev_self s.node m none b e;
      items = λ b ne other.
          put_ne node a v b (λ a_b. ne (sym a_b)) ∙ set_prev_ne s.node m none b (λ c e. other c e);
    }

-- While the free list of a class has items, an allocation takes no page, hands out the first of them,
-- marked as in use with one reference, and leaves the rest of the list and the other lists. Nothing else
-- changes but the `prev` of the item that is then the first: the other items, the rest of the class, the
-- other classes, the limits and the memory in use stay.
pub do_slabs_alloc_lem :
    (malloc : Option ℕ) (realloc new_page : Bool) (s : Slabs) (a id : ℕ) (xs : List ℕ)
    → 0 < id
    → id ≤ s.power_largest
    → FreeList s id (a ∷ xs)
    → (s' : Slabs) × (do_slabs_alloc malloc realloc new_page s id ≡ (s', some a))
      × FreeList s' id xs
      × OtherLists s id s'
      × Handed s s' a id xs
do_slabs_alloc_lem malloc realloc new_page s a id xs low high h = (
  popped s a id xs h,
  do_slabs_alloc-popped s a id xs h malloc realloc new_page low high,
  popped-FreeList s a id xs h,
  popped-Others s a id xs h,
  popped-Handed s a id xs h,
)
