-- ===== src/Slabs/FreeList.antt =====
-- memcached/slabs.c: the free lists of the classes, and the free of an item.
use kvsev.Prelude.{
  ℕ, ◌+◌, ◌≤◌, ◌<◌, ◌≡◌, ◌≢◌, refl, sym, ap, ◌∙◌, Bool, true, false, Option, none, some, List, [],
  ◌∷◌, ◌==◌, ==_iff, if_true, if_false, length, arith, subst, ge→ltb, Bool-cases, inl, inr,
}
use kvsev.Lru.{Node, put, set_prev}
use kvsev.Lru.Chains.{
  first_or, Absent, NoDup, Chain, put_self, put_ne, Chain-put, Chain-before, set_prev_ne,
}
use kvsev.Lru.Queue.{Absent-first, Chain-set_prev}
use kvsev.Slabs.{Slabs, free_node, do_slabs_free}

-- The items are free, in class `id`.
abbrev pub Free : (ℕ → Node) → ℕ → List ℕ → Type 0
Free node id [] = Unit {0}
Free node id (x ∷ xs) = ((node x).slabbed ≡ true) × ((node x).slabs_clsid ≡ id) × Free node id xs

-- The free list of class `id` has the items `xs`, the last freed first.
pub record FreeList (s : Slabs) (id : ℕ) (xs : List ℕ) : Type 0 where
  pub chain : Chain s.node none xs none
  pub fresh : NoDup xs
  pub free : Free s.node id xs
  pub head : (s.slabclass id).slots ≡ first_or xs none
  pub count : (s.slabclass id).sl_curr ≡ length xs

-- An item in use is in no free list, and a free one of another class is not in this list.
used-Absent :
    (node : ℕ → Node) (id : ℕ) (xs : List ℕ) (a : ℕ)
    → Free node id xs
    → (node a).slabbed ≡ false
    → Absent a xs
used-Absent node id [] a f used = tt
used-Absent node id (x ∷ xs) a (here, class, f) used = (
  λ e. cc (sym here ∙ ap (λ b. (node b).slabbed) (sym e) ∙ used),
  used-Absent node id xs a f used,
)

pub other-Absent :
    (node : ℕ → Node) (id c : ℕ) (xs : List ℕ) (a : ℕ)
    → Free node id xs
    → (node a).slabs_clsid ≡ c
    → id ≢ c
    → Absent a xs
other-Absent node id c [] a f is ne = tt
other-Absent node id c (x ∷ xs) a (here, class, f) is ne = (
  λ e. ne (sym class ∙ ap (λ b. (node b).slabs_clsid) (sym e) ∙ is),
  other-Absent node id c xs a f is ne,
)

-- A write outside of the list, and one that leaves the flag and the class.
pub Free-put :
    (node : ℕ → Node) (a : ℕ) (v : Node) (id : ℕ) (xs : List ℕ)
    → Absent a xs
    → Free node id xs
    → Free (put node a v) id xs
Free-put node a v id [] out f = tt
Free-put node a v id (x ∷ xs) (ne, out) (here, class, f) =
    let same = put_ne node a v x ne in
    (
      ap (λ o. o.slabbed) same ∙ here,
      ap (λ o. o.slabs_clsid) same ∙ class,
      Free-put node a v id xs out f,
    )

abbrev flags : Node → Bool × ℕ
flags o = (o.slabbed, o.slabs_clsid)

set_prev-flags :
    (node : ℕ → Node) (m v : Option ℕ) (x : ℕ) → flags (set_prev node m v x) ≡ flags (node x)
unfolding set_prev
set_prev-flags node none v x = refl
set_prev-flags node (some b) v x = elim (Bool-cases (x == b)) [
  | inl e ↦
      ap flags (if_true (x == b) (record (node b) { prev = v }) (node x) e)
      ∙ ap (λ y. flags (node y)) (sym ((==_iff x b).0 e))
  | inr e ↦ ap flags (if_false (x == b) (record (node b) { prev = v }) (node x) e)
]

pub Free-set_prev :
    (node : ℕ → Node) (m v : Option ℕ) (id : ℕ) (xs : List ℕ)
    → Free node id xs
    → Free (set_prev node m v) id xs
Free-set_prev node m v id [] f = tt
Free-set_prev node m v id (x ∷ xs) (here, class, f) =
    let same = set_prev-flags node m v x in
    (ap (λ l. l.0) same ∙ here, ap (λ l. l.1) same ∙ class, Free-set_prev node m v id xs f)

-- The first item of a list is free in its class.
pub first-Free :
    (node : ℕ → Node) (id : ℕ) (xs : List ℕ) (b : ℕ)
    → Free node id xs
    → first_or xs none ≡ some b
    → (node b).slabs_clsid ≡ id
first-Free node id [] b f h = cc h
first-Free node id (x ∷ xs) b (here, class, f) h =
    let x_b : x ≡ b = cc h in ap (λ y. (node y).slabs_clsid) (sym x_b) ∙ class

-- The promise for the lists of the other classes.
abbrev pub OtherLists : Slabs → ℕ → Slabs → Type 0
OtherLists s id s' = (d : ℕ) (ys : List ℕ) → d ≢ id → FreeList s d ys → FreeList s' d ys

-- The store after the free of `a`.
module _ (s : Slabs) (a id : ℕ) (xs : List ℕ) (used : (s.node a).slabbed ≡ false)
    (h : FreeList s id xs) where
  abbrev after : Slabs
  after =
      let p = s.slabclass id in
      record s {
        node = set_prev (put s.node a (free_node id p.slots (s.node a))) p.slots (some a);
        slabclass = put s.slabclass id (record p { slots = some a; sl_curr = p.sl_curr + 1 });
      }

  after-run : 0 < id → id ≤ s.power_largest → do_slabs_free s a id ≡ after
  unfolding do_slabs_free
  after-run low high = rw (ge→ltb id 1 (omega arith), ge→ltb s.power_largest id high) refl

  after-FreeList : FreeList after id (a ∷ xs)
  after-FreeList =
      let p = s.slabclass id in
      let v = free_node id p.slots (s.node a) in
      let out = used-Absent s.node id xs a h.free used in
      let here : set_prev (put s.node a v) p.slots (some a) a ≡ v =
        set_prev_ne (put s.node a v) p.slots (some a) a
          (λ b e. Absent-first a xs out b (sym h.head ∙ e))
        ∙ put_self s.node a v in
      record {
        chain = (
          ap (λ o. o.prev) here,
          ap (λ o. o.next) here ∙ h.head,
          subst (λ m. Chain (set_prev (put s.node a v) m (some a)) (some a) xs none) (sym h.head)
              (Chain-before (put s.node a v) none (some a) xs none h.fresh
                (Chain-put s.node a v none xs none out h.chain)),
        );
        fresh = (out, h.fresh);
        free = (
          ap (λ o. o.slabbed) here,
          ap (λ o. o.slabs_clsid) here,
          Free-set_prev (put s.node a v) p.slots (some a) id xs
              (Free-put s.node a v id xs out h.free),
        );
        head = ap (λ c. c.slots) (put_self s.slabclass id _);
        count =
            ap (λ c. c.sl_curr) (put_self s.slabclass id _) ∙ ap (λ n. n + 1) h.count ∙ omega arith;
      }

  after-Others : OtherLists s id after
  after-Others d ys ne k =
      let p = s.slabclass id in
      let v = free_node id p.slots (s.node a) in
      let out = used-Absent s.node d ys a k.free used in
      let same =
        put_ne s.slabclass id (record p { slots = some a; sl_curr = p.sl_curr + 1 }) d
          (λ e. ne (sym e)) in
      record {
        chain =
            Chain-set_prev (put s.node a v) p.slots (some a) none ys none
              (λ b e.
                other-Absent s.node d id ys b k.free
                  (first-Free s.node id xs b h.free (sym h.head ∙ e)) ne)
              (Chain-put s.node a v none ys none out k.chain);
        fresh = k.fresh;
        free =
            Free-set_prev (put s.node a v) p.slots (some a) d ys
              (Free-put s.node a v d ys out k.free);
        head = ap (λ c. c.slots) same ∙ k.head;
        count = ap (λ c. c.sl_curr) same ∙ k.count;
      }

-- A free puts the item in front of the free list of its class, and the other lists stay. The item is in
-- use.
pub do_slabs_free_lem :
    (s : Slabs) (a id : ℕ) (xs : List ℕ)
    → 0 < id
    → id ≤ s.power_largest
    → (s.node a).slabbed ≡ false
    → FreeList s id xs
    → FreeList (do_slabs_free s a id) id (a ∷ xs) × OtherLists s id (do_slabs_free s a id)
do_slabs_free_lem s a id xs low high used h =
    let run = after-run s a id xs used h low high in
    (
      subst (λ t. FreeList t id (a ∷ xs)) (sym run) (after-FreeList s a id xs used h),
      subst (OtherLists s id) (sym run) (after-Others s a id xs used h),
    )
