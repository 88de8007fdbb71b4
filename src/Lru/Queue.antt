-- ===== src/Lru/Queue.antt =====
-- memcached/items.c: the LRU queues against lists of items, the newest first.
use kvsev.Prelude.{
  ℕ, ◌+◌, ◌%◌, ◌≡◌, ◌≢◌, refl, sym, ap, ◌∙◌, Bool, true, false, ◌&&◌, ◌||◌, not, Option, none, some,
  List, [], ◌∷◌, ◌==◌, ==_iff, ==_ne, if_true, if_false, if_either, if◌then◌else◌, length, arith,
  subst, Bool-cases, inl, inr,
}
use kvsev.Prelude.Outcome.{done}
use kvsev.Lru.{
  Node, Lru, put, is_null, points_to, set_prev, set_next, counted_bytes, u32, u64, do_item_link_q,
}
use kvsev.Lru.Chains.{
  first_or, last_or, Absent, NoDup, Chain, put_self, put_ne, Chain-put, Chain-before, Absent-last,
  set_prev_ne,
}

-- All the items are of class `c`.
abbrev pub OfClass : (ℕ → Node) → ℕ → List ℕ → Type 0
OfClass node c [] = Unit {0}
OfClass node c (x ∷ xs) = ((node x).slabs_clsid ≡ c) × OfClass node c xs

-- Queue `c` has the items `xs`, from the head to the tail.
pub record IsQueue (q : Lru) (c : ℕ) (xs : List ℕ) : Type 0 where
  pub chain : Chain q.node none xs none
  pub fresh : NoDup xs
  pub own : OfClass q.node c xs
  pub head : q.heads c ≡ first_or xs none
  pub tail : q.tails c ≡ last_or none xs
  pub size : q.sizes c ≡ length xs % u32

-- An item of another class is not in the queue.
pub OfClass-Absent :
    (node : ℕ → Node) (c d : ℕ) (xs : List ℕ) (a : ℕ)
    → OfClass node d xs
    → (node a).slabs_clsid ≡ c
    → d ≢ c
    → Absent a xs
OfClass-Absent node c d [] a own is ne = tt
OfClass-Absent node c d (x ∷ xs) a (here, own) is ne = (
  λ e. ne (sym here ∙ ap (λ b. (node b).slabs_clsid) (sym e) ∙ is),
  OfClass-Absent node c d xs a own is ne,
)

-- The classes and the flag stay, whatever is linked.
abbrev label : Node → ℕ × Bool
label o = (o.slabs_clsid, o.slabbed)

abbrev pub Classes : (ℕ → Node) → (ℕ → Node) → Type 0
Classes node node' = (x : ℕ) → label (node' x) ≡ label (node x)

put-Classes :
    (node : ℕ → Node) (a : ℕ) (v : Node) → label v ≡ label (node a) → Classes node (put node a v)
put-Classes node a v h x = elim (Bool-cases (x == a)) [
  | inl e ↦
      ap label (if_true (x == a) v (node x) e)
      ∙ h
      ∙ ap (λ b. label (node b)) (sym ((==_iff x a).0 e))
  | inr e ↦ ap label (if_false (x == a) v (node x) e)
]

pub set_prev-Classes : (node : ℕ → Node) (m v : Option ℕ) → Classes node (set_prev node m v)
unfolding set_prev
set_prev-Classes node none v x = refl
set_prev-Classes node (some b) v x = put-Classes node b (record (node b) { prev = v }) refl x

pub set_next-Classes : (node : ℕ → Node) (m v : Option ℕ) → Classes node (set_next node m v)
unfolding set_next
set_next-Classes node none v x = refl
set_next-Classes node (some b) v x = put-Classes node b (record (node b) { next = v }) refl x

pub Classes-OfClass :
    (node node' : ℕ → Node) (c : ℕ) (xs : List ℕ)
    → Classes node node'
    → OfClass node c xs
    → OfClass node' c xs
Classes-OfClass node node' c [] same own = tt
Classes-OfClass node node' c (x ∷ xs) same (here, own) =
    (ap (λ l. l.0) (same x) ∙ here, Classes-OfClass node node' c xs same own)

-- Writes to items outside.
abbrev pub Outside : Option ℕ → List ℕ → Type 0
Outside m xs = (b : ℕ) → m ≡ some b → Absent b xs

pub Chain-set_prev :
    (node : ℕ → Node) (m v p : Option ℕ) (xs : List ℕ) (e : Option ℕ)
    → Outside m xs
    → Chain node p xs e
    → Chain (set_prev node m v) p xs e
unfolding set_prev
Chain-set_prev node none v p xs e out h = h
Chain-set_prev node (some b) v p xs e out h =
    Chain-put node b (record (node b) { prev = v }) p xs e (out b refl) h

pub Chain-set_next :
    (node : ℕ → Node) (m v p : Option ℕ) (xs : List ℕ) (e : Option ℕ)
    → Outside m xs
    → Chain node p xs e
    → Chain (set_next node m v) p xs e
unfolding set_next
Chain-set_next node none v p xs e out h = h
Chain-set_next node (some b) v p xs e out h =
    Chain-put node b (record (node b) { next = v }) p xs e (out b refl) h

pub points_to-first : (a : ℕ) (xs : List ℕ) → Absent a xs → points_to (first_or xs none) a ≡ false
points_to-first a [] out = refl
points_to-first a (x ∷ xs) (ne, out) = ==_ne x a (λ e. ne (sym e))

pub points_to-last : (a : ℕ) (xs : List ℕ) → Absent a xs → points_to (last_or none xs) a ≡ false
points_to-last a [] out = refl
points_to-last a (x ∷ xs) out = go (last_or (some x) xs) (Absent-last a x xs out)
  where
    go : (m : Option ℕ) → ((b : ℕ) → m ≡ some b → a ≢ b) → points_to m a ≡ false
    go none h = refl
    go (some b) h = ==_ne b a (λ e. h b refl (sym e))

last-null : (x : ℕ) (xs : List ℕ) → is_null (last_or (some x) xs) ≡ false
last-null x [] = refl
last-null x (y ∷ xs) = last-null y xs

-- A head and a tail, or neither.
both_or_neither :
    (xs : List ℕ)
    → ((not (is_null (first_or xs none)) && not (is_null (last_or none xs)))
        || (is_null (first_or xs none) && is_null (last_or none xs)))
      ≡ true
both_or_neither [] = refl
both_or_neither (x ∷ xs) = rw (last-null x xs) refl

pub Absent-first : (a : ℕ) (xs : List ℕ) → Absent a xs → (b : ℕ) → first_or xs none ≡ some b → a ≢ b
Absent-first a [] out b h = cc h
Absent-first a (x ∷ xs) (ne, out) b h = λ e. ne (cc (h, e))

-- The ends of a queue are of its class.
pub first-OfClass :
    (node : ℕ → Node) (c : ℕ) (xs : List ℕ) (b : ℕ)
    → OfClass node c xs
    → first_or xs none ≡ some b
    → (node b).slabs_clsid ≡ c
first-OfClass node c [] b own h = cc h
first-OfClass node c (x ∷ xs) b (here, own) h =
    let x_b : x ≡ b = cc h in ap (λ y. (node y).slabs_clsid) (sym x_b) ∙ here

pub last-OfClass :
    (node : ℕ → Node) (c x : ℕ) (xs : List ℕ) (b : ℕ)
    → OfClass node c (x ∷ xs)
    → last_or (some x) xs ≡ some b
    → (node b).slabs_clsid ≡ c
last-OfClass node c x [] b (here, own) h =
    let x_b : x ≡ b = cc h in ap (λ y. (node y).slabs_clsid) (sym x_b) ∙ here
last-OfClass node c x (y ∷ xs) b (here, own) h = last-OfClass node c y xs b own h

last_or_linked :
    (f : ℕ → Option ℕ) (c a : ℕ) (xs : List ℕ)
    → f c ≡ last_or none xs
    → (if is_null (f c) then put f c (some a) else f) c ≡ last_or (some a) xs
last_or_linked f c a [] h = rw h (put_self f c (some a))
last_or_linked f c a (x ∷ xs) h = rw (h, last-null x xs) h

-- The promise for the other queues.
abbrev pub Others : Lru → ℕ → Lru → Type 0
Others q c q' = (d : ℕ) (ys : List ℕ) → d ≢ c → IsQueue q d ys → IsQueue q' d ys

module _ (q : Lru) (a c : ℕ) (xs : List ℕ) (is : (q.node a).slabs_clsid ≡ c)
    (h : IsQueue q c xs) where
  linked_node : ℕ → Node
  linked_node =
      set_prev (put q.node a (record (q.node a) { prev = none; next = q.heads c })) (q.heads c)
        (some a)

  linked : Lru
  linked = record {
    node = linked_node;
    heads = put q.heads c (some a);
    tails = if is_null (q.tails c) then put q.tails c (some a) else q.tails;
    sizes = put q.sizes c ((q.sizes c + 1) % u32);
    sizes_bytes = put q.sizes_bytes c ((q.sizes_bytes c + counted_bytes (q.node a)) % u64);
  }

  linked_run : Absent a xs → (q.node a).slabbed ≡ false → do_item_link_q q a ≡ done linked
  unfolding do_item_link_q linked linked_node
  linked_run out plain =
      let not_head : points_to (q.heads c) a ≡ false =
        ap (λ m. points_to m a) h.head ∙ points_to-first a xs out in
      let both : ((not (is_null (q.heads c)) && not (is_null (q.tails c)))
            || (is_null (q.heads c) && is_null (q.tails c)))
          ≡ true =
        ap
          (λ m.
            (not (is_null m) && not (is_null (q.tails c))) || (is_null m && is_null (q.tails c)))
          h.head
        ∙ ap
            (λ m.
              (not (is_null (first_or xs none)) && not (is_null m))
              || (is_null (first_or xs none) && is_null m))
            h.tail
        ∙ both_or_neither xs in
      rw (is, plain, not_head, both) refl

  linked-Classes : Classes q.node linked_node
  unfolding linked_node
  linked-Classes x =
      let v : Node = record (q.node a) { prev = none; next = q.heads c } in
      set_prev-Classes (put q.node a v) (q.heads c) (some a) x ∙ put-Classes q.node a v refl x

  linked-IsQueue : Absent a xs → IsQueue linked c (a ∷ xs)
  unfolding linked linked_node
  linked-IsQueue out =
      let v : Node = record (q.node a) { prev = none; next = q.heads c } in
      let here : linked_node a ≡ v =
        set_prev_ne (put q.node a v) (q.heads c) (some a) a
          (λ b e. Absent-first a xs out b (sym h.head ∙ e))
        ∙ put_self q.node a v in
      record {
        chain = (
          ap (λ o. o.prev) here,
          ap (λ o. o.next) here ∙ h.head,
          subst (λ m. Chain (set_prev (put q.node a v) m (some a)) (some a) xs none) (sym h.head)
              (Chain-before (put q.node a v) none (some a) xs none h.fresh
                (Chain-put q.node a v none xs none out h.chain)),
        );
        fresh = (out, h.fresh);
        own = (
          ap (λ l. l.0) (linked-Classes a) ∙ is,
          Classes-OfClass q.node linked_node c xs linked-Classes h.own,
        );
        head = put_self q.heads c (some a);
        tail = last_or_linked q.tails c a xs h.tail;
        size =
            put_self q.sizes c ((q.sizes c + 1) % u32)
            ∙ ap (λ n. (n + 1) % u32) h.size
            ∙ omega arith;
      }

  linked-Others : Absent a xs → Others q c linked
  unfolding linked linked_node
  linked-Others out d ys ne k = record {
    chain =
        Chain-set_prev (put q.node a (record (q.node a) { prev = none; next = q.heads c }))
          (q.heads c) (some a) none ys none
          (λ b e.
            OfClass-Absent q.node c d ys b k.own
              (first-OfClass q.node c xs b h.own (sym h.head ∙ e)) ne)
          (Chain-put q.node a _ none ys none (OfClass-Absent q.node c d ys a k.own is ne) k.chain);
    fresh = k.fresh;
    own = Classes-OfClass q.node linked_node d ys linked-Classes k.own;
    head = put_ne q.heads c (some a) d (λ e. ne (sym e)) ∙ k.head;
    tail =
        if_either (λ (f : ℕ → Option ℕ). f d ≡ last_or none ys) (is_null (q.tails c))
          (put_ne q.tails c (some a) d (λ e. ne (sym e)) ∙ k.tail) k.tail;
    size = put_ne q.sizes c _ d (λ e. ne (sym e)) ∙ k.size;
  }

-- An item that is linked becomes the head of the queue of its class, no assertion fails, and the other
-- queues stay. The item is not in the queue, and is not free.
pub do_item_link_q_lem :
    (q : Lru) (a c : ℕ) (xs : List ℕ)
    → (q.node a).slabs_clsid ≡ c
    → (q.node a).slabbed ≡ false
    → IsQueue q c xs
    → Absent a xs
    → (q' : Lru) × (do_item_link_q q a ≡ done q') × IsQueue q' c (a ∷ xs) × Others q c q'
do_item_link_q_lem q a c xs is plain h out = (
  linked q a c xs is h,
  linked_run q a c xs is h out plain,
  linked-IsQueue q a c xs is h out,
  linked-Others q a c xs is h out,
)
