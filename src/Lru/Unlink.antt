-- ===== src/Lru/Unlink.antt =====
-- memcached/items.c: do_item_unlink_q.
use mathlib.Core.List.{append-nil}
use kvsev.Prelude.{
  ℕ, ◌+◌, ◌-◌, ◌%◌, ◌≡◌, refl, sym, ap, ◌∙◌, true, false, ◌||◌, not, Option, none, some, List, [],
  ◌∷◌, ◌++◌, ==_iff, ==_ne, if_true, if_false, if_either, if◌then◌else◌, length-append, arith,
  subst,
}
use kvsev.Prelude.Outcome.{done, ◌>>=◌}
use kvsev.Lru.{
  Node, Lru, put, is_null, points_to, set_prev, set_next, counted_bytes, u32, u64, do_item_link_q,
  do_item_unlink_q, to_front,
}
use kvsev.Lru.Chains.{
  first_or, last_or, Absent, NoDup, Chain, put_self, put_ne, last_or-append, Chain-split,
  Chain-join, Chain-before, Chain-behind,
}
use kvsev.Lru.Queue.{
  OfClass, IsQueue, OfClass-Absent, Classes, set_prev-Classes, set_next-Classes, Classes-OfClass,
  Outside, Chain-set_prev, Chain-set_next, points_to-first, points_to-last, first-OfClass,
  last-OfClass, Others, do_item_link_q_lem,
}

Apart : List ℕ → List ℕ → Type 0
Apart [] ws = Unit {0}
Apart (y ∷ ys) ws = Absent y ws × Apart ys ws

Absent-split : (x : ℕ) (ys ws : List ℕ) → Absent x (ys ++ ws) → Absent x ys × Absent x ws
Absent-split x [] ws h = (tt, h)
Absent-split x (y ∷ ys) ws (ne, h) = let (l, r) = Absent-split x ys ws h in ((ne, l), r)

Absent-join : (x : ℕ) (ys ws : List ℕ) → Absent x ys → Absent x ws → Absent x (ys ++ ws)
Absent-join x [] ws l r = r
Absent-join x (y ∷ ys) ws (ne, l) r = (ne, Absent-join x ys ws l r)

NoDup-split : (ys ws : List ℕ) → NoDup (ys ++ ws) → NoDup ys × NoDup ws × Apart ys ws
unfolding Apart
NoDup-split [] ws h = (tt, h, tt)
NoDup-split (y ∷ ys) ws (out, h) =
    let (l, r) = Absent-split y ys ws out in
    let (f, g, apart) = NoDup-split ys ws h in ((l, f), g, (r, apart))

NoDup-join : (ys ws : List ℕ) → NoDup ys → NoDup ws → Apart ys ws → NoDup (ys ++ ws)
unfolding Apart
NoDup-join [] ws f g apart = g
NoDup-join (y ∷ ys) ws (out, f) g (r, apart) =
    (Absent-join y ys ws out r, NoDup-join ys ws f g apart)

Apart-head : (ys : List ℕ) (z : ℕ) (zs : List ℕ) → Apart ys (z ∷ zs) → Absent z ys × Apart ys zs
unfolding Apart
Apart-head [] z zs apart = (tt, tt)
Apart-head (y ∷ ys) z zs ((ne, out), apart) =
    let (l, r) = Apart-head ys z zs apart in ((λ e. ne (sym e), l), (out, r))

Apart-last : (ys zs : List ℕ) → Apart ys zs → Outside (last_or none ys) zs
unfolding Apart
Apart-last [] zs apart b h = cc h
Apart-last (y ∷ []) zs (out, apart) b h = let y_b : y ≡ b = cc h in subst (λ x. Absent x zs) y_b out
Apart-last (y ∷ y' ∷ ys) zs (out, apart) b h = Apart-last (y' ∷ ys) zs apart b h

Apart-first : (ys zs : List ℕ) → Apart ys zs → Outside (first_or zs none) ys
Apart-first ys [] apart b h = cc h
Apart-first ys (z ∷ zs) apart b h =
    let z_b : z ≡ b = cc h in subst (λ x. Absent x ys) z_b (Apart-head ys z zs apart).0

OfClass-split :
    (node : ℕ → Node) (c : ℕ) (ys ws : List ℕ)
    → OfClass node c (ys ++ ws)
    → OfClass node c ys × OfClass node c ws
OfClass-split node c [] ws h = (tt, h)
OfClass-split node c (y ∷ ys) ws (here, h) =
    let (l, r) = OfClass-split node c ys ws h in ((here, l), r)

OfClass-join :
    (node : ℕ → Node) (c : ℕ) (ys ws : List ℕ)
    → OfClass node c ys
    → OfClass node c ws
    → OfClass node c (ys ++ ws)
OfClass-join node c [] ws l r = r
OfClass-join node c (y ∷ ys) ws (here, l) r = (here, OfClass-join node c ys ws l r)

end-OfClass :
    (node : ℕ → Node) (c : ℕ) (ys : List ℕ) (b : ℕ)
    → OfClass node c ys
    → last_or none ys ≡ some b
    → (node b).slabs_clsid ≡ c
end-OfClass node c [] b own h = cc h
end-OfClass node c (y ∷ ys) b own h = last-OfClass node c y ys b own h

-- The new head and the new tail.
head_after :
    (f : ℕ → Option ℕ) (c a : ℕ) (ys zs : List ℕ)
    → f c ≡ first_or (ys ++ a ∷ zs) none
    → Absent a ys
    → ((if points_to (f c) a then put f c (first_or zs none) else f) c ≡ first_or (ys ++ zs) none)
      × ((not (points_to (f c) a) || is_null (last_or none ys)) ≡ true)
head_after f c a [] zs h out =
    let it : points_to (f c) a ≡ true = ap (λ m. points_to m a) h ∙ (==_iff a a).1 refl in
    (
      ap (λ (g : ℕ → Option ℕ). g c) (if_true (points_to (f c) a) (put f c (first_or zs none)) f it)
          ∙ put_self f c (first_or zs none),
      rw it refl,
    )
head_after f c a (y ∷ ys) zs h (ne, out) =
    let it : points_to (f c) a ≡ false = ap (λ m. points_to m a) h ∙ ==_ne y a (λ e. ne (sym e)) in
    (
      ap (λ (g : ℕ → Option ℕ). g c)
            (if_false (points_to (f c) a) (put f c (first_or zs none)) f it)
          ∙ h,
      rw it refl,
    )

tail_after :
    (f : ℕ → Option ℕ) (c a : ℕ) (ys zs : List ℕ)
    → f c ≡ last_or none (ys ++ a ∷ zs)
    → Absent a zs
    → ((if points_to (f c) a then put f c (last_or none ys) else f) c ≡ last_or none (ys ++ zs))
      × ((not (points_to (f c) a) || is_null (first_or zs none)) ≡ true)
tail_after f c a ys [] h out =
    let it : points_to (f c) a ≡ true =
      ap (λ m. points_to m a) (h ∙ last_or-append none ys (a ∷ [])) ∙ (==_iff a a).1 refl in
    (
      ap (λ (g : ℕ → Option ℕ). g c) (if_true (points_to (f c) a) (put f c (last_or none ys)) f it)
          ∙ put_self f c (last_or none ys)
          ∙ ap (last_or none) (sym (append-nil ys)),
      rw it refl,
    )
tail_after f c a ys (z ∷ zs) h out =
    let at : f c ≡ last_or (some z) zs = h ∙ last_or-append none ys (a ∷ z ∷ zs) in
    let it : points_to (f c) a ≡ false =
      ap (λ m. points_to m a) at ∙ points_to-last a (z ∷ zs) out in
    (
      ap (λ (g : ℕ → Option ℕ). g c) (if_false (points_to (f c) a) (put f c (last_or none ys)) f it)
          ∙ at
          ∙ sym (last_or-append none ys (z ∷ zs)),
      rw it refl,
    )

module _ (q : Lru) (a c : ℕ) (ys zs : List ℕ) (h : IsQueue q c (ys ++ a ∷ zs)) where
  before : Option ℕ
  before = last_or none ys

  behind : Option ℕ
  behind = first_or zs none

  unlinked_node : ℕ → Node
  unlinked_node = set_next (set_prev q.node behind before) before behind

  unlinked : Lru
  unlinked = record {
    node = unlinked_node;
    heads = if points_to (q.heads c) a then put q.heads c behind else q.heads;
    tails = if points_to (q.tails c) a then put q.tails c before else q.tails;
    sizes = put q.sizes c ((q.sizes c + (u32 - 1)) % u32);
    sizes_bytes =
        put q.sizes_bytes c ((q.sizes_bytes c + (u64 - counted_bytes (q.node a) % u64)) % u64);
  }

  -- What is known of the item and of the two parts.
  record Parts : Type 0 where
    is : (q.node a).slabs_clsid ≡ c
    back : (q.node a).prev ≡ last_or none ys
    on : (q.node a).next ≡ first_or zs none
    left : Chain q.node none ys (some a)
    right : Chain q.node (some a) zs none
    left_fresh : NoDup ys
    right_fresh : NoDup zs
    out_left : Absent a ys
    out_right : Absent a zs
    apart : Apart ys zs
    left_own : OfClass q.node c ys
    right_own : OfClass q.node c zs

  parts : Parts
  parts =
      let (left, (back, on, right)) = Chain-split q.node none ys (a ∷ zs) none h.chain in
      let (left_fresh, (out_right, right_fresh), apart) = NoDup-split ys (a ∷ zs) h.fresh in
      let (out_left, apart') = Apart-head ys a zs apart in
      let (left_own, (is, right_own)) = OfClass-split q.node c ys (a ∷ zs) h.own in
      record {
        is = is;
        back = back;
        on = on;
        left = left;
        right = right;
        left_fresh = left_fresh;
        right_fresh = right_fresh;
        out_left = out_left;
        out_right = out_right;
        apart = apart';
        left_own = left_own;
        right_own = right_own;
      }

  unlinked_run : do_item_unlink_q q a ≡ done unlinked
  unfolding do_item_unlink_q unlinked unlinked_node before behind
  unlinked_run =
      let p = parts in
      rw
        (
          p.is,
          p.back,
          p.on,
          (head_after q.heads c a ys zs h.head p.out_left).1,
          (tail_after q.tails c a ys zs h.tail p.out_right).1,
          points_to-first a zs p.out_right,
          points_to-last a ys p.out_left,
        )
        refl

  unlinked-Classes : Classes q.node unlinked_node
  unfolding unlinked_node
  unlinked-Classes x =
      set_next-Classes (set_prev q.node behind before) before behind x
      ∙ set_prev-Classes q.node behind before x

  unlinked-IsQueue : IsQueue unlinked c (ys ++ zs)
  unfolding unlinked unlinked_node before behind
  unlinked-IsQueue =
      let p = parts in
      let node1 = set_prev q.node behind before in
      let left1 =
        Chain-set_prev q.node behind before none ys (some a) (Apart-first ys zs p.apart) p.left in
      let right1 = Chain-before q.node (some a) before zs none p.right_fresh p.right in
      let left2 = Chain-behind node1 none ys (some a) behind p.left_fresh left1 in
      let right2 =
        Chain-set_next node1 before behind before zs none (Apart-last ys zs p.apart) right1 in
      let sizes = length-append ys (a ∷ zs) in
      let sizes' = length-append ys zs in
      record {
        chain = Chain-join unlinked_node none ys zs none left2 right2;
        fresh = NoDup-join ys zs p.left_fresh p.right_fresh p.apart;
        own =
            Classes-OfClass q.node unlinked_node c (ys ++ zs) unlinked-Classes
              (OfClass-join q.node c ys zs p.left_own p.right_own);
        head = (head_after q.heads c a ys zs h.head p.out_left).0;
        tail = (tail_after q.tails c a ys zs h.tail p.out_right).0;
        size =
            put_self q.sizes c _
            ∙ ap (λ n. (n + (u32 - 1)) % u32) h.size
            ∙ omega (arith, sizes, sizes');
      }

  unlinked-Others : Others q c unlinked
  unfolding unlinked unlinked_node before behind
  unlinked-Others d ws ne k =
      let p = parts in
      let node1 = set_prev q.node behind before in
      record {
        chain =
            Chain-set_next node1 before behind none ws none
              (λ b e.
                OfClass-Absent q.node c d ws b k.own (end-OfClass q.node c ys b p.left_own e) ne)
              (Chain-set_prev q.node behind before none ws none
                (λ b e.
                  OfClass-Absent q.node c d ws b k.own (first-OfClass q.node c zs b p.right_own e)
                    ne)
                k.chain);
        fresh = k.fresh;
        own = Classes-OfClass q.node unlinked_node d ws unlinked-Classes k.own;
        head =
            if_either (λ (f : ℕ → Option ℕ). f d ≡ first_or ws none) (points_to (q.heads c) a)
              (put_ne q.heads c behind d (λ e. ne (sym e)) ∙ k.head) k.head;
        tail =
            if_either (λ (f : ℕ → Option ℕ). f d ≡ last_or none ws) (points_to (q.tails c) a)
              (put_ne q.tails c before d (λ e. ne (sym e)) ∙ k.tail) k.tail;
        size = put_ne q.sizes c _ d (λ e. ne (sym e)) ∙ k.size;
      }

-- An item that is unlinked is taken out of its queue, wherever it stands in it, the others keep their
-- order, no assertion fails, and the other queues stay.
pub do_item_unlink_q_lem :
    (q : Lru) (a c : ℕ) (ys zs : List ℕ)
    → IsQueue q c (ys ++ a ∷ zs)
    → (q' : Lru) × (do_item_unlink_q q a ≡ done q') × IsQueue q' c (ys ++ zs) × Others q c q'
do_item_unlink_q_lem q a c ys zs h = (
  unlinked q a c ys zs h,
  unlinked_run q a c ys zs h,
  unlinked-IsQueue q a c ys zs h,
  unlinked-Others q a c ys zs h,
)

-- The move to the front: the item becomes the head, the others keep their order, no assertion fails, and
-- the other queues stay. The item is not free.
pub to_front_lem :
    (q : Lru) (a c : ℕ) (ys zs : List ℕ)
    → (q.node a).slabbed ≡ false
    → IsQueue q c (ys ++ a ∷ zs)
    → (q' : Lru) × (to_front q a ≡ done q') × IsQueue q' c (a ∷ (ys ++ zs)) × Others q c q'
unfolding to_front unlinked
to_front_lem q a c ys zs plain h =
    let q1 = unlinked q a c ys zs h in
    let same = unlinked-Classes q a c ys zs h a in
    let p = parts q a c ys zs h in
    let (q', run, k, others) =
      do_item_link_q_lem q1 a c (ys ++ zs) (ap (λ l. l.0) same ∙ p.is) (ap (λ l. l.1) same ∙ plain)
        (unlinked-IsQueue q a c ys zs h) (Absent-join a ys zs p.out_left p.out_right) in
    (
      q',
      ap (λ r. r >>= λ t. do_item_link_q t a) (unlinked_run q a c ys zs h) ∙ run,
      k,
      λ d ws ne w. others d ws ne (unlinked-Others q a c ys zs h d ws ne w),
    )
