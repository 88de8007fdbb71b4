-- ===== src/Store/Core.antt =====
-- memcached/items.c: what the operations on items leave as it is.
use kvsev.Prelude.{
  ℕ, zero, suc, ◌+◌, ◌%◌, ◌-◌, ◌≡◌, refl, ap, ◌∙◌, sym, Bool, true, false, not, ◌&&◌, ◌||◌, ◌==◌,
  leb, Option, none, some, List, [], ◌∷◌, set, get_or, length, if_either, length-set, if◌then◌else◌,
  Bool-cases, inl, inr,
}
use kvsev.Prelude.Bytes.{same_bytes}
use kvsev.Assoc.{Key}
use kvsev.Merkle.Config.{Bytes}
use kvsev.Store.Items.{
  Item, Store, item_at, blank, modify, with_key, refcount_incr, do_item_remove, do_item_unlink,
  do_item_update, do_item_bump, do_item_get, item_is_flushed, u64,
}

-- What the tree and a read depend on.
abbrev pub core : Item → Key × Bytes × Bytes × ℕ
core o = (o.key, o.item_data, o.mac, o.mt_index)

-- What a change of one item leaves as it is.
module _ {B : Type 0} (g : Item → B) (f : Item → Item) where
  kept-list :
      (xs : List Item) (a b : ℕ)
      → ((o : Item) → g (f o) ≡ g o)
      → g (get_or (set xs a (f (get_or xs a blank))) b blank) ≡ g (get_or xs b blank)
  kept-list [] a b h = refl
  kept-list (x ∷ xs) zero zero h = h x
  kept-list (x ∷ xs) zero (suc b) h = refl
  kept-list (x ∷ xs) (suc a) zero h = refl
  kept-list (x ∷ xs) (suc a) (suc b) h = kept-list xs a b h

  pub modify_kept :
      (s : Store) (a b : ℕ)
      → ((o : Item) → g (f o) ≡ g o)
      → g (item_at (modify s a f) b) ≡ g (item_at s b)
  unfolding modify
  modify_kept s a b h = kept-list s.heap a b h

-- The items keep their cores, and the tree and the count of the stored items stay.
pub record Same (s s' : Store) : Type 0 where
  pub cores : (b : ℕ) → core (item_at s' b) ≡ core (item_at s b)
  pub size : length s'.heap ≡ length s.heap
  pub total : s'.total_items ≡ s.total_items
  pub tree : s'.merkle ≡ s.merkle

-- The hash table loses keys at most.
pub record Shrinks (s s' : Store) : Type 0 where
  pub same : Same s s'
  pub sub : (k : Key) (b : ℕ) → s'.index k ≡ some b → s.index k ≡ some b

pub Same-trans : (s t u : Store) → Same s t → Same t u → Same s u
Same-trans s t u p q = record {
  cores = λ b. q.cores b ∙ p.cores b;
  size = q.size ∙ p.size;
  total = q.total ∙ p.total;
  tree = q.tree ∙ p.tree;
}

pub Shrinks-refl : (s : Store) → Shrinks s s
Shrinks-refl s = record {
  same = record { cores = λ b. refl; size = refl; total = refl; tree = refl };
  sub = λ k b h. h;
}

pub Shrinks-trans : (s t u : Store) → Shrinks s t → Shrinks t u → Shrinks s u
Shrinks-trans s t u p q = record {
  same = Same-trans s t u p.same q.same;
  sub = λ k b h. p.sub k b (q.sub k b h);
}

pub modify-Same :
    (s : Store) (a : ℕ) (f : Item → Item)
    → ((o : Item) → core (f o) ≡ core o)
    → Same s (modify s a f)
unfolding modify
modify-Same s a f h = record {
  cores = λ b. kept-list core f s.heap a b h;
  size = length-set s.heap a (f (item_at s a));
  total = refl;
  tree = refl;
}

pub modify-index : (s : Store) (a : ℕ) (f : Item → Item) → (modify s a f).index ≡ s.index
unfolding modify
modify-index s a f = refl

pub modify-Shrinks :
    (s : Store) (a : ℕ) (f : Item → Item)
    → ((o : Item) → core (f o) ≡ core o)
    → Shrinks s (modify s a f)
modify-Shrinks s a f h = record {
  same = modify-Same s a f h;
  sub = λ k b e. sym (ap (λ m. m k) (modify-index s a f)) ∙ e;
}

pub refcount_incr-Shrinks : (s : Store) (a : ℕ) → Shrinks s (refcount_incr s a)
unfolding refcount_incr
refcount_incr-Shrinks s a = modify-Shrinks s a _ (λ o. refl)

pub do_item_remove-Shrinks : (s : Store) (a : ℕ) → Shrinks s (do_item_remove s a)
unfolding do_item_remove
do_item_remove-Shrinks s a = modify-Shrinks s a _ (λ o. refl)

pub do_item_remove-index : (s : Store) (a : ℕ) → (do_item_remove s a).index ≡ s.index
unfolding do_item_remove
do_item_remove-index s a = modify-index s a _

with_key-none :
    (m : Key → Option ℕ) (key k : Key) (b : ℕ) → with_key m key none k ≡ some b → m k ≡ some b
with_key-none m key k b h = elim (Bool-cases (same_bytes k key)) [
  | inl e ↦ cc (rw e at h)
  | inr e ↦ rw e at h
]

pub do_item_unlink-Shrinks : (s : Store) (a : ℕ) → Shrinks s (do_item_unlink s a)
unfolding do_item_unlink
do_item_unlink-Shrinks s a =
    let gone : Store = record (modify s a (λ o. record o { linked = false })) {
      curr_items = (s.curr_items + (u64 - 1)) % u64;
      index = with_key s.index (item_at s a).key none;
    } in
    let taken = modify-Same s a (λ o. record o { linked = false }) (λ o. refl) in
    let unlinked : Shrinks s gone = record {
      same = record {
        cores = taken.cores;
        size = taken.size;
        total = taken.total;
        tree = taken.tree;
      };
      sub = λ k b e. with_key-none s.index (item_at s a).key k b e;
    } in
    if_either (Shrinks s) (item_at s a).linked
      (Shrinks-trans s gone (do_item_remove gone a) unlinked (do_item_remove-Shrinks gone a))
      (Shrinks-refl s)

pub do_item_update-Shrinks : (s : Store) (a : ℕ) → Shrinks s (do_item_update s a)
unfolding do_item_update
do_item_update-Shrinks s a =
    let bumped : Shrinks s (modify s a (λ i. record i { time = s.current_time })) =
      modify-Shrinks s a _ (λ o. refl) in
    if_either (Shrinks s) s.lru_segmented
      (if_either (Shrinks s) (item_at s a).linked
        (modify-Shrinks s a _
          (λ o. if_either (λ i. core i ≡ core o) (o.cold && o.active) refl refl))
        (Shrinks-refl s))
      (if_either (Shrinks s) _ bumped (Shrinks-refl s))

pub do_item_bump-Shrinks : (queued : Bool) (s : Store) (a : ℕ) → Shrinks s (do_item_bump queued s a)
unfolding do_item_bump
do_item_bump-Shrinks queued s a =
    let o = item_at s a in
    if_either (Shrinks s) s.lru_segmented
      (if_either (Shrinks s) o.active (Shrinks-refl s) (
        if_either (Shrinks s) (not o.fetched) (modify-Shrinks s a _ (λ i. refl)) (
          if_either (Shrinks s) (not o.cold) (modify-Shrinks s a _ (λ i. refl))
            (modify-Shrinks s a _ (λ i. refl)))))
      (Shrinks-trans s _ _ (modify-Shrinks s a (λ i. record i { fetched = true }) (λ i. refl))
        (do_item_update-Shrinks _ a))

-- A read changes nothing of that, and the address that it returns is the key's.
abbrev Read : Store → Key → Store × Option ℕ → Type 0
Read s key r = Shrinks s r.0 × ((a : ℕ) → r.1 ≡ some a → s.index key ≡ some a)

pub do_item_get_lem :
    (update : Option Bool) (s : Store) (key : Key)
    → Shrinks s (do_item_get update s key).0
      × ((a : ℕ) → (do_item_get update s key).1 ≡ some a → s.index key ≡ some a)
unfolding do_item_get
do_item_get_lem update s key = go (s.index key) refl
  where
    go :
        (m : Option ℕ)
        → s.index key ≡ m
        → Read s key (elim m [
          | none ↦ (s, none)
          | some a ↦
              let s' = refcount_incr s a in
              let o = item_at s' a in
              if item_is_flushed s o || (not (o.exptime == 0) && leb o.exptime s.current_time)
              then (do_item_remove (do_item_unlink s' a) a, none)
              else (elim update [ none ↦ s' | some queued ↦ do_item_bump queued s' a ], some a)
        ])
    go none e = (Shrinks-refl s, λ a h. cc h)
    go (some a) e =
        let s' = refcount_incr s a in
        let up : Shrinks s s' = refcount_incr-Shrinks s a in
        if_either (Read s key) _
          (
            Shrinks-trans s s' (do_item_remove (do_item_unlink s' a) a) up (
                Shrinks-trans s' (do_item_unlink s' a) (do_item_remove (do_item_unlink s' a) a)
                  (do_item_unlink-Shrinks s' a) (do_item_remove-Shrinks (do_item_unlink s' a) a)),
            λ b h. cc h,
          )
          (bumped a update up, λ b h. e ∙ h)
      where
        bumped :
            (a : ℕ) (u : Option Bool)
            → Shrinks s (refcount_incr s a)
            → Shrinks s (elim u [
              | none ↦ refcount_incr s a
              | some queued ↦ do_item_bump queued (refcount_incr s a) a
            ])
        bumped a none up = up
        bumped a (some queued) up =
            Shrinks-trans s (refcount_incr s a) (do_item_bump queued (refcount_incr s a) a) up
              (do_item_bump-Shrinks queued (refcount_incr s a) a)
