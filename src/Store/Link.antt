-- ===== src/Store/Link.antt =====
-- memcached/items.c and memcached/memcached.c: the link of an item, and the outcomes of do_store_item.
use kvsev.Prelude.{
  ℕ, ◌+◌, ◌%◌, ◌≡◌, refl, ap, ◌∙◌, sym, Bool, true, false, Option, none, some, length, if_either,
  if_true, if_false, if◌then◌else◌, Bool-cases, inl, inr, ◌⊎◌, ◌≢◌,
}
use kvsev.Prelude.Bytes.{same_bytes, same_bytes_refl, same_bytes→eq}
use kvsev.Assoc.{Key}
use kvsev.Merkle.Config.{Bytes}
use kvsev.Store.Items.{
  Item, Store, item_at, modify, with_key, item_get_cas, item_set_cas, refcount_incr, do_item_remove,
  do_item_link, do_item_unlink, do_item_replace, do_item_update, do_item_get, u64,
}
use kvsev.Store.Command.{
  Command, nread_add, nread_set, nread_replace, nread_append, nread_prepend, nread_cas,
  StoreItemType, stored, exists, CasResult, cas_none, cas_match, cas_badval, cas_stale, cas_miss,
  cas_result, store_old, keep_stale, store_over, store_new, do_store_item,
}
use kvsev.Store.Core.{
  core, Shrinks, Shrinks-refl, Shrinks-trans, modify-Same, modify-Shrinks, refcount_incr-Shrinks,
  do_item_remove-Shrinks, do_item_remove-index, do_item_unlink-Shrinks, do_item_update-Shrinks,
  do_item_get_lem,
}

-- The item at `a` has entered the hash table and is counted; nothing else has entered.
pub record Stores (s : Store) (a : ℕ) (s' : Store) : Type 0 where
  pub cores : (b : ℕ) → core (item_at s' b) ≡ core (item_at s b)
  pub size : length s'.heap ≡ length s.heap
  pub tree : s'.merkle ≡ s.merkle
  pub total : s'.total_items ≡ (s.total_items + 1) % u64
  pub there : s'.index (item_at s a).key ≡ some a
  pub sub :
      (k : Key) (b : ℕ)
      → s'.index k ≡ some b
      → ((b ≡ a) × (k ≡ (item_at s a).key)) ⊎ (s.index k ≡ some b)

pub do_item_link_lem : (s : Store) (a : ℕ) → Stores s a (do_item_link s a)
unfolding do_item_link refcount_incr modify
do_item_link_lem s a =
    let next = (s.cas_id + 1) % u64 in
    let cas = if s.use_cas then next else 0 in
    let f : Item → Item =
      λ o. item_set_cas cas (record o { linked = true; time = s.current_time }) in
    let linked = modify-Same s a f (λ o. if_either (λ i. core i ≡ core o) o.has_cas refl refl) in
    let s' : Store = record (modify s a f) {
      curr_items = (s.curr_items + 1) % u64;
      total_items = (s.total_items + 1) % u64;
      cas_id = if s.use_cas then next else s.cas_id;
      index = with_key s.index (item_at s a).key (some a);
    } in
    let up = (refcount_incr-Shrinks s' a).same in
    record {
      cores = λ b. up.cores b ∙ linked.cores b;
      size = up.size ∙ linked.size;
      tree = refl;
      total = refl;
      there =
          if_true (same_bytes (item_at s a).key (item_at s a).key) (some a)
            (s.index (item_at s a).key) (same_bytes_refl (item_at s a).key);
      sub = λ k b h. elim (Bool-cases (same_bytes k (item_at s a).key)) [
        | inl e ↦
            let w = sym (if_true (same_bytes k (item_at s a).key) (some a) (s.index k) e) ∙ h in
            inl (cc w, same_bytes→eq k (item_at s a).key e)
        | inr e ↦ inr (sym (if_false (same_bytes k (item_at s a).key) (some a) (s.index k) e) ∙ h)
      ];
    }

pub Shrinks-Stores : (s t u : Store) (a : ℕ) → Shrinks s t → Stores t a u → Stores s a u
Shrinks-Stores s t u a p q = record {
  cores = λ b. q.cores b ∙ p.same.cores b;
  size = q.size ∙ p.same.size;
  tree = q.tree ∙ p.same.tree;
  total = q.total ∙ ap (λ n. (n + 1) % u64) p.same.total;
  there = ap u.index (sym (ap (λ c. c.0) (p.same.cores a))) ∙ q.there;
  sub = λ k b h. elim (q.sub k b h) [
    | inl e ↦ inl (e.0, e.1 ∙ ap (λ c. c.0) (p.same.cores a))
    | inr e ↦ inr (p.sub k b e)
  ];
}

pub Stores-remove : (s t : Store) (a r : ℕ) → Stores s a t → Stores s a (do_item_remove t r)
Stores-remove s t a r q =
    let p = do_item_remove-Shrinks t r in
    record {
      cores = λ b. p.same.cores b ∙ q.cores b;
      size = p.same.size ∙ q.size;
      tree = p.same.tree ∙ q.tree;
      total = p.same.total ∙ q.total;
      there = ap (λ m. m (item_at s a).key) (do_item_remove-index t r) ∙ q.there;
      sub = λ k b h. q.sub k b (p.sub k b h);
    }

-- Append and prepend store an item of their own.
abbrev pub joins : Command → Bool
joins nread_append = true
joins nread_prepend = true
joins comm = false

abbrev pub Outcomes : Store → ℕ → Store × StoreItemType → Type 0
Outcomes s a r = ((r.1 ≡ stored) × Stores s a r.0) ⊎ ((r.1 ≢ stored) × Shrinks s r.0)

store_old-Stores : (s : Store) (old a : ℕ) → Stores s a (store_old s old a).0
unfolding store_old do_item_replace
store_old-Stores s old a = Stores-remove s (do_item_link (do_item_unlink s old) a) a old (
    Shrinks-Stores s (do_item_unlink s old) (do_item_link (do_item_unlink s old) a) a
      (do_item_unlink-Shrinks s old) (do_item_link_lem (do_item_unlink s old) a))

keep_stale-Shrinks : (s : Store) (old a : ℕ) → Shrinks s (keep_stale s old a)
unfolding keep_stale
keep_stale-Shrinks s old a = modify-Shrinks s a _ (λ o. refl)

store_new_lem : (s : Store) (a : ℕ) (comm : Command) → Outcomes s a (store_new s a comm)
unfolding store_new
store_new_lem s a nread_add = inl (refl, do_item_link_lem s a)
store_new_lem s a nread_set = inl (refl, do_item_link_lem s a)
store_new_lem s a nread_replace = inr (λ h. cc h, Shrinks-refl s)
store_new_lem s a nread_append = inr (λ h. cc h, Shrinks-refl s)
store_new_lem s a nread_prepend = inr (λ h. cc h, Shrinks-refl s)
store_new_lem s a nread_cas = inr (λ h. cc h, Shrinks-refl s)

refused :
    (s : Store) (old a : ℕ) (t : StoreItemType)
    → t ≢ stored
    → Outcomes s a (do_item_remove s old, t)
refused s old a t ne = inr (ne, do_item_remove-Shrinks s old)

store_over_lem :
    (mem : Bool) (junk : Bytes × ℕ) (s : Store) (old a : ℕ) (comm : Command) (res : CasResult)
    → joins comm ≡ false
    → Outcomes s a (store_over mem junk s old a comm res)
unfolding store_over store_old
store_over_lem mem junk s old a nread_add res h = inr (
  λ w. cc w,
  Shrinks-trans s (do_item_update s old) (do_item_remove (do_item_update s old) old)
      (do_item_update-Shrinks s old) (do_item_remove-Shrinks (do_item_update s old) old),
)
store_over_lem mem junk s old a nread_set res h = inl (refl, store_old-Stores s old a)
store_over_lem mem junk s old a nread_replace res h = inl (refl, store_old-Stores s old a)
store_over_lem mem junk s old a nread_append res h = cc h
store_over_lem mem junk s old a nread_prepend res h = cc h
store_over_lem mem junk s old a nread_cas cas_none h = refused s old a exists (λ w. cc w)
store_over_lem mem junk s old a nread_cas cas_match h = inl (refl, store_old-Stores s old a)
store_over_lem mem junk s old a nread_cas cas_badval h = refused s old a exists (λ w. cc w)
store_over_lem mem junk s old a nread_cas cas_stale h = inl (
  refl,
  Shrinks-Stores s (keep_stale s old a) (store_old (keep_stale s old a) old a).0 a
      (keep_stale-Shrinks s old a) (store_old-Stores (keep_stale s old a) old a),
)
store_over_lem mem junk s old a nread_cas cas_miss h = refused s old a exists (λ w. cc w)

Outcomes-trans :
    (s t : Store) (a : ℕ) (r : Store × StoreItemType)
    → Shrinks s t
    → Outcomes t a r
    → Outcomes s a r
Outcomes-trans s t a r p (inl (e, q)) = inl (e, Shrinks-Stores s t r.0 a p q)
Outcomes-trans s t a r p (inr (e, q)) = inr (e, Shrinks-trans s t r.0 p q)

-- `do_store_item` for a command other than append and prepend answers STORED and enters the item in
-- the hash table under its key, counting it once, or answers otherwise and enters nothing; no item
-- loses its data, its MAC or its index, and no key comes to another item.
pub do_store_item_lem :
    (mem : Bool) (junk : Bytes × ℕ) (set_stale : Bool) (s : Store) (a : ℕ) (comm : Command)
    → joins comm ≡ false
    → Outcomes s a (do_store_item mem junk set_stale s a comm)
unfolding do_store_item
do_store_item_lem mem junk set_stale s a comm h =
    let (p, _) = do_item_get_lem none s (item_at s a).key in
    Outcomes-trans s (do_item_get none s (item_at s a).key).0 a
      (do_store_item mem junk set_stale s a comm) p
      (go (do_item_get none s (item_at s a).key).1 (do_item_get none s (item_at s a).key).0)
  where
    go :
        (m : Option ℕ) (t : Store)
        → Outcomes t a (elim m [
          | none ↦ store_new t a comm
          | some old ↦
              store_over mem junk t old a comm
                (cas_result set_stale (item_get_cas (item_at t a)) (item_get_cas (item_at t old)))
        ])
    go none t = store_new_lem t a comm
    go (some old) t = store_over_lem mem junk t old a comm _ h
