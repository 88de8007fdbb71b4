-- ===== src/Store/Process/Beside.antt =====
-- memcached/items.c: what the work on an item that is not in the hash table leaves as it is.
use kvsev.Prelude.{
  ℕ, zero, suc, ◌≤◌, ◌<◌, ◌≡◌, ◌≢◌, refl, sym, ap, ◌∙◌, true, not, false, some, List, [], ◌∷◌, ◌++◌,
  length, get_or, arith, length-append, length-set, le→leb, subst,
}
use kvsev.Assoc.{Key}
use kvsev.Merkle.Config.{Bytes}
use kvsev.Store.Items.{Item, Store, item_at, blank, modify, do_item_alloc}
use kvsev.Store.Secured.{Covered, Secured, item_at-modify_ne}

-- From `s` to `s'` only the item at `a` is other or new.
pub record Beside (a : ℕ) (s s' : Store) : Type 0 where
  pub items : (b : ℕ) → b < length s.heap → b ≢ a → item_at s' b ≡ item_at s b
  pub size : length s.heap ≤ length s'.heap
  pub total : s'.total_items ≡ s.total_items
  pub tree : s'.merkle ≡ s.merkle
  pub index : s'.index ≡ s.index

pub Beside-trans : (a : ℕ) (s t u : Store) → Beside a s t → Beside a t u → Beside a s u
Beside-trans a s t u p q =
    let le = p.size in
    let le' = q.size in
    record {
      items = λ b lt ne. q.items b (omega (arith, lt, le)) ne ∙ p.items b lt ne;
      size = omega (arith, le, le');
      total = q.total ∙ p.total;
      tree = q.tree ∙ p.tree;
      index = q.index ∙ p.index;
    }

pub modify-Beside : (s : Store) (a : ℕ) (f : Item → Item) → Beside a s (modify s a f)
unfolding modify
modify-Beside s a f =
    let same = length-set s.heap a (f (item_at s a)) in
    record {
      items = λ b lt ne. item_at-modify_ne s a b f (λ e. ne (sym e));
      size = omega (arith, same);
      total = refl;
      tree = refl;
      index = refl;
    }

-- The address of an item that no key has.
abbrev pub Fresh : Store → ℕ → Type 0
Fresh s a = (k : Key) → s.index k ≢ some a

pub Beside-Fresh : (a : ℕ) (s s' : Store) → Beside a s s' → Fresh s a → Fresh s' a
Beside-Fresh a s s' p fresh k h = fresh k (sym (ap (λ m. m k) p.index) ∙ h)

pub Beside-Secured :
    (cmac digest : Bytes → Bytes) (a : ℕ) (s s' : Store) (xs : List Bytes)
    → Beside a s s'
    → Fresh s a
    → Secured cmac digest s xs
    → Secured cmac digest s' xs
Beside-Secured cmac digest a s s' xs p fresh q = record {
  tree = q.tree;
  is_tree = p.tree ∙ q.is_tree;
  models = q.models;
  counted = p.total ∙ q.counted;
  covered = λ k b h.
      let old : s.index k ≡ some b = sym (ap (λ m. m k) p.index) ∙ h in
      let (lt, c) = q.covered k b old in
      let le = p.size in
      (
        omega (arith, lt, le),
        subst (Covered cmac xs k) (sym (p.items b lt (λ e. fresh k (old ∙ ap some e)))) c,
      );
}

-- A new item: what do_item_alloc writes.
abbrev pub fresh_item : Bytes × ℕ → Store → Key → ℕ → ℕ → Bytes → Item
fresh_item junk s key flags exptime d = record blank {
  key = key;
  item_data = d;
  exptime = exptime;
  client_flags = flags;
  has_cas = s.use_cas;
  cold = not s.lru_segmented;
  refcount = 1;
  freed = false;
  mac = junk.0;
  mt_index = junk.1;
}

abbrev pub allocated : Bytes × ℕ → Store → Key → ℕ → ℕ → Bytes → Store
allocated junk s key flags exptime d = record s {
  heap = s.heap ++ fresh_item junk s key flags exptime d ∷ [];
}

pub do_item_alloc-allocated :
    (junk : Bytes × ℕ) (s : Store) (key : Key) (flags exptime : ℕ) (d : Bytes)
    → 2 ≤ length d
    → do_item_alloc true junk s key flags exptime d
      ≡ some (allocated junk s key flags exptime d, length s.heap)
unfolding do_item_alloc
do_item_alloc-allocated junk s key flags exptime d le = rw (le→leb 2 (length d) le) refl

get_or-append_old :
    (xs : List Item) (o : Item) (b : ℕ)
    → b < length xs
    → get_or (xs ++ o ∷ []) b blank ≡ get_or xs b blank
get_or-append_old [] o b lt = elim lt [ ]
get_or-append_old (x ∷ xs) o zero lt = refl
get_or-append_old (x ∷ xs) o (suc b) lt = get_or-append_old xs o b (omega arith)

get_or-append_new : (xs : List Item) (o : Item) → get_or (xs ++ o ∷ []) (length xs) blank ≡ o
get_or-append_new [] o = refl
get_or-append_new (x ∷ xs) o = get_or-append_new xs o

pub allocated_lem :
    (junk : Bytes × ℕ) (s : Store) (key : Key) (flags exptime : ℕ) (d : Bytes)
    → Beside (length s.heap) s (allocated junk s key flags exptime d)
      × (item_at (allocated junk s key flags exptime d) (length s.heap)
          ≡ fresh_item junk s key flags exptime d)
      × (length s.heap < length (allocated junk s key flags exptime d).heap)
allocated_lem junk s key flags exptime d =
    let o = fresh_item junk s key flags exptime d in
    let wide = length-append s.heap (o ∷ []) in
    (
      record {
        items = λ b lt ne. get_or-append_old s.heap o b lt;
        size = omega (arith, wide);
        total = refl;
        tree = refl;
        index = refl;
      },
      get_or-append_new s.heap o,
      omega (arith, wide),
    )

-- No key has the address behind the heap.
pub Secured-Fresh :
    (cmac digest : Bytes → Bytes) (s : Store) (xs : List Bytes)
    → Secured cmac digest s xs
    → Fresh s (length s.heap)
Secured-Fresh cmac digest s xs q k h =
    let lt = (q.covered k (length s.heap) h).0 in omega (arith, lt)
