-- ===== src/Store/Secured.antt =====
-- memcached/proto_text.c: the stored items against the Merkle tree.
use kvsev.Prelude.{
  ℕ, suc, ◌+◌, ◌%◌, ◌-◌, ◌<◌, ◌≡◌, refl, ap, ◌∙◌, sym, Bool, true, some, List, [], ◌∷◌, ◌++◌, set,
  length, get_elem?, inl, inr, ◌≢◌, arith, get_or-set_self, get_or-set_ne, length-set,
  get_elem?-append_end, get_elem?-append_ne, get_elem?-lt, length-append,
}
use kvsev.Prelude.Outcome.{done}
use kvsev.Assoc.{Key}
use kvsev.Merkle.Config.{Bytes, success, u32}
use kvsev.Merkle.Hash.{Sha256, IsSha256}
use kvsev.Merkle.ArrayList.Holds.{capacity}
use kvsev.Merkle.Tree
use kvsev.Merkle.Tree.{Tree, init_hash}
use kvsev.Merkle.Tree.Models.{Models}
use kvsev.Merkle.Tree.Add.{add-Models}
use kvsev.Store.Items.{Item, Store, item_at, blank, modify}
use kvsev.Store.Command.{write_mac, write_index, add_mac}
use kvsev.Store.Core.{core, Shrinks}
use kvsev.Store.Link.{Stores}

pub item_at-modify_self :
    (s : Store) (a : ℕ) (f : Item → Item)
    → a < length s.heap
    → item_at (modify s a f) a ≡ f (item_at s a)
unfolding modify
item_at-modify_self s a f h = get_or-set_self s.heap a (f (item_at s a)) blank h

pub item_at-modify_ne :
    (s : Store) (a b : ℕ) (f : Item → Item) → a ≢ b → item_at (modify s a f) b ≡ item_at s b
unfolding modify
item_at-modify_ne s a b f h = get_or-set_ne s.heap a b (f (item_at s a)) blank h

pub modify-merkle : (s : Store) (a : ℕ) (f : Item → Item) → (modify s a f).merkle ≡ s.merkle
unfolding modify
modify-merkle s a f = refl

module _ (cmac : Bytes → Bytes) where
  -- An item under `k` with the MAC of its data, which is the leaf at its index.
  pub record Covered (xs : List Bytes) (k : Key) (o : Item) : Type 0 where
    pub key : o.key ≡ k
    pub mac : o.mac ≡ cmac o.item_data
    pub leaf : get_elem? xs o.mt_index ≡ some (init_hash o.mac)

  Covered-core :
      (xs : List Bytes) (k : Key) (o o' : Item)
      → core o' ≡ core o
      → Covered xs k o
      → Covered xs k o'
  Covered-core xs k o o' e c =
      let key = ap (λ r. r.0) e in
      let item_data : o'.item_data ≡ o.item_data = ap (λ r. r.1) e in
      let mac : o'.mac ≡ o.mac = ap (λ r. r.2) e in
      let at : o'.mt_index ≡ o.mt_index = ap (λ r. r.3) e in
      record {
        key = key ∙ c.key;
        mac = mac ∙ c.mac ∙ ap cmac (sym item_data);
        leaf = ap (get_elem? xs) at ∙ c.leaf ∙ ap (λ m. some (init_hash m)) (sym mac);
      }

  -- The tree stands for the leaves `xs`, as many as items were stored, and covers every item in the
  -- hash table.
  pub record Secured (digest : Bytes → Bytes) (s : Store) (xs : List Bytes) : Type 0 where
    pub tree : Tree
    pub is_tree : s.merkle ≡ some tree
    pub models : Models digest tree xs
    pub counted : s.total_items ≡ length xs
    pub covered :
        (k : Key) (b : ℕ) → s.index k ≡ some b → (b < length s.heap) × Covered xs k (item_at s b)

  pub Shrinks-Secured :
      (digest : Bytes → Bytes) (s s' : Store) (xs : List Bytes)
      → Shrinks s s'
      → Secured digest s xs
      → Secured digest s' xs
  Shrinks-Secured digest s s' xs p q = record {
    tree = q.tree;
    is_tree = p.same.tree ∙ q.is_tree;
    models = q.models;
    counted = p.same.total ∙ q.counted;
    covered = λ k b h.
        let (lt, c) = q.covered k b (p.sub k b h) in
        (rw p.same.size lt, Covered-core xs k (item_at s b) (item_at s' b) (p.same.cores b) c);
  }

  -- The store after the MAC of the item at `a` has entered the tree.
  abbrev pub enrolled : Store → ℕ → Tree → Store
  enrolled s a t = write_index (record (write_mac cmac s a) { merkle = some t }) a

  add_mac_run :
      (sha : Sha256) (tree_mem : ℕ → Bool) (s : Store) (a : ℕ) (t t' : Tree) (m : Bytes)
      → s.merkle ≡ some t
      → (item_at s a).mac ≡ m
      → Tree.add sha tree_mem (some t) (some m) ≡ done (success, some t')
      → add_mac sha cmac tree_mem s a ≡ done (write_index (record s { merkle = some t' }) a)
  unfolding add_mac
  add_mac_run sha tree_mem s a t t' m is here run =
      let run' : Tree.add sha tree_mem (some t) (some (item_at s a).mac) ≡ done (success, some t') =
        ap (λ x. Tree.add sha tree_mem (some t) (some x)) here ∙ run in
      rw (is, run')

  pub add_mac_lem :
      (sha : Sha256) (digest : Bytes → Bytes) (tree_mem : ℕ → Bool) (s : Store) (a : ℕ) (t : Tree)
      (xs : List Bytes)
      → IsSha256 sha digest
      → ((m : Bytes) → length (cmac m) ≡ 16)
      → ((l : ℕ) → tree_mem l ≡ true)
      → s.merkle ≡ some t
      → Models digest t xs
      → length xs < capacity
      → a < length s.heap
      → (t' : Tree) × (add_mac sha cmac tree_mem (write_mac cmac s a) a ≡ done (enrolled s a t'))
        × Models digest t' (xs ++ init_hash (cmac (item_at s a).item_data) ∷ [])
  unfolding write_mac
  add_mac_lem sha digest tree_mem s a t xs works bytes granted is models small lt =
      let f : Item → Item = λ o. record o { mac = cmac o.item_data } in
      let m = cmac (item_at s a).item_data in
      let wide = bytes (item_at s a).item_data in
      let (t', run, models') =
        add-Models sha digest tree_mem t xs m works granted models small (omega (arith, wide)) in
      let here : (item_at (modify s a f) a).mac ≡ m =
        ap (λ o. o.mac) (item_at-modify_self s a f lt) in
      (
        t',
        add_mac_run sha tree_mem (modify s a f) a t t' m (modify-merkle s a f ∙ is) here run,
        models',
      )

  pub enrolled_self :
      (s : Store) (a : ℕ) (t : Tree)
      → a < length s.heap
      → item_at (enrolled s a t) a ≡ record (item_at s a) {
        mac = cmac (item_at s a).item_data;
        mt_index = (s.total_items + (u32 - 1)) % u32;
      }
  unfolding write_index write_mac modify
  enrolled_self s a t lt =
      let f : Item → Item = λ o. record o { mac = cmac o.item_data } in
      let g : Item → Item = λ o. record o { mt_index = (s.total_items + (u32 - 1)) % u32 } in
      let wide : length (set s.heap a (f (item_at s a))) ≡ length s.heap =
        length-set s.heap a (f (item_at s a)) in
      get_or-set_self (set s.heap a (f (item_at s a))) a (g (item_at (modify s a f) a)) blank
        (rw wide lt)
      ∙ ap g (item_at-modify_self s a f lt)

  pub enrolled_ne :
      (s : Store) (a b : ℕ) (t : Tree) → a ≢ b → item_at (enrolled s a t) b ≡ item_at s b
  unfolding write_index write_mac modify
  enrolled_ne s a b t ne =
      let f : Item → Item = λ o. record o { mac = cmac o.item_data } in
      let g : Item → Item = λ o. record o { mt_index = (s.total_items + (u32 - 1)) % u32 } in
      get_or-set_ne (set s.heap a (f (item_at s a))) a b (g (item_at (modify s a f) a)) blank ne
      ∙ get_or-set_ne s.heap a b (f (item_at s a)) blank ne

  pub enrolled_rest :
      (s : Store) (a : ℕ) (t : Tree)
      → ((enrolled s a t).merkle ≡ some t)
        × ((enrolled s a t).total_items ≡ s.total_items)
        × ((enrolled s a t).index ≡ s.index)
        × (length (enrolled s a t).heap ≡ length s.heap)
  unfolding write_index write_mac modify
  enrolled_rest s a t =
      let f : Item → Item = λ o. record o { mac = cmac o.item_data } in
      let g : Item → Item = λ o. record o { mt_index = (s.total_items + (u32 - 1)) % u32 } in
      (
        refl,
        refl,
        refl,
        length-set (set s.heap a (f (item_at s a))) a (g (item_at (modify s a f) a))
            ∙ length-set s.heap a (f (item_at s a)),
      )

  -- Once the item at `a` is stored and enrolled, the tree covers the table again.
  pub enrolled-Secured :
      (digest : Bytes → Bytes) (s s' : Store) (xs : List Bytes) (a : ℕ) (t : Tree)
      → Secured digest s xs
      → ((k : Key) → s.index k ≢ some a)
      → a < length s.heap
      → length xs < capacity
      → Stores s a s'
      → Models digest t (xs ++ init_hash (cmac (item_at s' a).item_data) ∷ [])
      → Secured digest (enrolled s' a t) (xs ++ init_hash (cmac (item_at s' a).item_data) ∷ [])
  enrolled-Secured digest s s' xs a t q fresh lt small st models =
      let leaf = init_hash (cmac (item_at s' a).item_data) in
      let counted = q.counted in
      let total : s'.total_items ≡ suc (length xs) = st.total ∙ omega (arith, counted, small) in
      let (is_tree, same_total, same_index, wide) = enrolled_rest s' a t in
      let lt' : a < length s'.heap = rw st.size lt in
      let same_size : length (enrolled s' a t).heap ≡ length s.heap = wide ∙ st.size in
      record {
        tree = t;
        is_tree = is_tree;
        models = models;
        counted = same_total ∙ total ∙ omega (arith, length-append xs (leaf ∷ []));
        covered = λ k b h. elim (st.sub k b (sym (ap (λ m. m k) same_index) ∙ h)) [
          | inl (e, key) ↦
              let at = enrolled_self s' a t lt' in
              let here : Covered (xs ++ leaf ∷ []) k (item_at (enrolled s' a t) a) = record {
                key = ap (λ o. o.key) at ∙ ap (λ c. c.0) (st.cores a) ∙ sym key;
                mac = ap (λ o. o.mac) at ∙ ap (λ o. cmac o.item_data) (sym at);
                leaf =
                    ap (get_elem? (xs ++ leaf ∷ []))
                      (ap (λ o. o.mt_index) at ∙ omega (arith, total, small))
                    ∙ get_elem?-append_end xs leaf
                    ∙ ap (λ o. some (init_hash o.mac)) (sym at);
              } in
              rw (e, same_size) (lt, here)
          | inr old ↦
              let (lt_b, c) = q.covered k b old in
              let ne : a ≢ b = λ w. fresh k (old ∙ ap some (sym w)) in
              let same : core (item_at (enrolled s' a t) b) ≡ core (item_at s b) =
                ap core (enrolled_ne s' a b t ne) ∙ st.cores b in
              let before = get_elem?-lt xs (item_at s b).mt_index c.leaf in
              let kept : Covered (xs ++ leaf ∷ []) k (item_at s b) = record {
                key = c.key;
                mac = c.mac;
                leaf =
                    get_elem?-append_ne xs leaf (item_at s b).mt_index
                      (λ w. omega (arith, w, before))
                    ∙ c.leaf;
              } in
              (
                rw same_size lt_b,
                Covered-core (xs ++ leaf ∷ []) k (item_at s b) (item_at (enrolled s' a t) b) same
                    kept,
              )
        ];
      }
