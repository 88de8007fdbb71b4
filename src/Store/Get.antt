-- ===== src/Store/Get.antt =====
-- memcached/proto_text.c: process_get_command, the read of one key.
use kvsev.Prelude.{
  ℕ, ◌≤◌, ◌≡◌, refl, ap, ◌∙◌, sym, Bool, Option, none, some, List, length, get_elem?, inl, inr, ◌⊎◌,
  arith, ltb, if◌then◌else◌, if_either, Option-cases, Bool-cases, true, false,
}
use kvsev.Prelude.Outcome.{done}
use kvsev.Assoc.{Key}
use kvsev.Merkle.Config.{Bytes, success, hash_length}
use kvsev.Merkle.Hash.{Sha256, IsSha256}
use kvsev.Merkle.Tree.{Tree, init_hash}
use kvsev.Merkle.Tree.Models.{Models}
use kvsev.Merkle.Tree.Forge.{verify_complete}
use kvsev.Store.Items.{key_max_length, Item, Store, item_at, do_item_get, do_item_remove}
use kvsev.Store.Command.{Found, verify_item, limited_get, process_get}
use kvsev.Store.Core.{
  core, Shrinks, Shrinks-refl, Shrinks-trans, do_item_remove-Shrinks, do_item_get_lem,
}
use kvsev.Store.Secured.{Secured, Shrinks-Secured}

-- What is asked of an item under `k` by a read.
abbrev pub Listed : List Bytes → Item → Type 0
Listed xs o = (length o.mac ≤ hash_length) × (get_elem? xs o.mt_index ≡ some (init_hash o.mac))

abbrev LimitedRead : Store → Key → Store × Option ℕ → Type 0
LimitedRead s key r = Shrinks s r.0 × ((a : ℕ) → r.1 ≡ some a → s.index key ≡ some a)

limited_get_lem :
    (queued : Bool) (s : Store) (key : Key) → LimitedRead s key (limited_get queued s key)
unfolding limited_get
limited_get_lem queued s key =
    let f = do_item_get (some queued) s key in
    let r = do_item_get_lem (some queued) s key in go f.1 f.0 r.0 (λ a h. r.1 a h)
  where
    go :
        (m : Option ℕ) (t : Store)
        → Shrinks s t
        → ((a : ℕ) → m ≡ some a → s.index key ≡ some a)
        → LimitedRead s key (elim m [
          | none ↦ (t, none)
          | some a ↦
              if ltb 60000 (item_at t a).refcount then (do_item_remove t a, none) else (t, some a)
        ])
    go none t p h = (p, λ a w. cc w)
    go (some a) t p h =
        if_either (LimitedRead s key) (ltb 60000 (item_at t a).refcount)
          (Shrinks-trans s t (do_item_remove t a) p (do_item_remove-Shrinks t a), λ b w. cc w)
          (p, h)

module _ (sha : Sha256) where
  process_get_long :
      (queued : Bool) (s : Store) (key : Key)
      → ltb key_max_length (length key) ≡ true
      → process_get sha queued s key ≡ done (s, none)
  unfolding process_get
  process_get_long queued s key long = rw (long, process_get)

  process_get_miss :
      (queued : Bool) (s : Store) (key : Key)
      → ltb key_max_length (length key) ≡ false
      → (limited_get queued s key).1 ≡ none
      → process_get sha queued s key ≡ done ((limited_get queued s key).0, none)
  unfolding process_get
  process_get_miss queued s key short e = rw (short, e, process_get)

  process_get_hit :
      (queued : Bool) (s : Store) (key : Key) (a : ℕ)
      → ltb key_max_length (length key) ≡ false
      → (limited_get queued s key).1 ≡ some a
      → verify_item sha (limited_get queued s key).0 (item_at (limited_get queued s key).0 a)
        ≡ done success
      → process_get sha queued s key
        ≡ done (
          (limited_get queued s key).0,
          some ((item_at (limited_get queued s key).0 a).item_data, success),
        )
  unfolding process_get
  process_get_hit queued s key a short e v = rw (short, e, v, process_get)

  verify_item-success :
      (digest : Bytes → Bytes) (s : Store) (t : Tree) (xs : List Bytes) (o : Item)
      → IsSha256 sha digest
      → s.merkle ≡ some t
      → Models digest t xs
      → Listed xs o
      → verify_item sha s o ≡ done success
  unfolding verify_item
  verify_item-success digest s t xs o works is models l =
      rw (is, verify_complete sha digest t xs o.mac o.mt_index works models l.0 l.1)

  -- A read that finds its item sends its data with MT_SUCCESS, where the tree has the MAC of the item.
  pub process_get_found :
      (digest : Bytes → Bytes) (queued : Bool) (s : Store) (t : Tree) (xs : List Bytes) (key : Key)
      (a : ℕ)
      → IsSha256 sha digest
      → s.merkle ≡ some t
      → Models digest t xs
      → Listed xs (item_at s a)
      → ltb key_max_length (length key) ≡ false
      → (limited_get queued s key).1 ≡ some a
      → process_get sha queued s key
        ≡ done ((limited_get queued s key).0, some ((item_at s a).item_data, success))
  process_get_found digest queued s t xs key a works is models (fits, leaf) short e =
      let f = limited_get queued s key in
      let (p, _) = limited_get_lem queued s key in
      let same : core (item_at f.0 a) ≡ core (item_at s a) = p.same.cores a in
      let mac : (item_at f.0 a).mac ≡ (item_at s a).mac = ap (λ c. c.2) same in
      let here : Listed xs (item_at f.0 a) = (
        rw mac fits,
        ap (get_elem? xs) (ap (λ c. c.3) same) ∙ leaf ∙ ap (λ m. some (init_hash m)) (sym mac),
      ) in
      process_get_hit queued s key a short e
        (verify_item-success digest f.0 t xs (item_at f.0 a) works (p.same.tree ∙ is) models here)
      ∙ ap (λ c. done (f.0, some (c.1, success))) same

  -- A read sends nothing, or the data that stand in the item of the key with MT_SUCCESS, whatever these
  -- data are: only the MAC that the item carries is compared with the tree.
  pub process_get_lem :
      (digest : Bytes → Bytes) (queued : Bool) (s : Store) (t : Tree) (xs : List Bytes) (key : Key)
      → IsSha256 sha digest
      → s.merkle ≡ some t
      → Models digest t xs
      → ((a : ℕ) → s.index key ≡ some a → Listed xs (item_at s a))
      → (s' : Store) × (r : Found) × (process_get sha queued s key ≡ done (s', r))
        × Shrinks s s'
        × ((r ≡ none)
            ⊎ ((a : ℕ) × (s.index key ≡ some a) × (r ≡ some ((item_at s a).item_data, success))))
  process_get_lem digest queued s t xs key works is models listed =
      let f = limited_get queued s key in
      let (p, found) = limited_get_lem queued s key in
      elim (Bool-cases (ltb key_max_length (length key))) [
        | inl long ↦ (s, none, process_get_long queued s key long, Shrinks-refl s, inl refl)
        | inr short ↦ elim (Option-cases f.1) [
          | inl e ↦ (f.0, none, process_get_miss queued s key short e, p, inl refl)
          | inr (a, e) ↦
              let at = found a e in
              (
                f.0,
                some ((item_at s a).item_data, success),
                process_get_found digest queued s t xs key a works is models (listed a at) short e,
                p,
                inr (a, at, refl),
              )
        ]
      ]

  -- A read from a store whose items are all covered sends nothing, or the data of the key's item with
  -- MT_SUCCESS, and leaves the items covered.
  pub process_get-Secured :
      (cmac : Bytes → Bytes) (digest : Bytes → Bytes) (queued : Bool) (s : Store) (xs : List Bytes)
      (key : Key)
      → IsSha256 sha digest
      → ((m : Bytes) → length (cmac m) ≡ 16)
      → Secured cmac digest s xs
      → (s' : Store) × (r : Found) × (process_get sha queued s key ≡ done (s', r))
        × Secured cmac digest s' xs
        × ((r ≡ none)
            ⊎ ((a : ℕ) × (s.index key ≡ some a) × (r ≡ some ((item_at s a).item_data, success))))
  process_get-Secured cmac digest queued s xs key works bytes q =
      let (s', r, run, p, answer) =
        process_get_lem digest queued s q.tree xs key works q.is_tree q.models (λ a h.
          let c = (q.covered key a h).1 in
          let mac = c.mac in
          let wide = bytes (item_at s a).item_data in
          (omega (arith, ap length mac, wide), c.leaf)) in
      (s', r, run, Shrinks-Secured cmac digest s s' xs p q, answer)
