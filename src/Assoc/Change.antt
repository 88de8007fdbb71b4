-- ===== src/Assoc/Change.antt =====
-- memcached/assoc.c: assoc_insert and assoc_delete against a map of the keys.
use kvsev.Prelude.{ℕ, ◌≡◌, refl, ◌∙◌, ap, ◌≢◌, ◌⊎◌, none, some, ◌∷◌, Option-cases, inl, inr}
use kvsev.Assoc.{Key, Item, Assoc, chain_of, put_chain, find, find_in, insert, delete}
use kvsev.Assoc.Chain.{find_in-cons_self, find_in-cons_ne, remove_in_lem, remove_in-none}
use kvsev.Assoc.Placed.{Placed, chain_of-Distinct}
use kvsev.Assoc.Put.{put_chain-Swapped}

module _ (hash : Key → ℕ) where
  -- An item whose key is not in the table is found under its key after its insertion, every other key
  -- is found as before, and the table stays well-formed, in the middle of an expansion too.
  pub insert_lem :
      (s : Assoc) (it : Item)
      → Placed hash s
      → find s it.key (hash it.key) ≡ none
      → Placed hash (insert s it (hash it.key))
        × (find (insert s it (hash it.key)) it.key (hash it.key) ≡ some it)
        × ((k : Key) → k ≢ it.key → find (insert s it (hash it.key)) k (hash k) ≡ find s k (hash k))
  unfolding find insert
  insert_lem s it p h =
      let c = chain_of s (hash it.key) in
      let w =
        put_chain-Swapped hash s p it.key (it ∷ c) (h, chain_of-Distinct hash s (hash it.key) p)
          (λ k ne. find_in-cons_ne k it c ne) in
      (w.placed, ap (find_in it.key) w.at ∙ find_in-cons_self it.key it c refl, w.elsewhere)

  -- The deletion of a key in the table succeeds, the key is not found after it, every other key is
  -- found as before, and the table stays well-formed; the deletion of a key that is not in the table
  -- fails the assertion.
  pub delete_lem :
      (s : Assoc) (key : Key)
      → Placed hash s
      → ((find s key (hash key) ≡ none) × (delete s key (hash key) ≡ none))
        ⊎ ((s' : Assoc) × (delete s key (hash key) ≡ some s')
            × (find s key (hash key) ≢ none)
            × Placed hash s'
            × (find s' key (hash key) ≡ none)
            × ((k : Key) → k ≢ key → find s' k (hash k) ≡ find s k (hash k)))
  unfolding find delete
  delete_lem s key p =
      let c = chain_of s (hash key) in
      elim (Option-cases (find_in key c)) [
        | inl e ↦ inl (e, rw (remove_in-none key c e, delete))
        | inr (it, e) ↦
            let (r, run, gone, others, once) =
              remove_in_lem key c it (chain_of-Distinct hash s (hash key) p) e in
            let w = put_chain-Swapped hash s p key r once others in
            inr (
              put_chain s (hash key) r,
              rw (run, delete),
              (λ n. (cc (e, n))),
              w.placed,
              ap (find_in key) w.at ∙ gone,
              w.elsewhere,
            )
      ]
