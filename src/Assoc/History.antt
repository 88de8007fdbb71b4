-- ===== src/Assoc/History.antt =====
-- memcached/assoc.c: the operations and the maintenance thread in any order, against a map of the keys.
use kvsev.Prelude.{
  subst, ◌≡◌, ◌∙◌, sym, ◌≢◌, ap, Bool, true, Option, none, some, List, inl, inr, ℕ, Bool-cases,
  if◌then◌else◌, if_true, if_false,
}
use kvsev.Prelude.Bytes.{same_bytes, same_bytes_refl, same_bytes→eq}
use kvsev.Assoc.{Key, Item, Assoc, find, init, insert, delete, maintain}
use kvsev.Assoc.Placed.{Placed}
use kvsev.Assoc.Change.{insert_lem, delete_lem}
use kvsev.Assoc.Maintain.{maintain_lem, init-Placed}

-- The map with `v` at `key`.
abbrev pub update_map : (Key → Option Item) → Key → Option Item → Key → Option Item
update_map m key v = λ k. if same_bytes k key then v else m k

module _ (hash : Key → ℕ) where
  -- The tables that the program can come to, each with the map that it stands for: `assoc_insert` is
  -- called with a key that is not in the table.
  pub data Reaches : Assoc → (Key → Option Item) → Type 0 where
    starts : (power : ℕ) (s : Assoc) → init true power ≡ some s → Reaches s (λ k. none)
    inserts :
        (s : Assoc) (m : Key → Option Item) (it : Item)
        → Reaches s m
        → m it.key ≡ none
        → Reaches (insert s it (hash it.key)) (update_map m it.key (some it))
    deletes :
        (s s' : Assoc) (m : Key → Option Item) (key : Key)
        → Reaches s m
        → delete s key (hash key) ≡ some s'
        → Reaches s' (update_map m key none)
    maintains :
        (s : Assoc) (m : Key → Option Item) (locks : List Bool) (go_on mem : Bool)
        → Reaches s m
        → Reaches (maintain hash locks go_on mem s) m

  -- The table answers as the map does.
  abbrev pub Stands : Assoc → (Key → Option Item) → Type 0
  Stands s m = (k : Key) → find s k (hash k) ≡ m k

  Stands-update :
      (s s' : Assoc) (m : Key → Option Item) (key : Key) (v : Option Item)
      → Stands s m
      → find s' key (hash key) ≡ v
      → ((k : Key) → k ≢ key → find s' k (hash k) ≡ find s k (hash k))
      → Stands s' (update_map m key v)
  Stands-update s s' m key v st at others k = elim (Bool-cases (same_bytes k key)) [
    | inl e ↦
        let same = same_bytes→eq k key e in
        ap (λ j. find s' j (hash j)) same ∙ at ∙ sym (if_true (same_bytes k key) v (m k) e)
    | inr e ↦
        let ne : k ≢ key = λ w. (cc (e, same_bytes_refl key, w)) in
        others k ne ∙ st k ∙ sym (if_false (same_bytes k key) v (m k) e)
  ]

  -- Whatever the order of insertions, deletions and rounds of the maintenance thread, the table is
  -- well-formed and every lookup answers as the map that the operations built.
  pub Reaches-Stands :
      (s : Assoc) (m : Key → Option Item) → Reaches s m → Placed hash s × Stands s m
  Reaches-Stands s m (starts power _ h) = init-Placed hash power s h
  Reaches-Stands _ _ (inserts s m it r new) =
      let (p, st) = Reaches-Stands s m r in
      let (p', at, others) = insert_lem hash s it p (st it.key ∙ new) in
      (p', Stands-update s (insert s it (hash it.key)) m it.key (some it) st at others)
  Reaches-Stands _ _ (deletes s s' m key r run) =
      let (p, st) = Reaches-Stands s m r in
      elim (delete_lem hash s key p) [
        | inl (gone, failed) ↦ cc (failed, run)
        | inr (t, run', was, p', at, others) ↦
            let same : t ≡ s' = (cc (run, run')) in
            subst (λ u. Placed hash u × Stands u (update_map m key none)) same
              (p', Stands-update s t m key none st at others)
      ]
  Reaches-Stands _ _ (maintains s m locks go_on mem r) =
      let (p, st) = Reaches-Stands s m r in
      let (p', same) = maintain_lem hash locks go_on mem s p in (p', λ k. same k ∙ st k)
