-- ===== src/Store/Set.antt =====
-- memcached/proto_text.c: complete_nread_ascii, the end of a storage command.
use kvsev.Prelude.{
  ℕ, ◌<◌, ◌≡◌, ap, ◌∙◌, Bool, true, false, some, List, [], ◌∷◌, ◌++◌, length, ◌≢◌, inl, inr,
}
use kvsev.Prelude.Outcome.{done}
use kvsev.Assoc.{Key}
use kvsev.Merkle.Config.{Bytes}
use kvsev.Merkle.Hash.{Sha256, IsSha256}
use kvsev.Merkle.ArrayList.Holds.{capacity}
use kvsev.Merkle.Tree.{Tree, init_hash}
use kvsev.Merkle.Tree.Models.{Models}
use kvsev.Store.Items.{Store, item_at, do_item_remove}
use kvsev.Store.Command.{
  Command, stored, answered, do_store_item, ends_crlf, write_mac, add_mac, complete_nread_ascii,
}
use kvsev.Store.Core.{do_item_remove-Shrinks, do_item_remove-index}
use kvsev.Store.Link.{joins, do_store_item_lem}
use kvsev.Store.Secured.{
  Secured, Shrinks-Secured, enrolled, add_mac_lem, enrolled-Secured, enrolled_rest, enrolled_self,
}

module _ (sha : Sha256) (cmac : Bytes → Bytes) where
  -- With good data, the command ends with the enrolment.
  complete_nread_ascii_run :
      (mem : Bool) (junk : Bytes × ℕ) (tree_mem : ℕ → Bool) (set_stale : Bool) (s : Store) (a : ℕ)
      (comm : Command) (s' : Store)
      → ends_crlf (item_at s a).item_data ≡ true
      → add_mac sha cmac tree_mem (write_mac cmac (do_store_item mem junk set_stale s a comm).0 a) a
        ≡ done s'
      → complete_nread_ascii sha cmac mem junk tree_mem set_stale s a comm
        ≡ done (do_item_remove s' a, answered (do_store_item mem junk set_stale s a comm).1)
  unfolding complete_nread_ascii
  complete_nread_ascii_run mem junk tree_mem set_stale s a comm s' good run = rw (good, run)

  -- A command other than append and prepend that stores a new item keeps every item of the table
  -- covered: it answers STORED, the item is found under its key with its data, and its MAC is the leaf
  -- at its index, as for all the items stored before. The data end in "\r\n", the tree gets its memory
  -- and has room, and SHA-256 and AES-CMAC do what they promise.
  pub complete_nread_ascii-stored :
      (digest : Bytes → Bytes) (mem : Bool) (junk : Bytes × ℕ) (tree_mem : ℕ → Bool)
      (set_stale : Bool) (s : Store) (a : ℕ) (comm : Command) (xs : List Bytes)
      → IsSha256 sha digest
      → ((m : Bytes) → length (cmac m) ≡ 16)
      → ((l : ℕ) → tree_mem l ≡ true)
      → Secured cmac digest s xs
      → ((k : Key) → s.index k ≢ some a)
      → a < length s.heap
      → length xs < capacity
      → ends_crlf (item_at s a).item_data ≡ true
      → joins comm ≡ false
      → (do_store_item mem junk set_stale s a comm).1 ≡ stored
      → (s' : Store) × (complete_nread_ascii sha cmac mem junk tree_mem set_stale s a comm
          ≡ done (s', answered stored))
        × Secured cmac digest s' (xs ++ init_hash (cmac (item_at s a).item_data) ∷ [])
        × (s'.index (item_at s a).key ≡ some a)
        × ((item_at s' a).item_data ≡ (item_at s a).item_data)
  complete_nread_ascii-stored digest mem junk tree_mem set_stale s a comm xs works bytes granted q
        fresh lt small good alone is =
      let r = do_store_item mem junk set_stale s a comm in
      elim (do_store_item_lem mem junk set_stale s a comm alone) [
        | inr (ne, _) ↦ absurd (ne is)
        | inl (_, st) ↦
            let data_same : (item_at r.0 a).item_data ≡ (item_at s a).item_data =
              ap (λ c. c.1) (st.cores a) in
            let lt' : a < length r.0.heap = rw st.size lt in
            let (t', run, models) =
              add_mac_lem cmac sha digest tree_mem r.0 a q.tree xs works bytes granted
                (st.tree ∙ q.is_tree) q.models small lt' in
            let done_s = enrolled cmac r.0 a t' in
            let secured = enrolled-Secured cmac digest s r.0 xs a t' q fresh lt small st models in
            let gone = do_item_remove-Shrinks done_s a in
            (
              do_item_remove done_s a,
              complete_nread_ascii_run mem junk tree_mem set_stale s a comm done_s good run
                  ∙ ap (λ w. done (do_item_remove done_s a, answered w)) is,
              rw (← data_same)
                  (Shrinks-Secured cmac digest done_s (do_item_remove done_s a) _ gone secured),
              ap (λ m. m (item_at s a).key)
                    (do_item_remove-index done_s a ∙ (enrolled_rest cmac r.0 a t').2)
                  ∙ st.there,
              ap (λ c. c.1) (gone.same.cores a)
                  ∙ ap (λ o. o.item_data) (enrolled_self cmac r.0 a t' lt')
                  ∙ data_same,
            )
      ]

  -- A command other than append and prepend that does not store its item adds the item's MAC to the
  -- tree all the same: the tree then has one leaf more than items were stored, so the index of the next
  -- stored item is not the place of its leaf.
  pub complete_nread_ascii_unstored :
      (digest : Bytes → Bytes) (mem : Bool) (junk : Bytes × ℕ) (tree_mem : ℕ → Bool)
      (set_stale : Bool) (s : Store) (a : ℕ) (comm : Command) (xs : List Bytes)
      → IsSha256 sha digest
      → ((m : Bytes) → length (cmac m) ≡ 16)
      → ((l : ℕ) → tree_mem l ≡ true)
      → Secured cmac digest s xs
      → a < length s.heap
      → length xs < capacity
      → ends_crlf (item_at s a).item_data ≡ true
      → joins comm ≡ false
      → (do_store_item mem junk set_stale s a comm).1 ≢ stored
      → (s' : Store) × (t' : Tree) × (complete_nread_ascii sha cmac mem junk tree_mem set_stale s a
            comm
          ≡ done (s', answered (do_store_item mem junk set_stale s a comm).1))
        × (s'.merkle ≡ some t')
        × Models digest t' (xs ++ init_hash (cmac (item_at s a).item_data) ∷ [])
        × (s'.total_items ≡ length xs)
  complete_nread_ascii_unstored digest mem junk tree_mem set_stale s a comm xs works bytes granted q
        lt small good alone isnt =
      let r = do_store_item mem junk set_stale s a comm in
      elim (do_store_item_lem mem junk set_stale s a comm alone) [
        | inl (e, _) ↦ absurd (isnt e)
        | inr (_, st) ↦
            let data_same : (item_at r.0 a).item_data ≡ (item_at s a).item_data =
              ap (λ c. c.1) (st.same.cores a) in
            let lt' : a < length r.0.heap = rw st.same.size lt in
            let (t', run, models) =
              add_mac_lem cmac sha digest tree_mem r.0 a q.tree xs works bytes granted
                (st.same.tree ∙ q.is_tree) q.models small lt' in
            let done_s = enrolled cmac r.0 a t' in
            let gone = (do_item_remove-Shrinks done_s a).same in
            let rest = enrolled_rest cmac r.0 a t' in
            (
              do_item_remove done_s a,
              t',
              complete_nread_ascii_run mem junk tree_mem set_stale s a comm done_s good run,
              gone.tree ∙ rest.0,
              rw (← data_same) models,
              gone.total ∙ rest.1 ∙ st.same.total ∙ q.counted,
            )
      ]
