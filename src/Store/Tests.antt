-- ===== src/Store/Tests.antt =====
-- memcached/proto_text.c: a command and a read on a small store.
use kvsev.Prelude.{
  ap, ◌∙◌, not, ◌&&◌, leb, ◌==◌, ℕ, ◌≡◌, ◌≢◌, ◌⊎◌, refl, Bool, true, false, none, some, List, [],
  ◌∷◌, ◌++◌, replicate, arith,
}
use kvsev.Prelude.Outcome.{done}
use kvsev.Prelude.Bytes.{same_bytes}
use kvsev.Merkle.Config.{Bytes, success}
use kvsev.Merkle.Tree.{Tree, init_hash}
use kvsev.Merkle.Tree.Models.{Models}
use kvsev.Merkle.Tree.Create.{empty_tree, empty_tree-Models}
use kvsev.Merkle.Toy.{checksum, toy, toy_sha, toy_works}
use kvsev.Store.Items.{
  Item, Store, blank, item_at, modify, refcount_incr, do_item_remove, do_item_link, do_item_unlink,
  do_item_replace, do_item_update, do_item_get, do_item_alloc, item_is_flushed,
}
use kvsev.Store.Command.{
  nread_set, nread_replace, nread_append, stored, not_stored, answered, cas_result, joined_data,
  store_old, store_joined, store_over, store_new, keep_stale, do_store_item, ends_crlf,
  complete_nread_ascii, process_get, Found,
}
use kvsev.Store.Secured.{Secured, Shrinks-Secured, item_at-modify_self}
use kvsev.Store.Set.{complete_nread_ascii-stored, complete_nread_ascii_unstored}
use kvsev.Store.Get.{process_get-Secured}
use kvsev.Store.Hit.{Readable, process_get_tampered}
use kvsev.Store.Core.{modify-Shrinks, modify-index}

-- A checksum in place of AES-CMAC, and a store with one item read from a client.
abbrev pub toy_cmac : Bytes → Bytes
toy_cmac m = checksum m ∷ replicate 15 0

abbrev pub letter : Bytes
letter = 65 ∷ 13 ∷ 10 ∷ []

abbrev new_item : Item
new_item = record blank { key = 1 ∷ []; item_data = letter; refcount = 1; freed = false }

abbrev pub start : Store
start = record {
  use_cas = true;
  lru_segmented = true;
  slab_chunk_size_max = 524288;
  oldest_live = 0;
  oldest_cas = 0;
  current_time = 100;
  cas_id = 0;
  curr_items = 0;
  total_items = 0;
  heap = new_item ∷ [];
  index = λ k. none;
  merkle = some empty_tree;
}

abbrev pub empty_leaves : List Bytes
empty_leaves = []

pub start-Secured : Secured toy_cmac toy start empty_leaves
start-Secured = record {
  tree = empty_tree;
  is_tree = refl;
  models = empty_tree-Models toy;
  counted = refl;
  covered = λ k b h. cc h;
}

abbrev pub no_junk : Bytes × ℕ
no_junk = ([], 0)

abbrev pub granted : ℕ → Bool
granted l = true

-- The commands evaluated.
program : Unit {0}
unfolding modify refcount_incr do_item_remove do_item_link do_item_unlink do_item_replace
    do_item_update do_item_get do_item_alloc item_is_flushed cas_result joined_data store_old
    store_joined store_over store_new keep_stale do_store_item ends_crlf same_bytes
program = tt

set_stored : (do_store_item true no_junk false start 0 nread_set).1 ≡ stored
unfolding program
set_stored = refl

replace_not_stored : (do_store_item true no_junk false start 0 nread_replace).1 ≡ not_stored
unfolding program
replace_not_stored = refl

good_data : ends_crlf letter ≡ true
unfolding program
good_data = refl

replace_unstored : (do_store_item true no_junk false start 0 nread_replace).1 ≢ stored
replace_unstored = λ h. cc (replace_not_stored, h)

appended_data : joined_data nread_append letter (66 ∷ 13 ∷ 10 ∷ []) ≡ 65 ∷ 66 ∷ 13 ∷ 10 ∷ []
unfolding program
appended_data = refl

abbrev pub leaves : List Bytes
leaves = empty_leaves ++ init_hash (toy_cmac letter) ∷ []

complete_nread_ascii-stored_example :
    (s' : Store) × (complete_nread_ascii toy_sha toy_cmac true no_junk granted false start 0
        nread_set
      ≡ done (s', answered stored))
    × Secured toy_cmac toy s' leaves
    × (s'.index (1 ∷ []) ≡ some 0)
    × ((item_at s' 0).item_data ≡ letter)
complete_nread_ascii-stored_example =
    complete_nread_ascii-stored toy_sha toy_cmac toy true no_junk granted false start 0 nread_set
      empty_leaves toy_works (λ m. refl) (λ l. refl) start-Secured (λ k e. cc e) (omega arith)
      (omega arith) good_data refl set_stored

complete_nread_ascii_unstored_example :
    (s' : Store) × (t' : Tree) × (complete_nread_ascii toy_sha toy_cmac true no_junk granted false
        start 0 nread_replace
      ≡ done (s', answered (do_store_item true no_junk false start 0 nread_replace).1))
    × (s'.merkle ≡ some t')
    × Models toy t' leaves
    × (s'.total_items ≡ 0)
complete_nread_ascii_unstored_example =
    complete_nread_ascii_unstored toy_sha toy_cmac toy true no_junk granted false start 0
      nread_replace empty_leaves toy_works (λ m. refl) (λ l. refl) start-Secured (omega arith)
      (omega arith) good_data refl replace_unstored

-- The store after the set.
abbrev pub AfterSet : Type 0
AfterSet = (s' : Store) × Secured toy_cmac toy s' leaves × (s'.index (1 ∷ []) ≡ some 0)

pub after_set : AfterSet
after_set =
    let (s', _, q, at, _) =
      complete_nread_ascii-stored toy_sha toy_cmac toy true no_junk granted false start 0 nread_set
        empty_leaves toy_works (λ m. refl) (λ l. refl) start-Secured (λ k e. cc e) (omega arith)
        (omega arith) good_data refl set_stored in
    (s', q, at)

process_get-Secured_example :
    (s' : Store) × (r : Found) × (process_get toy_sha false after_set.0 (1 ∷ []) ≡ done (s', r))
    × Secured toy_cmac toy s' leaves
    × ((r ≡ none)
        ⊎ ((a : ℕ) × (after_set.0.index (1 ∷ []) ≡ some a)
            × (r ≡ some ((item_at after_set.0 a).item_data, success))))
process_get-Secured_example =
    process_get-Secured toy_sha toy_cmac toy false after_set.0 leaves (1 ∷ []) toy_works (λ m. refl)
      after_set.1

-- The store with the item as one reference has it, never to expire, and with no flush.
abbrev settle : Item → Item
settle o = record o { refcount = 1; exptime = 0 }

abbrev settled : Store
settled = record (modify after_set.0 0 settle) { oldest_live = 0 }

settled-Secured : Secured toy_cmac toy settled leaves
settled-Secured =
    let q =
      Shrinks-Secured toy_cmac toy after_set.0 (modify after_set.0 0 settle) leaves
        (modify-Shrinks after_set.0 0 settle (λ o. refl)) after_set.1 in
    record {
      tree = q.tree;
      is_tree = q.is_tree;
      models = q.models;
      counted = q.counted;
      covered = q.covered;
    }

settled_item : item_at settled 0 ≡ settle (item_at after_set.0 0)
settled_item =
    item_at-modify_self after_set.0 0 settle (after_set.1.covered (1 ∷ []) 0 after_set.2).0

settled-Readable : Readable settled 0
unfolding program
settled-Readable = record {
  kept = refl;
  live = ap (λ (o : Item). not (o.exptime == 0) && leb o.exptime settled.current_time) settled_item;
  few = rw settled_item (omega arith);
}

settled_index : settled.index (1 ∷ []) ≡ some 0
settled_index = ap (λ m. m (1 ∷ [])) (modify-index after_set.0 0 settle) ∙ after_set.2

process_get_tampered_example :
    ((s' : Store) × (process_get toy_sha false settled (1 ∷ [])
        ≡ done (s', some ((item_at settled 0).item_data, success))))
    × ((s' : Store) × (process_get toy_sha false
            (modify settled 0 (λ o. record o { item_data = [] }))
            (1 ∷ [])
          ≡ done (s', some ([], success))))
process_get_tampered_example =
    process_get_tampered toy_sha toy_cmac toy false settled leaves (1 ∷ []) 0 [] toy_works
      (λ m. refl) settled-Secured settled_index settled-Readable (omega arith)
