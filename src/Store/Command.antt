-- ===== src/Store/Command.antt =====
-- memcached/memcached.c and memcached/proto_text.c: do_store_item, the end of a storage command with the
-- MAC and the Merkle tree, and the read of one key by process_get_command. The end of a storage command
-- and the read are those of an item that is not in chunks (Store/Process tells the others). AES-CMAC
-- under the server's key is the parameter `cmac`.
use kvsev.Prelude.{
  ℕ, ◌+◌, ◌-◌, ◌%◌, Bool, true, false, ◌&&◌, Option, none, some, [], ◌∷◌, ◌++◌, ltb, ◌==◌,
  if◌then◌else◌, length, take,
}
use kvsev.Prelude.Outcome.{Outcome, done, fault, bad_access, ◌>>=◌}
use kvsev.Assoc.{Key}
use kvsev.Merkle.Config.{Bytes, u32, MtError}
use kvsev.Merkle.Hash.{Sha256}
use kvsev.Merkle.Tree
use kvsev.Merkle.Tree.{Tree}
use kvsev.Store.Items.{
  key_max_length, Item, Store, item_at, modify, item_get_cas, do_item_remove, do_item_link,
  do_item_replace, do_item_update, do_item_get, do_item_alloc,
}

-- NREAD_ADD to NREAD_CAS
pub data Command : Type 0 where
  nread_add nread_set nread_replace nread_append nread_prepend nread_cas : Command

pub data StoreItemType : Type 0 where
  not_stored stored exists not_found too_large no_memory : StoreItemType

pub data CasResult : Type 0 where
  cas_none cas_match cas_badval cas_stale cas_miss : CasResult

-- The test of the new item's CAS against the old one's.
unfoldable pub cas_result : Bool → ℕ → ℕ → CasResult
cas_result set_stale it_cas old_cas =
    if it_cas == 0
    then cas_none
    else if it_cas == old_cas
    then cas_match
    else if set_stale && ltb it_cas old_cas
    then cas_stale
    else cas_badval

-- `_store_item_copy_data`: the "\r\n" of the first part is overwritten.
unfoldable pub joined_data : Command → Bytes → Bytes → Bytes
joined_data nread_append old add = take (length old - 2) old ++ add
joined_data comm old add = take (length add - 2) add ++ old

-- Over an old item: `do_store`, and the release of its reference.
unfoldable pub store_old : Store → ℕ → ℕ → Store × StoreItemType
store_old s old a = (do_item_remove (do_item_replace s old a) old, stored)

-- The case of append and prepend.
unfoldable pub store_joined :
    Bool → Bytes × ℕ → Store → ℕ → ℕ → Command → CasResult → Store × StoreItemType
store_joined mem junk s old a comm res =
    let o = item_at s old in
    let item_data = joined_data comm o.item_data (item_at s a).item_data in
    let joined : Store × StoreItemType =
      elim (do_item_alloc mem junk s (item_at s a).key o.client_flags o.exptime item_data) [
        | none ↦ (do_item_remove s old, not_stored)
        | some (s', new) ↦ (do_item_remove (store_old s' old new).0 new, stored)
      ] in
    elim res [
      | cas_none ↦ if o.is_hdr then (do_item_remove s old, not_stored) else joined
      | cas_match ↦ if o.is_hdr then (do_item_remove s old, not_stored) else joined
      | _ ↦ (do_item_remove s old, exists)
    ]

-- What a stale value takes from the old item.
unfoldable pub keep_stale : Store → ℕ → ℕ → Store
keep_stale s old a =
    let o = item_at s old in
    modify s a (λ i. record i {
      exptime = o.exptime;
      stale = true;
      token_sent = if o.token_sent then true else i.token_sent;
    })

unfoldable pub store_over :
    Bool → Bytes × ℕ → Store → ℕ → ℕ → Command → CasResult → Store × StoreItemType
store_over mem junk s old a nread_add res = (do_item_remove (do_item_update s old) old, not_stored)
store_over mem junk s old a nread_cas cas_match = store_old s old a
store_over mem junk s old a nread_cas cas_stale = store_old (keep_stale s old a) old a
store_over mem junk s old a nread_cas res = (do_item_remove s old, exists)
store_over mem junk s old a nread_append res = store_joined mem junk s old a nread_append res
store_over mem junk s old a nread_prepend res = store_joined mem junk s old a nread_prepend res
store_over mem junk s old a nread_replace res = store_old s old a
store_over mem junk s old a nread_set res = store_old s old a

-- Without an old item.
unfoldable pub store_new : Store → ℕ → Command → Store × StoreItemType
store_new s a nread_add = (do_item_link s a, stored)
store_new s a nread_set = (do_item_link s a, stored)
store_new s a nread_cas = (s, not_found)
store_new s a comm = (s, not_stored)

-- `do_store_item`
unfoldable pub do_store_item : Bool → Bytes × ℕ → Bool → Store → ℕ → Command → Store × StoreItemType
do_store_item mem junk set_stale s a comm =
    let found = do_item_get none s (item_at s a).key in
    let s' = found.0 in
    elim found.1 [
      | none ↦ store_new s' a comm
      | some old ↦
          store_over mem junk s' old a comm
            (cas_result set_stale (item_get_cas (item_at s' a)) (item_get_cas (item_at s' old)))
    ]

-- The data ends in "\r\n".
unfoldable pub ends_crlf : Bytes → Bool
ends_crlf [] = false
ends_crlf (x ∷ []) = false
ends_crlf (x ∷ y ∷ []) = x == 13 && y == 10
ends_crlf (x ∷ y ∷ z ∷ rest) = ends_crlf (y ∷ z ∷ rest)

-- The reply to a storage command.
pub data Reply : Type 0 where
  bad_data_chunk : Reply
  answered : StoreItemType → Reply

-- `AES_CMAC` writes 16 bytes into `it->mac`.
unfoldable pub write_mac : (Bytes → Bytes) → Store → ℕ → Store
write_mac cmac s a = modify s a (λ o. record o { mac = cmac o.item_data })

-- `it->mt_index = (uint32_t)stats.total_items - 1`
unfoldable pub write_index : Store → ℕ → Store
write_index s a = modify s a (λ o. record o { mt_index = (s.total_items + (u32 - 1)) % u32 })

module _ (sha : Sha256) (cmac : Bytes → Bytes) where
  -- The MAC enters the Merkle tree; a status other than MT_SUCCESS is only printed. Without a tree the
  -- lock of its mutex goes through NULL.
  unfoldable pub add_mac : (ℕ → Bool) → Store → ℕ → Outcome Store
  add_mac tree_mem s a = elim s.merkle [
    | none ↦ fault bad_access
    | some t ↦ Tree.add sha tree_mem (some t) (some (item_at s a).mac) >>= λ r.
        done (write_index (record s { merkle = r.1 }) a)
  ]

  -- `complete_nread_ascii`
  unfoldable pub complete_nread_ascii :
      Bool → Bytes × ℕ → (ℕ → Bool) → Bool → Store → ℕ → Command → Outcome (Store × Reply)
  complete_nread_ascii mem junk tree_mem set_stale s a comm =
      let result = do_store_item mem junk set_stale s a comm in
      if ends_crlf (item_at s a).item_data
      then (add_mac tree_mem (write_mac cmac result.0 a) a >>= λ s'.
          done (do_item_remove s' a, answered result.1))
      else done (do_item_remove s a, bad_data_chunk)

-- A read of one key: what is sent, and the status of mt_verify, which is only printed.
abbrev pub Found : Type 0
Found = Option (Bytes × MtError)

-- `limited_get`
unfoldable pub limited_get : Bool → Store → Key → Store × Option ℕ
limited_get queued s key =
    let found = do_item_get (some queued) s key in
    elim found.1 [
      | none ↦ (found.0, none)
      | some a ↦
          if ltb 60000 (item_at found.0 a).refcount
          then (do_item_remove found.0 a, none)
          else (found.0, some a)
    ]

module _ (sha : Sha256) where
  unfoldable pub verify_item : Store → Item → Outcome MtError
  verify_item s o = elim s.merkle [
    | none ↦ fault bad_access
    | some t ↦ Tree.verify sha (some t) (some o.mac) o.mt_index
  ]

  -- One key of `process_get_command`, for get and gets, of an item in memory. The reference is given back
  -- when the response is sent.
  unfoldable pub process_get : Bool → Store → Key → Outcome (Store × Found)
  process_get queued s key =
      let found = limited_get queued s key in
      elim (ltb key_max_length (length key)) [
        | true ↦ done (s, none)
        | false ↦ elim found.1 [
          | none ↦ done (found.0, none)
          | some a ↦ verify_item found.0 (item_at found.0 a) >>= λ status.
              done (found.0, some ((item_at found.0 a).item_data, status))
        ]
      ]
