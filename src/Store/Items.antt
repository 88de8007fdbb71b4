-- ===== src/Store/Items.antt =====
-- memcached/items.c: the items and the operations that link, unlink, find and bump them. Items have
-- addresses, positions in `heap`; the hash table is the map from keys to addresses that the history of
-- its operations builds (Assoc/History). The LRU queues are left out: only `cold` is kept of them.
use kvsev.Prelude.{
  ℕ, ◌+◌, ◌-◌, ◌%◌, Bool, true, false, ◌&&◌, ◌||◌, not, Option, none, some, List, [], ◌∷◌, ◌++◌,
  ltb, leb, ◌==◌, if◌then◌else◌, length, get_or, set,
}
use kvsev.Prelude.Bytes.{same_bytes}
use kvsev.Assoc.{Key}
use kvsev.Merkle.Config.{Bytes, u32}
use kvsev.Merkle.Tree.{Tree}

abbrev pub key_max_length : ℕ
key_max_length = 250

abbrev pub u64 : ℕ
u64 = 18446744073709551616

-- `item`: its flags as Booleans, its data with the closing "\r\n", and what KVSEV keeps of it.
pub record Item : Type 0 where
  pub key : Key
  pub item_data : Bytes
  pub time : ℕ
  pub exptime : ℕ
  pub client_flags : ℕ
  pub has_cas : Bool
  pub cas : ℕ
  pub linked : Bool
  pub fetched : Bool
  pub active : Bool
  pub cold : Bool
  pub is_hdr : Bool
  pub stale : Bool
  pub token_sent : Bool
  pub refcount : ℕ
  pub freed : Bool
  pub mac : Bytes
  pub mt_index : ℕ

-- The settings and global variables, and the Merkle tree.
pub record Store : Type 0 where
  pub use_cas : Bool
  pub lru_segmented : Bool
  pub slab_chunk_size_max : ℕ
  pub oldest_live : ℕ
  pub oldest_cas : ℕ
  pub current_time : ℕ
  pub cas_id : ℕ
  pub curr_items : ℕ
  pub total_items : ℕ
  pub heap : List Item
  pub index : Key → Option ℕ
  pub merkle : Option Tree

-- What stands at an address that was never given out.
abbrev pub blank : Item
blank = record {
  key = [];
  item_data = [];
  time = 0;
  exptime = 0;
  client_flags = 0;
  has_cas = false;
  cas = 0;
  linked = false;
  fetched = false;
  active = false;
  cold = false;
  is_hdr = false;
  stale = false;
  token_sent = false;
  refcount = 0;
  freed = true;
  mac = [];
  mt_index = 0;
}

abbrev pub item_at : Store → ℕ → Item
item_at s a = get_or s.heap a blank

unfoldable pub modify : Store → ℕ → (Item → Item) → Store
modify s a f = record s { heap = set s.heap a (f (item_at s a)) }

abbrev pub with_key : (Key → Option ℕ) → Key → Option ℕ → Key → Option ℕ
with_key m key v = λ k. if same_bytes k key then v else m k

abbrev pub item_get_cas : Item → ℕ
item_get_cas o = if o.has_cas then o.cas else 0

abbrev pub item_set_cas : ℕ → Item → Item
item_set_cas v o = if o.has_cas then record o { cas = v } else o

unfoldable pub refcount_incr : Store → ℕ → Store
refcount_incr s a = modify s a (λ o. record o { refcount = (o.refcount + 1) % 65536 })

-- `item_is_flushed`
unfoldable pub item_is_flushed : Store → Item → Bool
item_is_flushed s o =
    let cas = item_get_cas o in
    not (s.oldest_live == 0 || ltb s.current_time s.oldest_live)
    && (leb o.time s.oldest_live
        || (not (s.oldest_cas == 0) && (not (cas == 0) && ltb cas s.oldest_cas)))

-- `do_item_remove`: a reference is given back; the last frees the item.
unfoldable pub do_item_remove : Store → ℕ → Store
do_item_remove s a = modify s a (λ o.
    let left = (o.refcount + 65535) % 65536 in
    record o { refcount = left; freed = o.freed || left == 0 })

-- `do_item_link`
unfoldable pub do_item_link : Store → ℕ → Store
do_item_link s a =
    let next = (s.cas_id + 1) % u64 in
    let cas = if s.use_cas then next else 0 in
    let s' : Store =
      record (modify s a
        (λ o. item_set_cas cas (record o { linked = true; time = s.current_time }))) {
          curr_items = (s.curr_items + 1) % u64;
          total_items = (s.total_items + 1) % u64;
          cas_id = if s.use_cas then next else s.cas_id;
          index = with_key s.index (item_at s a).key (some a);
        } in
    refcount_incr s' a

-- `do_item_unlink`
unfoldable pub do_item_unlink : Store → ℕ → Store
do_item_unlink s a =
    let s' : Store = record (modify s a (λ o. record o { linked = false })) {
      curr_items = (s.curr_items + (u64 - 1)) % u64;
      index = with_key s.index (item_at s a).key none;
    } in
    if (item_at s a).linked then do_item_remove s' a else s

-- `do_item_replace`
unfoldable pub do_item_replace : Store → ℕ → ℕ → Store
do_item_replace s old a = do_item_link (do_item_unlink s old) a

-- `do_item_update`; `current_time - ITEM_UPDATE_INTERVAL` wraps.
unfoldable pub do_item_update : Store → ℕ → Store
do_item_update s a =
    let o = item_at s a in
    if s.lru_segmented
    then if o.linked
      then modify s a (λ i.
        if i.cold && i.active
        then record i { time = s.current_time; cold = false; active = false }
        else record i { time = s.current_time })
      else s
    else if ltb o.time ((s.current_time + (u32 - 60)) % u32) && o.linked
    then modify s a (λ i. record i { time = s.current_time })
    else s

-- `do_item_bump`: `queued` is the answer of `lru_bump_async`.
unfoldable pub do_item_bump : Bool → Store → ℕ → Store
do_item_bump queued s a =
    let o = item_at s a in
    if s.lru_segmented
    then if o.active
      then s
      else if not o.fetched
      then modify s a (λ i. record i { fetched = true })
      else if not o.cold
      then modify s a (λ i. record i { active = true; time = s.current_time })
      else modify s a (λ i. record i { active = queued })
    else do_item_update (modify s a (λ i. record i { fetched = true })) a

-- `do_item_get`: `some queued` asks for the bump (DO_UPDATE).
unfoldable pub do_item_get : Option Bool → Store → Key → Store × Option ℕ
do_item_get update s key = elim (s.index key) [
  | none ↦ (s, none)
  | some a ↦
      let s' = refcount_incr s a in
      let o = item_at s' a in
      if item_is_flushed s o || (not (o.exptime == 0) && leb o.exptime s.current_time)
      then (do_item_remove (do_item_unlink s' a) a, none)
      else (elim update [ none ↦ s' | some queued ↦ do_item_bump queued s' a ], some a)
]

-- `ntotal` of do_item_alloc, with `item_make_header`: `sizeof(item)` is 80, and flags of 0 take no room.
abbrev pub item_size : Bool → ℕ → ℕ → ℕ → ℕ
item_size use_cas nkey flags nbytes =
    80 + (nkey + 1) + (if flags == 0 then 0 else 4) + nbytes + (if use_cas then 8 else 0)

-- Whether do_item_alloc has set ITEM_CHUNKED.
abbrev pub is_chunked : Store → Item → Bool
is_chunked s o =
    ltb s.slab_chunk_size_max
      (item_size o.has_cas (length o.key) o.client_flags (length o.item_data))

-- `do_item_alloc`: `mem` is the allocator's answer, `junk` what the memory of the new item held where
-- nothing is written. The answer is a refusal too where the size has no slab class; a pull from the
-- slabs evicts nothing. The caller fills the data in. An item of more than `slab_chunk_size_max` bytes is
-- in chunks (`is_chunked`); its data are those of all its chunks.
unfoldable pub do_item_alloc : Bool → Bytes × ℕ → Store → Key → ℕ → ℕ → Bytes → Option (Store × ℕ)
do_item_alloc mem junk s key flags exptime item_data =
    let o : Item = record blank {
      key = key;
      item_data = item_data;
      exptime = exptime;
      client_flags = flags;
      has_cas = s.use_cas;
      cold = not s.lru_segmented;
      refcount = 1;
      freed = false;
      mac = junk.0;
      mt_index = junk.1;
    } in
    if mem && leb 2 (length item_data)
    then some (record s { heap = s.heap ++ o ∷ [] }, length s.heap)
    else none
