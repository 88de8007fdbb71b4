-- ===== src/Store/Process/Update.antt =====
-- memcached/proto_text.c: process_update_command and the item that awaits its data.
use kvsev.Prelude.{
  ℕ, ◌≤◌, ◌<◌, ◌≡◌, refl, ap, ◌∙◌, Bool, true, false, Option, none, some, List, [], ◌∷◌, ◌++◌,
  length, replicate, length-take, length-append, length-replicate, arith, ge→ltb, ltb, ◌==◌,
  if_either, if◌then◌else◌,
}
use kvsev.Prelude.Outcome.{done}
use kvsev.Merkle.Config.{Bytes}
use kvsev.Merkle.Hash.{Sha256}
use kvsev.Store.Items.{
  Item, Store, item_at, item_size, is_chunked, modify, item_set_cas, item_get_cas, do_item_get,
}
use kvsev.Store.Command.{
  Command, nread_set, stored, StoreItemType, Reply, cas_result, store_old, store_new, store_over,
  do_store_item, ends_crlf, complete_nread_ascii,
}
use kvsev.Store.Core.{core}
use kvsev.Store.Secured.{item_at-modify_self}
use kvsev.Store.Process.{
  Conn, Turn, Allocation, Fields, served, conn_nread, key_token, key_max_length, bytes_held,
  set_noreply_maybe, update_fields, new_item, process_update_command, nread, complete_nread,
  finish_update,
}
use kvsev.Store.Process.Beside.{
  Beside, Beside-trans, modify-Beside, allocated, do_item_alloc-allocated, allocated_lem,
}

-- A `set` that gets to the store is always stored.
pub do_store_item-set :
    (mem : Bool) (junk : Bytes × ℕ) (set_stale : Bool) (s : Store) (a : ℕ)
    → (do_store_item mem junk set_stale s a nread_set).1 ≡ stored
unfolding do_store_item store_new store_over store_old
do_store_item-set mem junk set_stale s a =
    go (do_item_get none s (item_at s a).key).1 (do_item_get none s (item_at s a).key).0
  where
    go :
        (m : Option ℕ) (t : Store)
        → (elim m as (λ _. Store × StoreItemType) [
          | none ↦ store_new t a nread_set
          | some old ↦
              store_over mem junk t old a nread_set
                (cas_result set_stale (item_get_cas (item_at t a)) (item_get_cas (item_at t old)))
        ]).1
          ≡ stored
    go none t = refl
    go (some old) t = refl

pub ends_crlf-length : (d : Bytes) → ends_crlf d ≡ true → 2 ≤ length d
unfolding ends_crlf
ends_crlf-length [] h = cc h
ends_crlf-length (x ∷ []) h = cc h
ends_crlf-length (x ∷ y ∷ []) h = omega arith
ends_crlf-length (x ∷ y ∷ z ∷ rest) h = omega (arith, ends_crlf-length (y ∷ z ∷ rest) h)

pub length-bytes_held : (m : Allocation) (n : ℕ) → length (bytes_held m n) ≡ n
length-bytes_held m n =
    let wide = length-append m.held (replicate n 0) in
    let zeros : length {A = ℕ} (replicate n 0) ≡ n = length-replicate n 0 in
    length-take n (m.held ++ replicate n 0) (omega arith)

-- The store and the connection when the data are awaited.
abbrev pub awaiting : Allocation → Store → Bytes → Fields → Store
awaiting m s key f =
    modify (allocated m.junk s key f.flags f.exptime (bytes_held m f.vlen)) (length s.heap)
      (item_set_cas f.req_cas_id)

pub process_update_command_accepted :
    (process_started : ℕ) (m : Allocation) (c : Conn) (s : Store) (tokens : List Bytes)
    (comm : Command) (handle_cas : Bool) (f : Fields)
    → m.granted ≡ true
    → length (key_token tokens) ≤ key_max_length
    → update_fields process_started s tokens handle_cas ≡ some f
    → 2 ≤ f.vlen
    → process_update_command process_started m c s tokens comm handle_cas ≡ record {
      conn = record (set_noreply_maybe c tokens) {
        state = conn_nread;
        item = length s.heap;
        ritem = 0;
        rlbytes = f.vlen;
        cmd = comm;
      };
      store = awaiting m s (key_token tokens) f;
      sent = none;
    }
unfolding process_update_command new_item
process_update_command_accepted process_started m c s tokens comm handle_cas f granted short is
      big =
    let wide = length-bytes_held m f.vlen in
    let alloc =
      do_item_alloc-allocated m.junk s (key_token tokens) f.flags f.exptime (bytes_held m f.vlen)
        (omega arith) in
    rw (ge→ltb key_max_length (length (key_token tokens)) short, is, granted, alloc) refl

-- The item that awaits its data: its key, and data of the length announced.
pub awaiting_lem :
    (m : Allocation) (s : Store) (key : Bytes) (f : Fields)
    → Beside (length s.heap) s (awaiting m s key f)
      × (length s.heap < length (awaiting m s key f).heap)
      × ((item_at (awaiting m s key f) (length s.heap)).key ≡ key)
      × (length (item_at (awaiting m s key f) (length s.heap)).item_data ≡ f.vlen)
awaiting_lem m s key f =
    let d = bytes_held m f.vlen in
    let t = allocated m.junk s key f.flags f.exptime d in
    let (beside, there, lt) = allocated_lem m.junk s key f.flags f.exptime d in
    let cas = item_set_cas f.req_cas_id in
    let here = item_at-modify_self t (length s.heap) cas lt in
    let same : (o : Item) → core (cas o) ≡ core o =
      λ o. if_either (λ i. core i ≡ core o) o.has_cas refl refl in
    let cores = ap core here ∙ same (item_at t (length s.heap)) ∙ ap core there in
    let more = modify-Beside t (length s.heap) cas in
    let le = more.size in
    (
      Beside-trans (length s.heap) s t (awaiting m s key f) beside more,
      omega (arith, lt, le),
      ap (λ c. c.0) cores,
      ap (λ c. length c.1) cores ∙ length-bytes_held m f.vlen,
    )

-- Whether it is in chunks, by what the line says of its size.
pub awaiting-is_chunked :
    (m : Allocation) (s : Store) (key : Bytes) (f : Fields)
    → is_chunked (awaiting m s key f) (item_at (awaiting m s key f) (length s.heap))
      ≡ ltb s.slab_chunk_size_max (item_size s.use_cas (length key) f.flags f.vlen)
unfolding modify
awaiting-is_chunked m s key f =
    let d = bytes_held m f.vlen in
    let t = allocated m.junk s key f.flags f.exptime d in
    let (beside, there, lt) = allocated_lem m.junk s key f.flags f.exptime d in
    let cas = item_set_cas f.req_cas_id in
    let chunked : Item → Bool = λ o. is_chunked s o in
    ap chunked (item_at-modify_self t (length s.heap) cas lt)
    ∙ if_either (λ i. chunked i ≡ chunked (item_at t (length s.heap)))
        (item_at t (length s.heap)).has_cas refl refl
    ∙ ap chunked there
    ∙ ap (λ n. ltb s.slab_chunk_size_max (item_size s.use_cas (length key) f.flags n))
        (length-bytes_held m f.vlen)

module _ (sha : Sha256) (cmac : Bytes → Bytes) where
  pub finish_update_run :
      (mem : Bool) (junk : Bytes × ℕ) (tree_mem : ℕ → Bool) (turn : Turn) (pieces : List Bytes)
      (c : Conn) (s s' : Store) (rest : Bytes) (reply : Reply)
      → turn.conn.state ≡ conn_nread
      → is_chunked turn.store (item_at turn.store turn.conn.item) ≡ false
      → nread turn.conn turn.store pieces ≡ (c, s, rest)
      → (c.rlbytes == 0) ≡ true
      → complete_nread_ascii sha cmac mem junk tree_mem false s c.item c.cmd ≡ done (s', reply)
      → finish_update sha cmac mem junk tree_mem turn pieces
        ≡ done (served s' rest (if c.noreply then none else some reply))
  unfolding finish_update complete_nread
  finish_update_run mem junk tree_mem turn pieces c s s' rest reply waits whole reads all run =
      let complete : complete_nread sha cmac mem junk tree_mem (c, s, rest)
          ≡ done (served s' rest (if c.noreply then none else some reply)) =
        rw (all, complete_nread, run) refl in
      rw (waits, whole, finish_update)
        (ap (complete_nread sha cmac mem junk tree_mem) reads ∙ complete)
