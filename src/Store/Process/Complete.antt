-- ===== src/Store/Process/Complete.antt =====
-- memcached/proto_text.c and memcached/memcached.c: a storage command whose data are in, to its reply.
use kvsev.Prelude.{
  ℕ, ◌≤◌, ◌<◌, ◌≡◌, refl, sym, ap, ◌∙◌, Bool, true, false, none, some, List, [], ◌∷◌, ◌++◌, length,
  take, drop, arith, ge→ltb, if_false, subst, if◌then◌else◌,
}
use kvsev.Prelude.Outcome.{done}
use kvsev.Merkle.Config.{Bytes}
use kvsev.Merkle.Hash.{Sha256, IsSha256}
use kvsev.Merkle.ArrayList.Holds.{capacity}
use kvsev.Merkle.Tree.{init_hash}
use kvsev.Store.Items.{Store, item_at, item_size, do_item_remove}
use kvsev.Store.Command.{
  Command, stored, answered, bad_data_chunk, Reply, do_store_item, ends_crlf, complete_nread_ascii,
}
use kvsev.Store.Core.{do_item_remove-Shrinks}
use kvsev.Store.Secured.{Secured, Shrinks-Secured, item_at-modify_self}
use kvsev.Store.Set.{complete_nread_ascii-stored}
use kvsev.Store.Link.{joins}
use kvsev.Store.Process.{
  Conn, Turn, Allocation, Fields, served, conn_nread, key_token, key_max_length, set_noreply_maybe,
  update_fields, joined, finish_update, storage_command,
}
use kvsev.Store.Process.Receive.{with_data, with_data-length, received, nread_lem}
use kvsev.Store.Process.Beside.{
  Beside, Fresh, Beside-trans, modify-Beside, Beside-Fresh, Beside-Secured, Secured-Fresh,
}
use kvsev.Store.Process.Update.{
  awaiting, awaiting_lem, awaiting-is_chunked, process_update_command_accepted, finish_update_run,
}

-- The store when the data are in: they are those of the item that awaited them.
abbrev pub uploaded : Allocation → Store → List Bytes → Fields → List Bytes → Store
uploaded m s tokens f pieces =
    with_data (awaiting m s (key_token tokens) f) (length s.heap) (take f.vlen (joined pieces))

uploaded-Beside :
    (m : Allocation) (s : Store) (tokens : List Bytes) (f : Fields) (pieces : List Bytes)
    → Beside (length s.heap) s (uploaded m s tokens f pieces)
uploaded-Beside m s tokens f pieces =
    let s1 = awaiting m s (key_token tokens) f in
    let d = take f.vlen (joined pieces) in
    Beside-trans (length s.heap) s s1 (uploaded m s tokens f pieces)
      (awaiting_lem m s (key_token tokens) f).0
      (modify-Beside s1 (length s.heap) (λ o. record o { item_data = d }))

uploaded_lem :
    (m : Allocation) (s : Store) (tokens : List Bytes) (f : Fields) (pieces : List Bytes)
    → (length s.heap < length (uploaded m s tokens f pieces).heap)
      × ((item_at (uploaded m s tokens f pieces) (length s.heap)).key ≡ key_token tokens)
      × ((item_at (uploaded m s tokens f pieces) (length s.heap)).item_data
          ≡ take f.vlen (joined pieces))
uploaded_lem m s tokens f pieces =
    let s1 = awaiting m s (key_token tokens) f in
    let d = take f.vlen (joined pieces) in
    let (_, lt1, key1, _) = awaiting_lem m s (key_token tokens) f in
    let here = item_at-modify_self s1 (length s.heap) (λ o. record o { item_data = d }) lt1 in
    (
      rw (with_data-length s1 (length s.heap) d) lt1,
      ap (λ o. o.key) here ∙ key1,
      ap (λ o. o.item_data) here,
    )

uploaded-Secured :
    (cmac digest : Bytes → Bytes) (m : Allocation) (s : Store) (tokens : List Bytes) (f : Fields)
    (pieces xs : List Bytes)
    → Secured cmac digest s xs
    → Secured cmac digest (uploaded m s tokens f pieces) xs
      × Fresh (uploaded m s tokens f pieces) (length s.heap)
uploaded-Secured cmac digest m s tokens f pieces xs q =
    let there = uploaded-Beside m s tokens f pieces in
    let fresh = Secured-Fresh cmac digest s xs q in
    (
      Beside-Secured cmac digest (length s.heap) s (uploaded m s tokens f pieces) xs there fresh q,
      Beside-Fresh (length s.heap) s (uploaded m s tokens f pieces) there fresh,
    )

-- A line and data that get as far as complete_nread_ascii: memory is granted, the key has at most 250
-- bytes, the numbers are good, the item needs no chunks, and all its data come.
pub record Complete (process_started : ℕ) (m : Allocation) (s : Store) (tokens : List Bytes)
    (handle_cas : Bool) (pieces : List Bytes) (f : Fields) : Type 0 where
  pub granted : m.granted ≡ true
  pub short : length (key_token tokens) ≤ key_max_length
  pub is : update_fields process_started s tokens handle_cas ≡ some f
  pub one_piece :
      item_size s.use_cas (length (key_token tokens)) f.flags f.vlen ≤ s.slab_chunk_size_max
  pub enough : f.vlen ≤ length (joined pieces)
  pub big : 2 ≤ f.vlen

module _ (sha : Sha256) (cmac : Bytes → Bytes) (process_started : ℕ) (m : Allocation) (mem : Bool)
    (junk : Bytes × ℕ) (tree_mem : ℕ → Bool) (c : Conn) (s : Store) (tokens pieces : List Bytes)
    (comm : Command) (handle_cas : Bool) (f : Fields)
    (h : Complete process_started m s tokens handle_cas pieces f) where
  -- The answer is that of complete_nread_ascii, and what follows the data stays as input.
  storage_command_run :
      (s' : Store) (reply : Reply)
      → complete_nread_ascii sha cmac mem junk tree_mem false
          (uploaded m s tokens f pieces)
          (length s.heap)
          comm
        ≡ done (s', reply)
      → storage_command sha cmac process_started m mem junk tree_mem c s tokens comm handle_cas
          pieces
        ≡ done (
            served s'
              (drop f.vlen (joined pieces))
              (if (set_noreply_maybe c tokens).noreply then none else some reply))
  unfolding storage_command
  storage_command_run s' reply run =
      let key = key_token tokens in
      let c1 : Conn = record (set_noreply_maybe c tokens) {
        state = conn_nread;
        item = length s.heap;
        ritem = 0;
        rlbytes = f.vlen;
        cmd = comm;
      } in
      let s1 = awaiting m s key f in
      let turn1 : Turn = record { conn = c1; store = s1; sent = none } in
      let (_, lt1, _, size1) = awaiting_lem m s key f in
      let reads = nread_lem pieces c1 s1 lt1 (omega (arith, size1)) h.enough in
      let one_piece = ge→ltb s.slab_chunk_size_max _ h.one_piece in
      ap (λ turn. finish_update sha cmac mem junk tree_mem turn pieces)
        (process_update_command_accepted process_started m c s tokens comm handle_cas f h.granted
          h.short h.is h.big)
      ∙ finish_update_run sha cmac mem junk tree_mem turn1 pieces (received c1 s1 (joined pieces)).0
          (uploaded m s tokens f pieces) s' (drop f.vlen (joined pieces)) reply refl
          (awaiting-is_chunked m s key f ∙ one_piece) reads refl run

  -- A storage command but for append and prepend that is stored: what complete_nread_ascii answers, and
  -- the item that the tree covers.
  pub storage_command-stored :
      (digest : Bytes → Bytes) (xs : List Bytes)
      → IsSha256 sha digest
      → ((d : Bytes) → length (cmac d) ≡ 16)
      → ((l : ℕ) → tree_mem l ≡ true)
      → Secured cmac digest s xs
      → length xs < capacity
      → ends_crlf (take f.vlen (joined pieces)) ≡ true
      → joins comm ≡ false
      → (do_store_item mem junk false (uploaded m s tokens f pieces) (length s.heap) comm).1
        ≡ stored
      → (s' : Store) × (storage_command sha cmac process_started m mem junk tree_mem c s tokens comm
            handle_cas pieces
          ≡ done (
              served s'
                (drop f.vlen (joined pieces))
                (if (set_noreply_maybe c tokens).noreply then none else some (answered stored))))
        × Secured cmac digest s' (xs ++ init_hash (cmac (take f.vlen (joined pieces))) ∷ [])
        × (s'.index (key_token tokens) ≡ some (length s.heap))
        × ((item_at s' (length s.heap)).item_data ≡ take f.vlen (joined pieces))
  storage_command-stored digest xs works bytes tree_granted q small good alone is_stored =
      let a = length s.heap in
      let s2 = uploaded m s tokens f pieces in
      let (secured, fresh) = uploaded-Secured cmac digest m s tokens f pieces xs q in
      let (lt2, key2, data2) = uploaded_lem m s tokens f pieces in
      let (s', run, kept, at, data') =
        complete_nread_ascii-stored sha cmac digest mem junk tree_mem false s2 a comm xs works bytes
          tree_granted secured fresh lt2 small (ap ends_crlf data2 ∙ good) alone is_stored in
      (
        s',
        storage_command_run s' (answered stored) run,
        subst (λ x. Secured cmac digest s' (xs ++ init_hash (cmac x) ∷ [])) data2 kept,
        ap s'.index (sym key2) ∙ at,
        data' ∙ data2,
      )

  -- Data without the "\r\n": nothing is stored, and no MAC is enrolled.
  pub storage_command-bad_data :
      (digest : Bytes → Bytes) (xs : List Bytes)
      → Secured cmac digest s xs
      → ends_crlf (take f.vlen (joined pieces)) ≡ false
      → (s' : Store) × (storage_command sha cmac process_started m mem junk tree_mem c s tokens comm
            handle_cas pieces
          ≡ done (
              served s'
                (drop f.vlen (joined pieces))
                (if (set_noreply_maybe c tokens).noreply then none else some bad_data_chunk)))
        × Secured cmac digest s' xs
  unfolding complete_nread_ascii
  storage_command-bad_data digest xs q bad =
      let a = length s.heap in
      let s2 = uploaded m s tokens f pieces in
      let gone = do_item_remove s2 a in
      let (_, _, data2) = uploaded_lem m s tokens f pieces in
      (
        gone,
        storage_command_run gone bad_data_chunk (
            if_false (ends_crlf (item_at s2 a).item_data) _ (done (gone, bad_data_chunk))
              (ap ends_crlf data2 ∙ bad)),
        Shrinks-Secured cmac digest s2 gone xs (do_item_remove-Shrinks s2 a)
            (uploaded-Secured cmac digest m s tokens f pieces xs q).0,
      )
