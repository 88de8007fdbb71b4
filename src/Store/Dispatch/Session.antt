-- ===== src/Store/Dispatch/Session.antt =====
-- memcached/proto_text.c: the commands of clients one after another, and the items that are covered.
use kvsev.Prelude.{
  false, take, ◌+◌, ℕ, ◌≤◌, ◌<◌, ◌≡◌, subst, Bool, true, Option, some, List, [], ◌∷◌, ◌++◌, length,
}
use kvsev.Prelude.Outcome.{Outcome, done}
use kvsev.Assoc.{Key}
use kvsev.Merkle.Config.{Bytes}
use kvsev.Merkle.Hash.{Sha256, IsSha256}
use kvsev.Merkle.ArrayList.Holds.{capacity}
use kvsev.Merkle.Tree.{init_hash}
use kvsev.Store.Items.{Store, item_size}
use kvsev.Store.Command.{
  Command, nread_set, do_store_item, ends_crlf, stored, process_get, Found, Reply,
}
use kvsev.Store.Secured.{Secured}
use kvsev.Store.Get.{process_get-Secured}
use kvsev.Store.Process.{
  Fields, storage_command, Conn, Allocation, Served, served, key_max_length, joined,
  process_update_command, process_delete_command, process_touch_command,
}
use kvsev.Store.Link.{joins}
use kvsev.Store.Process.Complete.{
  Complete, uploaded, storage_command-stored, storage_command-bad_data,
}
use kvsev.Store.Process.Accept.{process_update_command-Covered, process_delete_command-Covered}
use kvsev.Store.Process.Touch.{process_touch_command_lem}
use kvsev.Store.Dispatch.{serve_storage}
use kvsev.Store.Dispatch.Line.{Storage, Sendable, storage_line}
use kvsev.Store.Dispatch.Serve.{serve_storage-set}

-- What the server is given for a `set`: the answers of the allocator, the line and the data.
pub record Upload : Type 0 where
  pub process_started : ℕ
  pub memory : Allocation
  pub mem : Bool
  pub junk : Bytes × ℕ
  pub tree_mem : ℕ → Bool
  pub conn : Conn
  pub storage : Storage
  pub content : Bytes
  pub rest : Bytes
  pub pieces : List Bytes

-- The line is one that can be sent, the data are whole, and there is memory.
pub record Sound (u : Upload) : Type 0 where
  pub granted : u.memory.granted ≡ true
  pub tree_granted : (l : ℕ) → u.tree_mem l ≡ true
  pub sendable : Sendable u.storage
  pub short : length u.storage.key ≤ key_max_length
  pub whole : length u.content ≡ u.storage.data_length
  pub input : joined u.pieces ≡ u.content ++ 13 ∷ 10 ∷ u.rest

module _ (sha : Sha256) (cmac : Bytes → Bytes) where
  abbrev pub run_set : Upload → Store → Option (Outcome Served)
  run_set u s =
      serve_storage sha cmac u.process_started u.memory u.mem u.junk u.tree_mem u.conn s
        (storage_line nread_set u.storage) u.pieces

  -- The stores that these commands lead to, with the MACs enrolled, from an earlier store: a `set` that
  -- comes whole; a storage command that comes whole and is stored, but for append and prepend; one with
  -- bad data; any line of a storage command whose data never come; any delete, touch and get.
  pub data Session (s : Store) (xs : List Bytes) : Store → List Bytes → Type 0 where
    unchanged : Session s xs s xs
    set_served :
        {t t' : Store} {ys : List Bytes} (u : Upload) (left : Bytes) (reply : Option Reply)
        → Session s xs t ys
        → Sound u
        → length ys < capacity
        → item_size t.use_cas
            (length u.storage.key)
            u.storage.client_flags
            (u.storage.data_length + 2)
          ≤ t.slab_chunk_size_max
        → run_set u t ≡ some (done (served t' left reply))
        → Session s xs t' (ys ++ init_hash (cmac (u.content ++ 13 ∷ 10 ∷ [])) ∷ [])
    storage_stored :
        {t t' : Store} {ys : List Bytes} (process_started : ℕ) (m : Allocation) (mem : Bool)
        (junk : Bytes × ℕ) (tree_mem : ℕ → Bool) (c : Conn) (tokens pieces : List Bytes)
        (comm : Command) (handle_cas : Bool) (f : Fields) (left : Bytes) (reply : Option Reply)
        → Session s xs t ys
        → Complete process_started m t tokens handle_cas pieces f
        → ((l : ℕ) → tree_mem l ≡ true)
        → length ys < capacity
        → ends_crlf (take f.vlen (joined pieces)) ≡ true
        → joins comm ≡ false
        → (do_store_item mem junk false (uploaded m t tokens f pieces) (length t.heap) comm).1
          ≡ stored
        → storage_command sha cmac process_started m mem junk tree_mem c t tokens comm handle_cas
            pieces
          ≡ done (served t' left reply)
        → Session s xs t' (ys ++ init_hash (cmac (take f.vlen (joined pieces))) ∷ [])
    bad_data :
        {t t' : Store} {ys : List Bytes} (process_started : ℕ) (m : Allocation) (mem : Bool)
        (junk : Bytes × ℕ) (tree_mem : ℕ → Bool) (c : Conn) (tokens pieces : List Bytes)
        (comm : Command) (handle_cas : Bool) (f : Fields) (left : Bytes) (reply : Option Reply)
        → Session s xs t ys
        → Complete process_started m t tokens handle_cas pieces f
        → ends_crlf (take f.vlen (joined pieces)) ≡ false
        → storage_command sha cmac process_started m mem junk tree_mem c t tokens comm handle_cas
            pieces
          ≡ done (served t' left reply)
        → Session s xs t' ys
    line_taken :
        {t : Store} {ys : List Bytes} (process_started : ℕ) (m : Allocation) (c : Conn)
        (tokens : List Bytes) (comm : Command) (handle_cas : Bool)
        → Session s xs t ys
        → Session s xs
            (process_update_command process_started m c t tokens comm handle_cas).store
            ys
    delete_done :
        {t : Store} {ys : List Bytes} (c : Conn) (tokens : List Bytes)
        → Session s xs t ys
        → Session s xs (process_delete_command c t tokens).store ys
    touch_done :
        {t : Store} {ys : List Bytes} (process_started : ℕ) (queued : Bool) (c : Conn)
        (tokens : List Bytes)
        → Session s xs t ys
        → Session s xs (process_touch_command process_started queued c t tokens).store ys
    get_done :
        {t t' : Store} {ys : List Bytes} (queued : Bool) (key : Key) (r : Found)
        → Session s xs t ys
        → process_get sha queued t key ≡ done (t', r)
        → Session s xs t' ys

  module _ (digest : Bytes → Bytes) (works : IsSha256 sha digest)
      (bytes : (b : Bytes) → length (cmac b) ≡ 16) where
    set_served-Secured :
        (u : Upload) (t t' : Store) (ys : List Bytes) (left : Bytes) (reply : Option Reply)
        → Secured cmac digest t ys
        → Sound u
        → length ys < capacity
        → item_size t.use_cas
            (length u.storage.key)
            u.storage.client_flags
            (u.storage.data_length + 2)
          ≤ t.slab_chunk_size_max
        → run_set u t ≡ some (done (served t' left reply))
        → Secured cmac digest t' (ys ++ init_hash (cmac (u.content ++ 13 ∷ 10 ∷ [])) ∷ [])
    set_served-Secured u t t' ys left reply q h small one_piece run =
        let (s', run', kept, at, data') =
          serve_storage-set sha cmac digest u.process_started u.memory u.mem u.junk u.tree_mem
            u.conn t u.storage u.content u.rest u.pieces ys works bytes h.tree_granted q small
            h.granted h.sendable h.short one_piece h.whole h.input in
        let same : s' ≡ t' = cc (run, run') in
        subst (λ x. Secured cmac digest x (ys ++ init_hash (cmac (u.content ++ 13 ∷ 10 ∷ [])) ∷ []))
          same kept

    get_done-Secured :
        (queued : Bool) (t t' : Store) (ys : List Bytes) (key : Key) (r : Found)
        → Secured cmac digest t ys
        → process_get sha queued t key ≡ done (t', r)
        → Secured cmac digest t' ys
    get_done-Secured queued t t' ys key r q run =
        let (s', r', run', kept, sent) =
          process_get-Secured sha cmac digest queued t ys key works bytes q in
        let same : s' ≡ t' = cc (run, run') in subst (λ x. Secured cmac digest x ys) same kept

    -- From a store whose items are all covered by the tree, any sequence of the following commands leads to
    -- a store whose items are all covered, by the MACs that were enrolled before and those of the data of
    -- the commands that were stored, in order. The commands are: a `set`, and an add, replace or cas that
    -- is stored, whose data come whole, with room in the tree; any storage command whose data come whole,
    -- but do not end in "\r\n"; for these there is memory, and the item needs no chunks; the line of a
    -- storage command whose data never come; any delete, touch and get. Left out are a storage command that
    -- comes whole and is not stored, append, prepend, incr and decr: these can leave items uncovered.
    -- SHA-256 and AES-CMAC do what they promise.
    pub Session-Secured :
        (s : Store) (xs : List Bytes)
        → Secured cmac digest s xs
        → (t : Store) (ys : List Bytes) → Session s xs t ys
        → Secured cmac digest t ys
    Session-Secured s xs q _ _ unchanged = q
    Session-Secured s xs q _ _ (set_served {t} {t'} {ys} u left reply r h small one_piece run) =
        set_served-Secured u t t' ys left reply (Session-Secured s xs q t ys r) h small one_piece
          run
    Session-Secured s xs q _ _
          (storage_stored {t} {t'} {ys} process_started m mem junk tree_mem c tokens pieces comm
            handle_cas f left reply r h tree_granted small good alone is_stored run) =
        let (s', run', kept, _, _) =
          storage_command-stored sha cmac process_started m mem junk tree_mem c t tokens pieces comm
            handle_cas f h digest ys works bytes tree_granted (Session-Secured s xs q t ys r) small
            good alone is_stored in
        let same : s' ≡ t' = cc (run, run') in
        subst
          (λ x. Secured cmac digest x (ys ++ init_hash (cmac (take f.vlen (joined pieces))) ∷ []))
          same kept
    Session-Secured s xs q _ _
          (bad_data {t} {t'} {ys} process_started m mem junk tree_mem c tokens pieces comm
            handle_cas f left reply r h bad run) =
        let (s', run', kept) =
          storage_command-bad_data sha cmac process_started m mem junk tree_mem c t tokens pieces
            comm handle_cas f h digest ys (Session-Secured s xs q t ys r) bad in
        let same : s' ≡ t' = cc (run, run') in subst (λ x. Secured cmac digest x ys) same kept
    Session-Secured s xs q _ _ (line_taken {t} {ys} process_started m c tokens comm handle_cas r) =
        process_update_command-Covered cmac digest t ys (Session-Secured s xs q t ys r)
          process_started m c tokens comm handle_cas
    Session-Secured s xs q _ _ (delete_done {t} {ys} c tokens r) =
        process_delete_command-Covered cmac digest t ys (Session-Secured s xs q t ys r) c tokens
    Session-Secured s xs q _ _ (touch_done {t} {ys} process_started queued c tokens r) =
        (process_touch_command_lem cmac digest process_started queued c t tokens ys
          (Session-Secured s xs q t ys r)).0
    Session-Secured s xs q _ _ (get_done {t} {t'} {ys} queued key found r run) =
        get_done-Secured queued t t' ys key found (Session-Secured s xs q t ys r) run
