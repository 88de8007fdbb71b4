-- ===== src/Store/Process.antt =====
-- memcached/proto_text.c: the commands of the text protocol that change items, from their tokens to the
-- reply, and the read of an item's data from the connection (conn_nread of memcached/memcached.c). The
-- counters of the statistics are left out.
pub mod Receive
pub mod Beside
pub mod Update
pub mod Complete
pub mod Accept
pub mod Delete
pub mod Touch
pub mod Tests
use kvsev.Prelude.{
  ℕ, ◌+◌, ◌-◌, ◌%◌, ◌^◌, min, Bool, true, false, ◌&&◌, ◌||◌, Option, none, some, List, [], ◌∷◌,
  ◌++◌, ltb, ◌==◌, if◌then◌else◌, length, take, drop, get_or, replicate, map,
}
use kvsev.Prelude.Bytes.{same_bytes}
use kvsev.Prelude.Outcome.{Outcome, done, ◌>>=◌}
use kvsev.Merkle.Config.{Bytes}
use kvsev.Merkle.Hash.{Sha256}
use kvsev.Text.Numbers.{
  safe_strtoull, safe_strtoul, safe_strtol, is_negative, exptime_to_positive, realtime,
}
use kvsev.Store.Items.{
  Item, Store, item_at, is_chunked, modify, item_set_cas, do_item_remove, do_item_unlink,
  do_item_get, do_item_alloc,
}
pub use kvsev.Store.Items.{key_max_length}
use kvsev.Store.Command.{
  Command, nread_add, nread_set, nread_replace, nread_append, nread_prepend, nread_cas, Reply,
  complete_nread_ascii,
}

-- What `out_string` is called with.
pub data Line : Type 0 where
  error bad_line delete_usage invalid_exptime invalid_delta object_too_large out_of_memory_storing :
      Line
  out_of_memory cannot_increment touched deleted not_found : Line
  number : Bytes → Line

pub data ConnState : Type 0 where
  conn_new_cmd conn_nread conn_swallow : ConnState

-- The fields of `conn` that a storage command uses: `ritem` is an offset in the data of `item`.
pub record Conn : Type 0 where
  pub state : ConnState
  pub noreply : Bool
  pub item : ℕ
  pub ritem : ℕ
  pub rlbytes : ℕ
  pub sbytes : ℕ
  pub cmd : Command

-- The connection and the store after a command, and what is sent.
pub record Turn : Type 0 where
  pub conn : Conn
  pub store : Store
  pub sent : Option Line

unfoldable pub out_string : Conn → Store → Line → Turn
out_string c s line = record {
  conn = record c { state = conn_new_cmd };
  store = s;
  sent = if c.noreply then none else some line;
}

-- The text of a token; `ntokens` counts the terminal token too.
abbrev pub token : List Bytes → ℕ → Bytes
token tokens i = get_or tokens i []

abbrev pub key_token : List Bytes → Bytes
key_token tokens = token tokens 1

-- "noreply" and "0"
abbrev pub noreply_word : Bytes
noreply_word = 110 ∷ 111 ∷ 114 ∷ 101 ∷ 112 ∷ 108 ∷ 121 ∷ []

abbrev zero_word : Bytes
zero_word = 48 ∷ []

unfoldable pub set_noreply_maybe : Conn → List Bytes → Conn
set_noreply_maybe c tokens =
    if same_bytes (token tokens (length tokens - 1)) noreply_word
    then record c { noreply = true }
    else c

-- What the allocator answers: whether there is memory, what it holds, and whether the size is one that
-- can be had at all (`item_size_ok`).
pub record Allocation : Type 0 where
  pub granted : Bool
  pub junk : Bytes × ℕ
  pub held : Bytes
  pub item_size_ok : Bool

-- `n` bytes of what the memory holds.
abbrev pub bytes_held : Allocation → ℕ → Bytes
bytes_held m n = take n (m.held ++ replicate n 0)

-- The numbers of a storage command: the client flags, the expiry time, the length of the data and the CAS value.
pub record Fields : Type 0 where
  pub flags : ℕ
  pub exptime : ℕ
  pub vlen : ℕ
  pub req_cas_id : ℕ

unfoldable pub cas_field : List Bytes → Bool → Option ℕ
cas_field tokens handle_cas = if handle_cas then safe_strtoull (token tokens 5) else some 0

unfoldable pub update_fields : ℕ → Store → List Bytes → Bool → Option Fields
update_fields process_started s tokens handle_cas = elim (safe_strtoul (token tokens 2)) [
  | none ↦ none
  | some flags ↦ elim (safe_strtol (token tokens 3)) [
    | none ↦ none
    | some exptime_int ↦ elim (safe_strtol (token tokens 4)) [
      | none ↦ none
      | some vlen ↦ elim (cas_field tokens handle_cas) [
        | none ↦ none
        | some req_cas_id ↦
            if is_negative vlen || ltb (2 ^ 31 - 3) vlen
            then none
            else some (record {
              flags = flags;
              exptime = realtime process_started s.current_time (exptime_to_positive exptime_int);
              vlen = vlen + 2;
              req_cas_id = req_cas_id;
            })
      ]
    ]
  ]
]

-- Without memory a `set` takes the old item away, so that it does not stay as stale.
unfoldable pub drop_old : Store → Bytes → Command → Store
drop_old s key nread_set =
    let found = do_item_get none s key in
    elim found.1 [ none ↦ found.0 | some old ↦ do_item_remove (do_item_unlink found.0 old) old ]
drop_old s key comm = s

unfoldable pub no_item : Conn → Store → Bytes → ℕ → Command → Bool → Turn
no_item c s key vlen comm size_ok =
    let line = if size_ok then out_of_memory_storing else object_too_large in
    let turn : Turn = out_string c (drop_old s key comm) line in
    record turn { conn = record turn.conn { state = conn_swallow; sbytes = vlen } }

unfoldable pub new_item : Conn → Store → ℕ → Fields → Command → Turn
new_item c s a f comm = record {
  conn = record c { state = conn_nread; item = a; ritem = 0; rlbytes = f.vlen; cmd = comm };
  store = modify s a (item_set_cas f.req_cas_id);
  sent = none;
}

unfoldable pub process_update_command :
    ℕ → Allocation → Conn → Store → List Bytes → Command → Bool → Turn
process_update_command process_started m c0 s tokens comm handle_cas =
    let c = set_noreply_maybe c0 tokens in
    let key = key_token tokens in
    if ltb key_max_length (length key)
    then out_string c s bad_line
    else elim (update_fields process_started s tokens handle_cas) [
      | none ↦ out_string c s bad_line
      | some f ↦
          elim (do_item_alloc m.granted m.junk s key f.flags f.exptime (bytes_held m f.vlen)) [
            | none ↦ no_item c s key f.vlen comm m.item_size_ok
            | some (s', a) ↦ new_item c s' a f comm
          ]
    ]

-- `memmove(c->ritem, ..., n)` or a read of `n` bytes to there.
abbrev pub written : Bytes → ℕ → Bytes → Bytes
written old at piece = take at old ++ (piece ++ drop (at + length piece) old)

-- One round of `conn_nread`: as many of the bytes that are there as the item wants; the rest stays.
unfoldable pub nread_step : Conn → Store → Bytes → Conn × Store × Bytes
nread_step c s bytes =
    let n = min (length bytes) c.rlbytes in
    (
      record c { ritem = c.ritem + n; rlbytes = c.rlbytes - n },
      modify s c.item (λ o. record o { item_data = written o.item_data c.ritem (take n bytes) }),
      drop n bytes,
    )

abbrev pub joined : List Bytes → Bytes
joined [] = []
joined (p ∷ pieces) = p ++ joined pieces

-- The rounds until the data are whole, one piece of input each.
unfoldable pub nread : Conn → Store → List Bytes → Conn × Store × Bytes
nread c s [] = (c, s, [])
nread c s (p ∷ pieces) =
    let (c', s', rest) = nread_step c s p in
    let (c'', s'', more) = nread c' s' pieces in
    if c.rlbytes == 0 then (c, s, p ++ joined pieces) else (c'', s'', rest ++ more)

-- `item_touch`
unfoldable pub do_item_touch : Bool → Store → Bytes → ℕ → Store × Option ℕ
do_item_touch queued s key exptime =
    let found = do_item_get (some queued) s key in
    elim found.1 [
      | none ↦ (found.0, none)
      | some a ↦ (modify found.0 a (λ o. record o { exptime = exptime }), some a)
    ]

unfoldable pub process_touch_command : ℕ → Bool → Conn → Store → List Bytes → Turn
process_touch_command process_started queued c0 s tokens =
    let c = set_noreply_maybe c0 tokens in
    let key = key_token tokens in
    if ltb key_max_length (length key)
    then out_string c s bad_line
    else elim (safe_strtol (token tokens 2)) [
      | none ↦ out_string c s invalid_exptime
      | some exptime_int ↦
          let exptime = realtime process_started s.current_time (exptime_to_positive exptime_int) in
          let found = do_item_touch queued s key exptime in
          elim found.1 [
            | none ↦ out_string c found.0 not_found
            | some a ↦ out_string c (do_item_remove found.0 a) touched
          ]
    ]

unfoldable pub delete_valid : Conn → List Bytes → Bool
delete_valid c tokens =
    let ntokens = length tokens + 1 in
    let hold_is_zero = same_bytes (token tokens 2) zero_word in
    if ltb 3 ntokens
    then (ntokens == 4 && (hold_is_zero || c.noreply))
      || (ntokens == 5 && (hold_is_zero && c.noreply))
    else true

unfoldable pub process_delete_command : Conn → Store → List Bytes → Turn
process_delete_command c0 s tokens =
    let c = if ltb 3 (length tokens + 1) then set_noreply_maybe c0 tokens else c0 in
    let key = key_token tokens in
    let found = do_item_get none s key in
    if delete_valid c tokens
    then if ltb key_max_length (length key) then out_string c s bad_line else elim found.1 [
      | none ↦ out_string c found.0 not_found
      | some a ↦ out_string c (do_item_remove (do_item_unlink found.0 a) a) deleted
    ]
    else out_string c s delete_usage

-- A storage command and its data: refused at its line, what is left of the input and the reply of
-- complete_nread_ascii, or data that are still missing. The upload of an item in chunks is not followed.
pub data Served : Type 0 where
  refused : Turn → Served
  served : Store → Bytes → Option Reply → Served
  awaits : Conn → Store → Served
  in_chunks : Turn → Served

module _ (sha : Sha256) (cmac : Bytes → Bytes) where
  -- The state conn_nread of `drive_machine`: with all the data read, and only then, `complete_nread`.
  unfoldable pub complete_nread :
      Bool → Bytes × ℕ → (ℕ → Bool) → Conn × Store × Bytes → Outcome Served
  complete_nread mem junk tree_mem (c, s, rest) = elim (c.rlbytes == 0) [
    | false ↦ done (awaits c s)
    | true ↦ complete_nread_ascii sha cmac mem junk tree_mem false s c.item c.cmd >>= λ r.
        done (served r.0 rest (if c.noreply then none else some r.1))
  ]

  -- `drive_machine` from the command line on, until the item is complete or the input is used up.
  unfoldable pub finish_update : Bool → Bytes × ℕ → (ℕ → Bool) → Turn → List Bytes → Outcome Served
  finish_update mem junk tree_mem turn pieces = elim turn.conn.state [
    | conn_nread ↦ elim (is_chunked turn.store (item_at turn.store turn.conn.item)) [
      | true ↦ done (in_chunks turn)
      | false ↦ complete_nread mem junk tree_mem (nread turn.conn turn.store pieces)
    ]
    | _ ↦ done (refused turn)
  ]

  unfoldable pub storage_command :
      ℕ
      → Allocation
      → Bool
      → Bytes × ℕ
      → (ℕ → Bool)
      → Conn
      → Store
      → List Bytes
      → Command
      → Bool
      → List Bytes
      → Outcome Served
  storage_command process_started m mem junk tree_mem c s tokens comm handle_cas pieces =
      finish_update mem junk tree_mem
        (process_update_command process_started m c s tokens comm handle_cas) pieces
