-- ===== src/Store/Dispatch.antt =====
-- memcached/proto_text.c: process_command, which cuts a line into tokens and chooses the handler. A line
-- is a string of C: no byte of it is 0. The commands of the builds with MEMCACHED_DEBUG, EXTSTORE and TLS
-- are left out, and so is a response object that cannot be had.
pub mod Line
pub mod Counts
pub mod Serve
pub mod Session
mod Tests
use kvsev.Prelude.{
  Option, none, some, ℕ, ◌+◌, ◌-◌, Bool, true, false, ◌&&◌, ◌||◌, List, [], ◌∷◌, ltb, ◌==◌,
  if◌then◌else◌, length, map, take, get_or,
}
use kvsev.Prelude.Bytes.{same_bytes}
use kvsev.Prelude.Outcome.{Outcome}
use kvsev.Merkle.Config.{Bytes}
use kvsev.Merkle.Hash.{Sha256}
use kvsev.Text.Tokens.{tokenize_command}
use kvsev.Text.Tokens.Words.{text}
use kvsev.Store.Command.{
  Command, nread_add, nread_set, nread_replace, nread_append, nread_prepend, nread_cas,
}
use kvsev.Store.Items.{Store}
use kvsev.Store.Process.{token, Conn, Allocation, Served, storage_command}

-- The handler that is called, with its flags; or the reply "ERROR", or the end of the connection.
data Request : Type 0 where
  update : Command → Bool → Request
  arithmetic : Bool → Request
  get : Bool → Bool → Request
  delete touch flush_all verbosity version quit memlimit stat shutdown slabs : Request
  lru lru_crawler watch : Request
  mget mset mdelete mnoop marithmetic meta : Request
  wrong closing : Request

abbrev word_get : Bytes
word_get = 103 ∷ 101 ∷ 116 ∷ []

abbrev word_gets : Bytes
word_gets = 103 ∷ 101 ∷ 116 ∷ 115 ∷ []

abbrev word_gat : Bytes
word_gat = 103 ∷ 97 ∷ 116 ∷ []

abbrev word_gats : Bytes
word_gats = 103 ∷ 97 ∷ 116 ∷ 115 ∷ []

abbrev word_set : Bytes
word_set = 115 ∷ 101 ∷ 116 ∷ []

abbrev word_stats : Bytes
word_stats = 115 ∷ 116 ∷ 97 ∷ 116 ∷ 115 ∷ []

abbrev word_shutdown : Bytes
word_shutdown = 115 ∷ 104 ∷ 117 ∷ 116 ∷ 100 ∷ 111 ∷ 119 ∷ 110 ∷ []

abbrev word_slabs : Bytes
word_slabs = 115 ∷ 108 ∷ 97 ∷ 98 ∷ 115 ∷ []

abbrev word_add : Bytes
word_add = 97 ∷ 100 ∷ 100 ∷ []

abbrev word_append : Bytes
word_append = 97 ∷ 112 ∷ 112 ∷ 101 ∷ 110 ∷ 100 ∷ []

abbrev word_cas : Bytes
word_cas = 99 ∷ 97 ∷ 115 ∷ []

abbrev word_cache_memlimit : Bytes
word_cache_memlimit =
    99 ∷ 97 ∷ 99 ∷ 104 ∷ 101 ∷ 95 ∷ 109 ∷ 101 ∷ 109 ∷ 108 ∷ 105 ∷ 109 ∷ 105 ∷ 116 ∷ []

abbrev word_incr : Bytes
word_incr = 105 ∷ 110 ∷ 99 ∷ 114 ∷ []

abbrev word_delete : Bytes
word_delete = 100 ∷ 101 ∷ 108 ∷ 101 ∷ 116 ∷ 101 ∷ []

abbrev word_decr : Bytes
word_decr = 100 ∷ 101 ∷ 99 ∷ 114 ∷ []

abbrev word_touch : Bytes
word_touch = 116 ∷ 111 ∷ 117 ∷ 99 ∷ 104 ∷ []

abbrev word_replace : Bytes
word_replace = 114 ∷ 101 ∷ 112 ∷ 108 ∷ 97 ∷ 99 ∷ 101 ∷ []

abbrev word_prepend : Bytes
word_prepend = 112 ∷ 114 ∷ 101 ∷ 112 ∷ 101 ∷ 110 ∷ 100 ∷ []

abbrev word_bget : Bytes
word_bget = 98 ∷ 103 ∷ 101 ∷ 116 ∷ []

abbrev word_flush_all : Bytes
word_flush_all = 102 ∷ 108 ∷ 117 ∷ 115 ∷ 104 ∷ 95 ∷ 97 ∷ 108 ∷ 108 ∷ []

abbrev word_version : Bytes
word_version = 118 ∷ 101 ∷ 114 ∷ 115 ∷ 105 ∷ 111 ∷ 110 ∷ []

abbrev word_quit : Bytes
word_quit = 113 ∷ 117 ∷ 105 ∷ 116 ∷ []

abbrev word_lru_crawler : Bytes
word_lru_crawler = 108 ∷ 114 ∷ 117 ∷ 95 ∷ 99 ∷ 114 ∷ 97 ∷ 119 ∷ 108 ∷ 101 ∷ 114 ∷ []

abbrev word_watch : Bytes
word_watch = 119 ∷ 97 ∷ 116 ∷ 99 ∷ 104 ∷ []

abbrev word_verbosity : Bytes
word_verbosity = 118 ∷ 101 ∷ 114 ∷ 98 ∷ 111 ∷ 115 ∷ 105 ∷ 116 ∷ 121 ∷ []

abbrev word_lru : Bytes
word_lru = 108 ∷ 114 ∷ 117 ∷ []

abbrev http_start : Bytes
http_start = 72 ∷ 84 ∷ 84 ∷ 80 ∷ 47 ∷ []

-- `WANT_TOKENS_OR`, `WANT_TOKENS` and `WANT_TOKENS_MIN`, before the handler.
unfoldable want_tokens_or : ℕ → ℕ → ℕ → Request → Request
want_tokens_or ntokens a b r = if ntokens == a || ntokens == b then r else wrong

unfoldable want_tokens : ℕ → ℕ → ℕ → Request → Request
want_tokens ntokens least most r = if ltb ntokens least || ltb most ntokens then wrong else r

unfoldable want_tokens_min : ℕ → ℕ → Request → Request
want_tokens_min ntokens least r = if ltb ntokens least then wrong else r

-- A meta command, by its second letter.
unfoldable meta_request : ℕ → Request
meta_request second =
    if second == 103
    then mget
    else if second == 115
    then mset
    else if second == 100
    then mdelete
    else if second == 110
    then mnoop
    else if second == 97
    then marithmetic
    else if second == 101
    then meta
    else wrong

-- The commands that start with "g", "s", "a", "c" and "d".
unfoldable get_request : Bytes → Request
get_request w =
    if same_bytes w word_get
    then get false false
    else if same_bytes w word_gets
    then get true false
    else if same_bytes w word_gat
    then get false true
    else if same_bytes w word_gats
    then get true true
    else wrong

unfoldable set_request : Bytes → ℕ → Request
set_request w ntokens =
    if same_bytes w word_set
    then want_tokens_or ntokens 6 7 (update nread_set false)
    else if same_bytes w word_stats
    then stat
    else if same_bytes w word_shutdown
    then shutdown
    else if same_bytes w word_slabs
    then slabs
    else wrong

unfoldable add_request : Bytes → ℕ → Request
add_request w ntokens =
    if same_bytes w word_add
    then want_tokens_or ntokens 6 7 (update nread_add false)
    else if same_bytes w word_append
    then want_tokens_or ntokens 6 7 (update nread_append false)
    else wrong

unfoldable cas_request : Bytes → ℕ → Request
cas_request w ntokens =
    if same_bytes w word_cas
    then want_tokens_or ntokens 7 8 (update nread_cas true)
    else if same_bytes w word_cache_memlimit
    then want_tokens_or ntokens 3 4 memlimit
    else wrong

unfoldable delete_request : Bytes → ℕ → Request
delete_request w ntokens =
    if same_bytes w word_delete
    then want_tokens ntokens 3 5 delete
    else if same_bytes w word_decr
    then want_tokens_or ntokens 4 5 (arithmetic false)
    else wrong

-- The other commands; `last` is the last token before the terminal one.
unfoldable other_request : Bytes → Bytes → ℕ → Request
other_request w last ntokens =
    if same_bytes w word_replace
    then want_tokens_or ntokens 6 7 (update nread_replace false)
    else if same_bytes w word_prepend
    then want_tokens_or ntokens 6 7 (update nread_prepend false)
    else if same_bytes w word_bget
    then want_tokens_min ntokens 3 (get false false)
    else if same_bytes w word_flush_all
    then want_tokens ntokens 2 4 flush_all
    else if same_bytes w word_version
    then version
    else if same_bytes w word_quit
    then quit
    else if same_bytes w word_lru_crawler
    then lru_crawler
    else if same_bytes w word_watch
    then watch
    else if same_bytes w word_verbosity
    then want_tokens_or ntokens 3 4 verbosity
    else if same_bytes w word_lru
    then want_tokens_min ntokens 3 lru
    else if same_bytes (take 5 last) http_start
    then closing
    else wrong

-- The handler for the first word `w`, by its first and second letter.
unfoldable request_of : ℕ → ℕ → Bytes → Bytes → ℕ → Request
request_of first second w last ntokens =
    if first == 109 && length w == 2
    then meta_request second
    else if first == 103
    then want_tokens_min ntokens 3 (get_request w)
    else if first == 115
    then set_request w ntokens
    else if first == 97
    then add_request w ntokens
    else if first == 99
    then cas_request w ntokens
    else if first == 105
    then if same_bytes w word_incr then want_tokens_or ntokens 4 5 (arithmetic true) else wrong
    else if first == 100
    then delete_request w ntokens
    else if first == 116
    then if same_bytes w word_touch then want_tokens_or ntokens 4 5 touch else wrong
    else other_request w last ntokens

-- `value[i]`
abbrev byte_at : Bytes → ℕ → ℕ
byte_at w i = get_or w i 0

abbrev max_tokens : ℕ
max_tokens = 24

-- The texts of the tokens of a line, without the terminal one.
unfoldable token_texts : Bytes → List Bytes
token_texts command = map (text command) (tokenize_command command max_tokens).0

-- `process_command`, from the tokens.
unfoldable choose : List Bytes → Request
choose tokens =
    let ntokens = length tokens + 1 in
    let w = token tokens 0 in
    if ltb ntokens 2 || ltb (length w) 2
    then wrong
    else request_of (byte_at w 0) (byte_at w 1) w (token tokens (ntokens - 2)) ntokens

unfoldable process_command : Bytes → Request × List Bytes
process_command command = let tokens = token_texts command in (choose tokens, tokens)

module _ (sha : Sha256) (cmac : Bytes → Bytes) where
  -- A storage command, from its line and the pieces of its data to the reply; `none` for the others.
  unfoldable serve_storage :
      ℕ
      → Allocation
      → Bool
      → Bytes × ℕ
      → (ℕ → Bool)
      → Conn
      → Store
      → Bytes
      → List Bytes
      → Option (Outcome Served)
  serve_storage process_started m mem junk tree_mem c s command pieces =
      let chosen = process_command command in
      elim chosen.0 [
        | update comm handle_cas ↦ some (
            storage_command sha cmac process_started m mem junk tree_mem c s chosen.1 comm
              handle_cas pieces)
        | _ ↦ none
      ]
