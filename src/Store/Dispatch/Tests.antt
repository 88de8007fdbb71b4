-- ===== src/Store/Dispatch/Tests.antt =====
-- memcached/proto_text.c: lines on concrete bytes.
use kvsev.Prelude.{◌+◌, ◌≡◌, refl, true, false, some, List, [], ◌∷◌, ◌++◌, length, arith}
use kvsev.Prelude.Bytes.{same_bytes}
use kvsev.Prelude.Outcome.{done}
use kvsev.Merkle.Config.{Bytes}
use kvsev.Merkle.Tree.{init_hash}
use kvsev.Merkle.Toy.{toy, toy_sha, toy_works}
use kvsev.Text.Numbers.{has_byte}
use kvsev.Text.Tokens.{tokenize_loop, last_token, tokenize_command}
use kvsev.Store.Items.{Store, item_at}
use kvsev.Store.Command.{nread_set, nread_cas, stored, answered}
use kvsev.Store.Secured.{Secured}
use kvsev.Store.Tests.{toy_cmac, start, empty_leaves, no_junk, granted, start-Secured}
use kvsev.Store.Process.{served, update_fields, process_delete_command}
use kvsev.Store.Process.Tests.{idle, memory, pieces}
use kvsev.Store.Dispatch
use kvsev.Store.Dispatch.{update, get, closing, wrong, process_command, serve_storage}
use kvsev.Store.Dispatch.Counts.{Counted, process_command-Counted}
use kvsev.Store.Dispatch.Line.{
  Storage, Sendable, command_word, arguments, storage_line, fields_of, process_command-storage_line,
}
use kvsev.Store.Dispatch.Serve.{serve_storage-set}
use kvsev.Store.Dispatch.Session.{
  Upload, Sound, unchanged, set_served, delete_done, Session-Secured,
}

-- The choice evaluated.
program : Unit {0}
unfolding tokenize_loop last_token tokenize_command Dispatch.token_texts Dispatch.choose
    process_command Dispatch.request_of Dispatch.meta_request Dispatch.get_request
    Dispatch.set_request Dispatch.add_request Dispatch.cas_request Dispatch.delete_request
    Dispatch.other_request Dispatch.want_tokens_or Dispatch.want_tokens Dispatch.want_tokens_min
    same_bytes has_byte
program = tt

-- "get k"
get_line : (process_command (103 ∷ 101 ∷ 116 ∷ 32 ∷ 107 ∷ [])).0 ≡ get false false
unfolding program
get_line = refl

-- "GET / HTTP/1"
http_line :
    (process_command (71 ∷ 69 ∷ 84 ∷ 32 ∷ 47 ∷ 32 ∷ 72 ∷ 84 ∷ 84 ∷ 80 ∷ 47 ∷ 49 ∷ [])).0 ≡ closing
unfolding program
http_line = refl

-- "set k", whose tokens are too few.
short_line : (process_command (115 ∷ 101 ∷ 116 ∷ 32 ∷ 107 ∷ [])).0 ≡ wrong
unfolding program
short_line = refl

process_command-Counted_example :
    Counted
      (length (process_command (103 ∷ 101 ∷ 116 ∷ 32 ∷ 107 ∷ [])).1 + 1)
      (process_command (103 ∷ 101 ∷ 116 ∷ 32 ∷ 107 ∷ [])).0
process_command-Counted_example = process_command-Counted (103 ∷ 101 ∷ 116 ∷ 32 ∷ 107 ∷ [])

-- A command with the key "k" and one byte of data.
abbrev sent : Storage
sent = record { key = 107 ∷ []; client_flags = 5; exptime = 60; data_length = 1; cas_unique = 9 }

no_zero : has_byte 0 (107 ∷ []) ≡ false
unfolding program
no_zero = refl

sent-Sendable : Sendable sent
sent-Sendable = record {
  key_word = record { whole = refl; string = no_zero; some_byte = omega arith };
  flags_fit = omega arith;
  exptime_fits = omega arith;
  data_fit = omega arith;
  cas_fits = omega arith;
}

process_command-storage_line_example :
    (process_command (storage_line nread_cas sent)
      ≡ (update nread_cas true, command_word nread_cas ∷ arguments nread_cas sent))
    × (update_fields 100 start (process_command (storage_line nread_cas sent)).1 true
        ≡ some (fields_of 100 start nread_cas sent))
process_command-storage_line_example =
    process_command-storage_line 100 start nread_cas sent sent-Sendable

serve_storage-set_example :
    (s' : Store) × (serve_storage toy_sha toy_cmac 100 memory true no_junk granted idle start
        (storage_line nread_set sent)
        pieces
      ≡ some (done (served s' (103 ∷ []) (some (answered stored)))))
    × Secured toy_cmac toy s' (empty_leaves ++ init_hash (toy_cmac (66 ∷ 13 ∷ 10 ∷ [])) ∷ [])
    × (s'.index (107 ∷ []) ≡ some 1)
    × ((item_at s' 1).item_data ≡ 66 ∷ 13 ∷ 10 ∷ [])
serve_storage-set_example =
    serve_storage-set toy_sha toy_cmac toy 100 memory true no_junk granted idle start sent (66 ∷ [])
      (103 ∷ []) pieces empty_leaves toy_works (λ m. refl) (λ l. refl) start-Secured (omega arith)
      refl sent-Sendable (omega arith) (omega arith) refl refl

-- The set, and a delete of the key after it.
first_set :
    (s' : Store) × (serve_storage toy_sha toy_cmac 100 memory true no_junk granted idle start
        (storage_line nread_set sent)
        pieces
      ≡ some (done (served s' (103 ∷ []) (some (answered stored)))))
    × Secured toy_cmac toy s' (empty_leaves ++ init_hash (toy_cmac (66 ∷ 13 ∷ 10 ∷ [])) ∷ [])
    × (s'.index (107 ∷ []) ≡ some 1)
    × ((item_at s' 1).item_data ≡ 66 ∷ 13 ∷ 10 ∷ [])
first_set =
    serve_storage-set toy_sha toy_cmac toy 100 memory true no_junk granted idle start sent (66 ∷ [])
      (103 ∷ []) pieces empty_leaves toy_works (λ m. refl) (λ l. refl) start-Secured (omega arith)
      refl sent-Sendable (omega arith) (omega arith) refl refl

abbrev upload : Upload
upload = record {
  process_started = 100;
  memory = memory;
  mem = true;
  junk = no_junk;
  tree_mem = granted;
  conn = idle;
  storage = sent;
  content = 66 ∷ [];
  rest = 103 ∷ [];
  pieces = pieces;
}

upload-Sound : Sound upload
upload-Sound = record {
  granted = refl;
  tree_granted = λ l. refl;
  sendable = sent-Sendable;
  short = omega arith;
  whole = refl;
  input = refl;
}

abbrev delete_line : List Bytes
delete_line = (100 ∷ 101 ∷ 108 ∷ 101 ∷ 116 ∷ 101 ∷ []) ∷ (107 ∷ []) ∷ []

abbrev both : List Bytes
both = empty_leaves ++ init_hash (toy_cmac (66 ∷ 13 ∷ 10 ∷ [])) ∷ []

Session-Secured_example :
    Secured toy_cmac toy (process_delete_command idle first_set.0 delete_line).store both
Session-Secured_example =
    Session-Secured toy_sha toy_cmac toy toy_works (λ m. refl) start empty_leaves start-Secured
      (process_delete_command idle first_set.0 delete_line).store both
      (delete_done idle delete_line (
        set_served upload (103 ∷ []) (some (answered stored)) unchanged upload-Sound (omega arith)
          (omega arith) first_set.1))
