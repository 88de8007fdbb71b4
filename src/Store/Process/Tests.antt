-- ===== src/Store/Process/Tests.antt =====
-- memcached/proto_text.c: the commands on a small store.
use kvsev.Prelude.{ℕ, ◌≡◌, ◌∙◌, refl, ap, sym, true, false, some, List, [], ◌∷◌, arith}
use kvsev.Prelude.Bytes.{same_bytes}
use kvsev.Merkle.Config.{Bytes}
use kvsev.Merkle.Toy.{toy}
use kvsev.Text.Numbers.{
  has_byte, skip_space, sign, digits_from, starts_digit, scan, ends, unsigned_value,
  safe_strtoull_from, safe_strtoull, safe_strtoul, safe_strtol_from, safe_strtol,
  exptime_to_positive, realtime,
}
use kvsev.Store.Items.{Item, Store, item_at, modify}
use kvsev.Store.Command.{nread_set, ends_crlf}
use kvsev.Store.Core.{modify-Shrinks, modify-index}
use kvsev.Store.Secured.{Secured, Shrinks-Secured, item_at-modify_self}
use kvsev.Store.Tests.{toy_cmac, start, no_junk, leaves, after_set}
use kvsev.Store.Process.{
  Conn, Allocation, Fields, conn_new_cmd, conn_nread, set_noreply_maybe, cas_field, update_fields,
  delete_valid, nread, process_delete_command, process_touch_command, deleted, touched,
}
use kvsev.Store.Process.Receive.{received, nread_lem}
use kvsev.Store.Process.Delete.{Linked, Without, asked, process_delete_command_lem}
use kvsev.Store.Process.Touch.{process_touch_command_lem}

abbrev pub idle : Conn
idle = record {
  state = conn_new_cmd;
  noreply = false;
  item = 0;
  ritem = 0;
  rlbytes = 0;
  sbytes = 0;
  cmd = nread_set;
}

-- Three bytes awaited by the item at 0, which come in two pieces, and one byte more.
abbrev waiting : Conn
waiting = record idle { state = conn_nread; rlbytes = 3 }

abbrev pub pieces : List Bytes
pieces = (66 ∷ []) ∷ (13 ∷ 10 ∷ 103 ∷ []) ∷ []

nread_lem_example : nread waiting start pieces ≡ received waiting start (66 ∷ 13 ∷ 10 ∷ 103 ∷ [])
nread_lem_example = nread_lem pieces waiting start (omega arith) refl (omega arith)

-- "set k 0 0 1", with the key of one byte.
abbrev set_line : List Bytes
set_line = (115 ∷ 101 ∷ 116 ∷ []) ∷ (2 ∷ []) ∷ (48 ∷ []) ∷ (48 ∷ []) ∷ (49 ∷ []) ∷ []

abbrev pub memory : Allocation
memory = record { granted = true; junk = no_junk; held = []; item_size_ok = true }

abbrev set_fields : Fields
set_fields = record { flags = 0; exptime = 0; vlen = 3; req_cas_id = 0 }

program : Unit {0}
unfolding has_byte skip_space sign digits_from starts_digit scan ends unsigned_value
    safe_strtoull_from safe_strtoull safe_strtoul safe_strtol_from safe_strtol exptime_to_positive
    realtime cas_field update_fields delete_valid set_noreply_maybe same_bytes ends_crlf
program = tt

set_line_fields : update_fields 100 start set_line false ≡ some set_fields
unfolding program
set_line_fields = refl

good_pieces : ends_crlf (66 ∷ 13 ∷ 10 ∷ []) ≡ true
unfolding program
good_pieces = refl

-- The store after a set, with its item marked as linked.
abbrev mark : Item → Item
mark o = record o { linked = true }

abbrev marked : Store
marked = modify after_set.0 0 mark

marked-Secured : Secured toy_cmac toy marked leaves
marked-Secured =
    Shrinks-Secured toy_cmac toy after_set.0 marked leaves
      (modify-Shrinks after_set.0 0 mark (λ o. refl)) after_set.1

-- "delete k"
abbrev delete_line : List Bytes
delete_line = (100 ∷ 101 ∷ 108 ∷ 101 ∷ 116 ∷ 101 ∷ []) ∷ (1 ∷ []) ∷ []

marked-Linked : Linked marked (1 ∷ [])
marked-Linked a h =
    let at : after_set.0.index (1 ∷ []) ≡ some a =
      sym (ap (λ m. m (1 ∷ [])) (modify-index after_set.0 0 mark)) ∙ h in
    let zero_a : a ≡ 0 = cc (at, after_set.2) in
    let inside = (after_set.1.covered (1 ∷ []) 0 after_set.2).0 in
    (
      (marked-Secured.covered (1 ∷ []) a h).1.key,
      ap (λ b. (item_at marked b).linked) zero_a
          ∙ ap (λ o. o.linked) (item_at-modify_self after_set.0 0 mark inside),
    )

delete_line_valid : delete_valid (asked idle delete_line) delete_line ≡ true
unfolding program
delete_line_valid = refl

process_delete_command_lem_example :
    Secured toy_cmac toy (process_delete_command idle marked delete_line).store leaves
    × Without marked (1 ∷ []) (process_delete_command idle marked delete_line).store
    × ((process_delete_command idle marked delete_line).sent ≡ some deleted
        → (a : ℕ) × (marked.index (1 ∷ []) ≡ some a))
process_delete_command_lem_example =
    process_delete_command_lem toy_cmac toy idle marked delete_line leaves marked-Secured
      marked-Linked delete_line_valid (omega arith)

-- "touch k 5"
abbrev touch_line : List Bytes
touch_line = (116 ∷ 111 ∷ 117 ∷ 99 ∷ 104 ∷ []) ∷ (1 ∷ []) ∷ (53 ∷ []) ∷ []

process_touch_command_lem_example :
    Secured toy_cmac toy (process_touch_command 100 false idle marked touch_line).store leaves
    × ((process_touch_command 100 false idle marked touch_line).sent ≡ some touched
        → (a : ℕ) × (w : ℕ) × (marked.index (1 ∷ []) ≡ some a)
          × (safe_strtol (53 ∷ []) ≡ some w)
          × ((item_at (process_touch_command 100 false idle marked touch_line).store a).exptime
              ≡ realtime 100 marked.current_time (exptime_to_positive w)))
process_touch_command_lem_example =
    process_touch_command_lem toy_cmac toy 100 false idle marked touch_line leaves marked-Secured
