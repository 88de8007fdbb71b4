-- ===== src/Store/Delta.antt =====
-- memcached/memcached.c: do_add_delta, and process_arithmetic_command of memcached/proto_text.c. `itoa_u64`
-- is the parameter `print`; `beyond` are the bytes of memory behind an item's data, to the next 0.
pub mod Value
pub mod Effect
mod Tests
use kvsev.Prelude.{
  ℕ, ◌+◌, ◌-◌, ◌%◌, Bool, true, false, ◌&&◌, ◌||◌, not, Option, none, some, List, [], ◌∷◌, ◌++◌,
  ltb, leb, ◌==◌, if◌then◌else◌, length, drop, replicate,
}
use kvsev.Merkle.Config.{Bytes}
use kvsev.Text.Numbers.{safe_strtoull}
use kvsev.Store.Items.{
  Item, Store, item_at, modify, item_get_cas, item_set_cas, do_item_remove, do_item_replace,
  do_item_update, do_item_get, do_item_alloc, u64,
}
use kvsev.Store.Process.{
  Conn, Turn, Line, out_string, token, key_token, key_max_length, set_noreply_maybe, bad_line,
  invalid_delta, cannot_increment, out_of_memory, not_found, number,
}

pub data DeltaResult : Type 0 where
  ok non_numeric eom delta_item_not_found delta_item_cas_mismatch : DeltaResult

-- The store, the result, the text in `buf` and what `cas` points to.
pub record Delta : Type 0 where
  pub store : Store
  pub result : DeltaResult
  pub buf : Bytes
  pub cas : Option ℕ

unfoldable pub new_value : Bool → ℕ → ℕ → ℕ
new_value incr delta value =
    if incr then (value + delta) % u64 else if ltb value delta then 0 else value - delta

-- The number over the old data: spaces up to the closing two bytes.
unfoldable pub overwritten : Bytes → Bytes → Bytes
overwritten buf old =
    buf ++ (replicate (length old - length buf - 2) 32 ++ drop (length old - 2) old)

-- The branch that replaces in place. The MAC and the index of the leaf stay.
unfoldable pub replace_in_place : Store → ℕ → Bytes → Store
replace_in_place s a buf =
    let next = (s.cas_id + 1) % u64 in
    let cas = if s.use_cas then next else 0 in
    let s' : Store =
      record (modify s a
        (λ o. item_set_cas cas (record o { item_data = overwritten buf o.item_data }))) {
          cas_id = if s.use_cas then next else s.cas_id;
        } in
    do_item_update s' a

-- The branch that stores a new item.
unfoldable pub replace_by_new : Bool → Bytes × ℕ → Store → ℕ → Bytes → Option Store
replace_by_new mem junk s a buf =
    let o = item_at s a in
    elim (do_item_alloc mem junk s o.key o.client_flags o.exptime (buf ++ 13 ∷ 10 ∷ [])) [
      | none ↦ none
      | some (s', new) ↦
          let s'' = do_item_replace s' a new in
          let cas = if s.use_cas then item_get_cas (item_at s'' new) else 0 in
          some (do_item_remove (modify s'' a (item_set_cas cas)) new)
    ]

-- The end of a success: `it_ret` takes the reference, or it is given back.
unfoldable pub delta_done : Bool → Store → ℕ → Bytes → Option ℕ → Delta
delta_done it_ret s a buf cas = record {
  store = if it_ret then s else do_item_remove s a;
  result = ok;
  buf = buf;
  cas = elim cas [ none ↦ none | some _ ↦ some (item_get_cas (item_at s a)) ];
}

abbrev pub refused : Store → DeltaResult → Option ℕ → Delta
refused s result cas = record { store = s; result = result; buf = []; cas = cas }

-- With the number read and the new one computed.
unfoldable pub delta_store :
    (ℕ → Bytes) → Bool → Bytes × ℕ → Bool → Store → ℕ → ℕ → Option ℕ → Delta
delta_store print mem junk it_ret s a value cas =
    let o = item_at s a in
    let buf = print value in
    if leb (length buf + 2) (length o.item_data) && o.refcount == 2
    then delta_done it_ret (replace_in_place s a buf) a buf cas
    else if ltb 1 o.refcount
    then elim (replace_by_new mem junk s a buf) [
      | none ↦ refused (do_item_remove s a) eom cas
      | some s' ↦ delta_done it_ret s' a buf cas
    ]
    else refused (if o.refcount == 1 then do_item_remove s a else s) delta_item_not_found cas

-- `*cas != 0 && ITEM_get_cas(it) != *cas`
unfoldable pub cas_mismatch : Option ℕ → Item → Bool
cas_mismatch none o = false
cas_mismatch (some cas) o = not (cas == 0) && not (item_get_cas o == cas)

unfoldable pub delta_on :
    (ℕ → Bytes) → Bool → Bytes × ℕ → Bytes → Bool → Store → ℕ → Bool → ℕ → Option ℕ → Delta
delta_on print mem junk beyond it_ret s a incr delta cas =
    let o = item_at s a in
    if leb (length o.item_data) 2 || o.is_hdr
    then refused (do_item_remove s a) non_numeric cas
    else if cas_mismatch cas o
    then refused (do_item_remove s a) delta_item_cas_mismatch cas
    else elim (safe_strtoull (o.item_data ++ beyond)) [
      | none ↦ refused (do_item_remove s a) non_numeric cas
      | some value ↦ delta_store print mem junk it_ret s a (new_value incr delta value) cas
    ]

unfoldable pub do_add_delta :
    (ℕ → Bytes) → Bool → Bytes × ℕ → Bytes → Bool → Store → Bytes → Bool → ℕ → Option ℕ → Delta
do_add_delta print mem junk beyond it_ret s key incr delta cas =
    let found = do_item_get none s key in
    elim found.1 [
      | none ↦ refused found.0 delta_item_not_found cas
      | some a ↦ delta_on print mem junk beyond it_ret found.0 a incr delta cas
    ]

unfoldable pub delta_line : Delta → Option Line
delta_line d = elim d.result [
  | ok ↦ some (number d.buf)
  | non_numeric ↦ some cannot_increment
  | eom ↦ some out_of_memory
  | delta_item_not_found ↦ some not_found
  | delta_item_cas_mismatch ↦ none
]

unfoldable pub process_arithmetic_command :
    (ℕ → Bytes) → Bool → Bytes × ℕ → Bytes → Conn → Store → List Bytes → Bool → Turn
process_arithmetic_command print mem junk beyond c0 s tokens incr =
    let c = set_noreply_maybe c0 tokens in
    let key = key_token tokens in
    if ltb key_max_length (length key)
    then out_string c s bad_line
    else elim (safe_strtoull (token tokens 2)) [
      | none ↦ out_string c s invalid_delta
      | some delta ↦
          let d = do_add_delta print mem junk beyond false s key incr delta none in
          elim (delta_line d) [
            | none ↦ record { conn = c; store = d.store; sent = none }
            | some line ↦ out_string c d.store line
          ]
    ]
