-- ===== src/Store/Delta/Tests.antt =====
-- memcached/memcached.c: an increment evaluated.
use kvsev.Prelude.{true, false, some, [], ◌∷◌}
use kvsev.Prelude.Bytes.{same_bytes}
use kvsev.Text.Numbers.{has_byte}
use kvsev.Text.Numbers.Decimal.{decimal, decimal_loop}
use kvsev.Store.Items.{Item, Store, blank, modify, refcount_incr, do_item_get, item_is_flushed}
use kvsev.Store.Tests.{start}
use kvsev.Store.Delta.{new_value}

-- "9\r\n" under a key of one byte, with a MAC.
abbrev nine : Item
nine = record blank {
  key = 1 ∷ [];
  item_data = 57 ∷ 13 ∷ 10 ∷ [];
  linked = true;
  refcount = 1;
  freed = false;
  mac = 7 ∷ [];
}

abbrev counter : Store
counter = record start { heap = nine ∷ []; index = λ k. some 0 }

abbrev held_counter : Store
held_counter = record counter { heap = record nine { refcount = 2 } ∷ [] }

program : Unit {0}
unfolding modify refcount_incr do_item_get item_is_flushed same_bytes has_byte decimal decimal_loop
    new_value
program = tt
