-- ===== src/Assoc/Tests.antt =====
-- memcached/assoc.c: a small table that grows, and the theorems at concrete inputs.
use kvsev.Prelude.{
  arith, ℕ, ◌+◌, ◌-◌, ◌≡◌, ◌≤◌, refl, ◌↔◌, true, false, Option, none, some, [], ◌∷◌, get_or,
}
use kvsev.Prelude.Bytes.{same_bytes}
use kvsev.Assoc.{
  Key, Item, Assoc, in_old, chain_of, put_chain, matches, find_in, remove_in, find, init, insert,
  delete, expand, move_chain, migrate, bulk_move, maintain,
}
use kvsev.Assoc.Placed.{Placed}
use kvsev.Assoc.Grow.{SameFinds}
use kvsev.Assoc.Migrate.{left, migrate_lem}
use kvsev.Assoc.Maintain.{bulk_move_lem, maintain_lem, init-Placed}
use kvsev.Assoc.Iterate.{iterate_all, get_iterator, iterate_all_lem}
use kvsev.Assoc.History.{
  Reaches, starts, inserts, deletes, maintains, Stands, update_map, Reaches-Stands,
}

-- A hash, three items, and a table of two buckets.
abbrev first : Key → ℕ
first k = get_or k 0 0

abbrev item1 : Item
item1 = record { key = 1 ∷ []; value = 10 ∷ [] }

abbrev item3 : Item
item3 = record { key = 3 ∷ []; value = 30 ∷ [] }

abbrev two_buckets : Assoc
two_buckets = record {
  hashpower = 1;
  primary = [] ∷ [] ∷ [];
  old = [];
  expanding = false;
  expand_bucket = 0;
  hash_power_level = 1;
  hash_bytes = 16;
  hash_is_expanding = false;
}

-- Two items of one bucket, then an expansion and the move of the first of the two buckets.
abbrev one_item : Assoc
one_item = record two_buckets { primary = [] ∷ (item1 ∷ []) ∷ [] }

abbrev two_items : Assoc
two_items = record two_buckets { primary = [] ∷ (item3 ∷ item1 ∷ []) ∷ [] }

abbrev growing_table : Assoc
growing_table = record {
  hashpower = 2;
  primary = [] ∷ [] ∷ [] ∷ [] ∷ [];
  old = [] ∷ (item3 ∷ item1 ∷ []) ∷ [];
  expanding = true;
  expand_bucket = 0;
  hash_power_level = 2;
  hash_bytes = 48;
  hash_is_expanding = true;
}

abbrev grown_table : Assoc
grown_table = record {
  hashpower = 2;
  primary = [] ∷ (item1 ∷ []) ∷ [] ∷ (item3 ∷ []) ∷ [];
  old = [];
  expanding = false;
  expand_bucket = 2;
  hash_power_level = 2;
  hash_bytes = 32;
  hash_is_expanding = false;
}

abbrev without_one : Assoc
without_one = record growing_table { old = [] ∷ (item3 ∷ []) ∷ [] }

-- The program evaluated.
program : Unit {0}
unfolding init in_old chain_of put_chain matches find_in remove_in find insert delete expand
    move_chain migrate bulk_move maintain same_bytes
program = tt

started : init true 1 ≡ some two_buckets
unfolding program
started = refl

inserted_one : insert two_buckets item1 1 ≡ one_item
unfolding program
inserted_one = refl

inserted_two : insert one_item item3 3 ≡ two_items
unfolding program
inserted_two = refl

expanded : maintain first [] true true two_items ≡ growing_table
unfolding program
expanded = refl

moved_all : maintain first (true ∷ false ∷ true ∷ []) false true growing_table ≡ grown_table
unfolding program
moved_all = refl

found_while_growing : find growing_table (1 ∷ []) 1 ≡ some item1
unfolding program
found_while_growing = refl

deleted_while_growing : delete growing_table (1 ∷ []) 1 ≡ some without_one
unfolding program
deleted_while_growing = refl

absent : find two_buckets item1.key (first item1.key) ≡ none
unfolding program
absent = refl

absent_two : find one_item item3.key (first item3.key) ≡ none
unfolding program
absent_two = refl

-- The same run, as a history; a deletion in the middle of the expansion, and a last round.
abbrev run1 : Assoc
run1 = insert two_buckets item1 (first item1.key)

abbrev run2 : Assoc
run2 = insert run1 item3 (first item3.key)

abbrev run3 : Assoc
run3 = maintain first [] true true run2

abbrev run4 : Assoc
run4 = maintain first (true ∷ true ∷ []) false true without_one

abbrev nothing : Key → Option Item
nothing k = none

abbrev map1 : Key → Option Item
map1 = update_map nothing item1.key (some item1)

abbrev map2 : Key → Option Item
map2 = update_map map1 item3.key (some item3)

abbrev map3 : Key → Option Item
map3 = update_map map2 (1 ∷ []) none

new_three : map1 item3.key ≡ none
unfolding same_bytes
new_three = refl

deleted_in_run : delete run3 (1 ∷ []) (first (1 ∷ [])) ≡ some without_one
unfolding program
deleted_in_run = refl

history2 : Reaches first run2 map2
history2 =
    inserts run1 map1 item3 (inserts two_buckets nothing item1 (starts 1 two_buckets started) refl)
      new_three

history : Reaches first run4 map3
history = maintains without_one map3 (true ∷ true ∷ []) false true (
    deletes run3 without_one map2 (1 ∷ []) (maintains run2 map2 [] true true history2)
      deleted_in_run)

Reaches-Stands_example : Placed first run4 × Stands first run4 map3
Reaches-Stands_example = Reaches-Stands first run4 map3 history

two_buckets-Placed : Placed first two_buckets
two_buckets-Placed = (init-Placed first 1 two_buckets started).0

run2-Placed : Placed first run2
run2-Placed = (Reaches-Stands first run2 map2 history2).0

run3-Placed : Placed first run3
run3-Placed = (maintain_lem first [] true true run2 run2-Placed).0

growing_table-Placed : Placed first growing_table
unfolding program
growing_table-Placed = run3-Placed

migrate_lem_example :
    Placed first (migrate first growing_table)
    × SameFinds first growing_table (migrate first growing_table)
    × (left first (migrate first growing_table) + 1 ≡ left first growing_table)
    × (((migrate first growing_table).expanding ≡ false) ↔ (left first growing_table ≡ 1))
migrate_lem_example = migrate_lem first growing_table growing_table-Placed refl

bulk_move_lem_example :
    Placed first (bulk_move first (true ∷ true ∷ []) growing_table)
    × SameFinds first growing_table (bulk_move first (true ∷ true ∷ []) growing_table)
    × (left first (bulk_move first (true ∷ true ∷ []) growing_table) ≡ left first growing_table - 2)
    × (left first growing_table ≤ 2
        → (bulk_move first (true ∷ true ∷ []) growing_table).expanding ≡ false)
bulk_move_lem_example = bulk_move_lem first (true ∷ true ∷ []) growing_table growing_table-Placed

iterate_all_lem_example : iterate_all 5 two_items get_iterator ≡ (item3 ∷ item1 ∷ [], true)
iterate_all_lem_example = iterate_all_lem two_items 5 refl (omega arith)
